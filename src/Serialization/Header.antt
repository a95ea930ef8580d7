-- ===== src/Serialization/Header.antt =====
-- The header of a message of serialization_session: its size is eight, and it is read back.
use splitsen.Base.{
  ℕ, zero, suc, ◌+◌, ◌-◌, ◌*◌, ◌/◌, ◌%◌, ◌^◌, ◌≤◌, ◌<◌, false, [], ◌∷◌, ◌++◌, Bytes, none, some,
  ltb, lt→ltb, ge→ltb, ◌==◌, ==_ne, ◌&&◌, ◌||◌, if◌then◌else◌, length, length-append, replicate,
  length-replicate, All, All-concat, ◌≡◌, ◌≢◌, refl, sym, ap, ◌∙◌, arith,
}
use native.Mathlib.Nat.{pow-suc}
use native.Mathlib.Decide.{dec_lt}
use splitsen.Hex.{is_space, hex_value}
use splitsen.Serialization.{
  header_length, hex_char, to_hex, header_text, format_header, skip_space, read_digits, read_number,
  read_prefixed, read_signed, read_size,
}

abbrev IsHexDigit : ℕ → Type 0
IsHexDigit c = (v : ℕ) × (hex_value c ≡ some v)

hex_value-hex_char : (d : ℕ) → d < 16 → hex_value (hex_char d) ≡ some d
unfolding hex_value hex_char
hex_value-hex_char d h = ground arith

to_hex-last : (fuel n : ℕ) → n < 16 → to_hex (suc fuel) n ≡ hex_char n ∷ []
unfolding to_hex
to_hex-last fuel n h = let low : n % 16 ≡ n = omega arith in rw (lt→ltb n 16 h, low) refl

to_hex-more :
    (fuel n : ℕ) → 16 ≤ n → to_hex (suc fuel) n ≡ to_hex fuel (n / 16) ++ hex_char (n % 16) ∷ []
unfolding to_hex
to_hex-more fuel n h = rw (ge→ltb n 16 h) refl

to_hex-digits : (fuel n : ℕ) → All IsHexDigit (to_hex fuel n)
unfolding to_hex
to_hex-digits zero n = tt
to_hex-digits (suc fuel) n = elim (dec_lt n 16) [
  | yes h ↦ rw (to_hex-last fuel n h) ((n, hex_value-hex_char n h), tt)
  | no h ↦ rw (to_hex-more fuel n (omega arith)) (
      All-concat IsHexDigit (to_hex fuel (n / 16)) (hex_char (n % 16)) (to_hex-digits fuel (n / 16))
        (n % 16, hex_value-hex_char (n % 16) (omega arith)))
]

read_digits-cons :
    (n c v : ℕ) (cs : Bytes)
    → hex_value c ≡ some v
    → read_digits n (c ∷ cs) ≡ read_digits (n * 16 + v) cs
unfolding read_digits
read_digits-cons n c v cs e = λ i. elim (e i) [ none ↦ n | some w ↦ read_digits (n * 16 + w) cs ]

read_digits-append :
    (n : ℕ) (xs ys : Bytes)
    → All IsHexDigit xs
    → read_digits n (xs ++ ys) ≡ read_digits (read_digits n xs) ys
unfolding read_digits
read_digits-append n [] ys h = refl
read_digits-append n (x ∷ xs) ys ((v, e), h) =
    rw (read_digits-cons n x v (xs ++ ys) e, read_digits-cons n x v xs e)
      (read_digits-append (n * 16 + v) xs ys h)

read_digits-nil : (n : ℕ) → read_digits n [] ≡ n
unfolding read_digits
read_digits-nil n = refl

read_digits-one : (n d : ℕ) → d < 16 → read_digits n (hex_char d ∷ []) ≡ n * 16 + d
read_digits-one n d h =
    read_digits-cons n (hex_char d) d [] (hex_value-hex_char d h) ∙ read_digits-nil (n * 16 + d)

read_digits-to_hex : (fuel n : ℕ) → n < fuel → read_digits 0 (to_hex fuel n) ≡ n
read_digits-to_hex zero n h = absurd (omega arith)
read_digits-to_hex (suc fuel) n h = elim (dec_lt n 16) [
  | yes small ↦ rw (to_hex-last fuel n small) (omega (arith, read_digits-one 0 n small))
  | no large ↦
      let ih = read_digits-to_hex fuel (n / 16) (omega arith) in
      let split =
        read_digits-append 0 (to_hex fuel (n / 16)) (hex_char (n % 16) ∷ [])
          (to_hex-digits fuel (n / 16)) in
      let low = read_digits-one (read_digits 0 (to_hex fuel (n / 16))) (n % 16) (omega arith) in
      rw (to_hex-more fuel n (omega arith)) (omega (arith, split, low, ih))
]

-- The header is as long as the width while the digits fit it, and longer else.
length-to_hex : (k fuel n : ℕ) → n < fuel → n < 16 ^ suc k → length (to_hex fuel n) ≤ suc k
length-to_hex k zero n h p = absurd (omega arith)
length-to_hex zero (suc fuel) n h p =
    rw (to_hex-last fuel n (omega (arith, pow-suc 16 0))) (omega arith)
length-to_hex (suc k) (suc fuel) n h p = elim (dec_lt n 16) [
  | yes small ↦ rw (to_hex-last fuel n small) (omega arith)
  | no large ↦
      let ih = length-to_hex k fuel (n / 16) (omega arith) (omega (arith, pow-suc 16 (suc k))) in
      rw (to_hex-more fuel n (omega arith))
        (omega (arith, ih, length-append (to_hex fuel (n / 16)) (hex_char (n % 16) ∷ [])))
]

one_le_pow : (k : ℕ) → 1 ≤ 16 ^ k
one_le_pow zero = omega (arith, pow-suc 16 0)
one_le_pow (suc k) = omega (arith, one_le_pow k, pow-suc 16 k)

length-to_hex_pos : (fuel n : ℕ) → n < fuel → 0 < length (to_hex fuel n)
length-to_hex_pos zero n h = absurd (omega arith)
length-to_hex_pos (suc fuel) n h = elim (dec_lt n 16) [
  | yes small ↦ rw (to_hex-last fuel n small) (omega arith)
  | no large ↦
      rw (to_hex-more fuel n (omega arith))
        (omega (arith, length-append (to_hex fuel (n / 16)) (hex_char (n % 16) ∷ [])))
]

length-to_hex_large : (k fuel n : ℕ) → n < fuel → 16 ^ k ≤ n → k < length (to_hex fuel n)
length-to_hex_large k zero n h p = absurd (omega arith)
length-to_hex_large zero (suc fuel) n h p = length-to_hex_pos (suc fuel) n h
length-to_hex_large (suc k) (suc fuel) n h p =
    let large : 16 ≤ n = omega (arith, one_le_pow k, pow-suc 16 k) in
    let ih = length-to_hex_large k fuel (n / 16) (omega arith) (omega (arith, pow-suc 16 k)) in
    rw (to_hex-more fuel n large)
      (omega (arith, ih, length-append (to_hex fuel (n / 16)) (hex_char (n % 16) ∷ [])))

-- Reading the header back.
skip_space-blanks : (k : ℕ) (cs : Bytes) → skip_space (replicate k b' ' ++ cs) ≡ skip_space cs
unfolding skip_space is_space replicate
skip_space-blanks zero cs = refl
skip_space-blanks (suc k) cs = skip_space-blanks k cs

not_prefix : (c d w : ℕ) → hex_value d ≡ some w → (c == b'0' && (d == b'x' || d == b'X')) ≡ false
unfolding hex_value
not_prefix c d w e = ground arith

module _ (c v : ℕ) (digit : hex_value c ≡ some v) where
  skip_space-digit : (cs : Bytes) → skip_space (c ∷ cs) ≡ c ∷ cs
  unfolding skip_space is_space hex_value
  skip_space-digit cs = ground arith

  read_number-digit :
      (cs : Bytes) → read_digits v cs < 2 ^ 64 → read_number (c ∷ cs) ≡ some (read_digits v cs)
  unfolding read_number
  read_number-digit cs fits =
      (λ i. elim (digit i) [
        | none ↦ none
        | some w ↦ let n = read_digits w cs in if ltb n (2 ^ 64) then some n else none
      ])
      ∙ rw (lt→ltb (read_digits v cs) (2 ^ 64) fits) refl

  read_prefixed-digit :
      (cs : Bytes) → All IsHexDigit cs → read_prefixed (c ∷ cs) ≡ read_number (c ∷ cs)
  unfolding read_prefixed
  read_prefixed-digit [] h = refl
  read_prefixed-digit (d ∷ cs) ((w, e), h) = let not_x = not_prefix c d w e in rw not_x refl

  read_signed-digit : (cs : Bytes) → read_signed (c ∷ cs) ≡ read_prefixed (c ∷ cs)
  unfolding read_signed hex_value
  read_signed-digit cs = ground arith

read_size-digits :
    (k : ℕ) (cs : Bytes)
    → All IsHexDigit cs
    → cs ≢ []
    → read_digits 0 cs < 2 ^ 64
    → read_size (replicate k b' ' ++ cs) ≡ some (read_digits 0 cs)
unfolding read_size
read_size-digits k [] h ne fits = absurd (ne refl)
read_size-digits k (c ∷ cs) ((v, e), h) ne fits =
    let start : 0 * 16 + v ≡ v = omega arith in
    let same : read_digits 0 (c ∷ cs) ≡ read_digits v cs =
      read_digits-cons 0 c v cs e ∙ ap (λ (n : ℕ). read_digits n cs) start in
    ap read_signed (skip_space-blanks k (c ∷ cs) ∙ skip_space-digit c v e cs)
    ∙ read_signed-digit c v e cs
    ∙ read_prefixed-digit c v e cs h
    ∙ read_number-digit c v e cs (rw (← same) fits)
    ∙ ap (λ (n : ℕ). some n) (sym same)

to_hex-ne : (fuel n : ℕ) → n < fuel → to_hex fuel n ≢ []
to_hex-ne fuel n h e =
    let short : length (to_hex fuel n) ≡ 0 = rw e refl in
    omega (arith, short, length-to_hex_pos fuel n h)

-- A size of up to eight hexadecimal digits gets a header of eight chars, from which it is read back;
-- a larger one gets none.
pub read_size-header :
    (n : ℕ)
    → n < 16 ^ 8
    → (format_header n ≡ some (header_text n))
      × ((length (header_text n) ≡ header_length) × (read_size (header_text n) ≡ some n))
unfolding format_header header_text
read_size-header n h =
    let digits = to_hex (suc n) n in
    let fits = length-to_hex 7 (suc n) n (omega arith) h in
    let same = read_digits-to_hex (suc n) n (omega arith) in
    let blanks : Bytes = replicate (8 - length digits) b' ' in
    let measured : length blanks ≡ 8 - length digits =
      length-replicate {A = ℕ} (8 - length digits) b' ' in
    let width : length (blanks ++ digits) ≡ 8 =
      omega (arith, fits, measured, length-append blanks digits) in
    (
      rw width refl,
      (
        width,
        read_size-digits (8 - length digits) digits (to_hex-digits (suc n) n)
              (to_hex-ne (suc n) n (omega arith)) (rw same (omega (arith, h)))
            ∙ ap (λ (k : ℕ). some k) same,
      ),
    )

pub format_header-large : (n : ℕ) → 16 ^ 8 ≤ n → format_header n ≡ none
unfolding format_header header_text
format_header-large n h =
    let digits = to_hex (suc n) n in
    let long = length-to_hex_large 8 (suc n) n (omega arith) h in
    let wide =
      ==_ne (length (replicate (8 - length digits) b' ' ++ digits)) 8
        (λ e. omega (arith, length-append (replicate (8 - length digits) b' ') digits)) in
    rw wide refl

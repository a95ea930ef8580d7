-- ===== src/WebSocket/Endian/Network.antt =====
-- The conversions against the memory of the host: what `hton` leaves there is in network order, on
-- either kind of host, and `ntoh` undoes it.
use mathlib.Core.List.{reverse}
use splitsen.Base.{ℕ, suc, ◌+◌, ◌*◌, ◌/◌, ◌%◌, ◌^◌, ◌<◌, ◌≡◌, refl, sym, ap, ◌∙◌, [], ◌∷◌, arith}
use splitsen.WebSocket.Endian.{
  Endian, little, big, swap64, hton16, hton64, ntoh16, ntoh64, memory, low_first,
}
use splitsen.WebSocket.Endian.Laws.{join64, swap16-bytes, swap64-bytes}

low_first_step : (k q m : ℕ) → m < 256 → low_first (suc k) (q * 256 + m) ≡ m ∷ low_first k q
low_first_step k q m h =
    let low : (q * 256 + m) % 256 ≡ m = omega arith in
    let high : (q * 256 + m) / 256 ≡ q = omega arith in rw (low, high)

-- The bytes of a number, as `memory` names them.
abbrev pub byte : ℕ → ℕ → ℕ
byte ℕ.zero x = x % 256
byte (suc k) x = byte k (x / 256)

pub byte-lt : (k x : ℕ) → byte k x < 256
byte-lt ℕ.zero x = omega arith
byte-lt (suc k) x = byte-lt k (x / 256)

abbrev pub join_bytes : ℕ → ℕ
join_bytes x =
    join64 (byte 7 x) (byte 6 x) (byte 5 x) (byte 4 x) (byte 3 x) (byte 2 x) (byte 1 x) (byte 0 x)

pub join_bytes_lem : (x : ℕ) → x < 2 ^ 64 → join_bytes x ≡ x
join_bytes_lem x h = omega arith

swap64_lem :
    (x : ℕ)
    → x < 2 ^ 64
    → swap64 x
      ≡ join64
          (byte 0 x)
          (byte 1 x)
          (byte 2 x)
          (byte 3 x)
          (byte 4 x)
          (byte 5 x)
          (byte 6 x)
          (byte 7 x)
swap64_lem x h =
    ap swap64 (sym (join_bytes_lem x h))
    ∙ swap64-bytes (byte 7 x) (byte 6 x) (byte 5 x) (byte 4 x) (byte 3 x) (byte 2 x) (byte 1 x)
        (byte 0 x) (byte-lt 7 x) (byte-lt 6 x) (byte-lt 5 x) (byte-lt 4 x) (byte-lt 3 x)
        (byte-lt 2 x) (byte-lt 1 x) (byte-lt 0 x)

small : (a : ℕ) → a < 256 → a % 256 ≡ a
small a h = omega arith

low_first-join64 :
    (a b c d e f g h : ℕ)
    → a < 256
    → b < 256
    → c < 256
    → d < 256
    → e < 256
    → f < 256
    → g < 256
    → h < 256
    → low_first 8 (join64 a b c d e f g h) ≡ h ∷ g ∷ f ∷ e ∷ d ∷ c ∷ b ∷ a ∷ []
low_first-join64 a b c d e f g h pa pb pc pd pe pf pg ph =
    low_first_step 7 ((((((a * 256 + b) * 256 + c) * 256 + d) * 256 + e) * 256 + f) * 256 + g) h ph
    ∙ ap (◌∷◌ h)
        (low_first_step 6 (((((a * 256 + b) * 256 + c) * 256 + d) * 256 + e) * 256 + f) g pg)
    ∙ ap (◌∷◌ h)
        (ap (◌∷◌ g) (low_first_step 5 ((((a * 256 + b) * 256 + c) * 256 + d) * 256 + e) f pf))
    ∙ ap (◌∷◌ h)
        (ap (◌∷◌ g) (ap (◌∷◌ f) (low_first_step 4 (((a * 256 + b) * 256 + c) * 256 + d) e pe)))
    ∙ ap (◌∷◌ h)
        (ap (◌∷◌ g) (ap (◌∷◌ f) (ap (◌∷◌ e) (low_first_step 3 ((a * 256 + b) * 256 + c) d pd))))
    ∙ ap (◌∷◌ h)
        (ap (◌∷◌ g) (ap (◌∷◌ f) (ap (◌∷◌ e) (ap (◌∷◌ d) (low_first_step 2 (a * 256 + b) c pc)))))
    ∙ ap (◌∷◌ h)
        (ap (◌∷◌ g) (ap (◌∷◌ f) (ap (◌∷◌ e) (ap (◌∷◌ d) (ap (◌∷◌ c) (low_first_step 1 a b pb))))))
    ∙ ap (◌∷◌ h) (
        ap (◌∷◌ g) (
          ap (◌∷◌ f)
            (ap (◌∷◌ e) (ap (◌∷◌ d) (ap (◌∷◌ c) (ap (◌∷◌ b) (ap (λ t. t ∷ []) (small a pa))))))))

-- What `hton64` leaves in memory is the number's bytes, highest first, whatever the host's order.
pub memory-hton64 :
    (e : Endian) (x : ℕ) → x < 2 ^ 64 → memory e 8 (hton64 e x) ≡ reverse (low_first 8 x)
unfolding hton64
memory-hton64 big x h = refl
memory-hton64 little x h =
    ap (low_first 8) (swap64_lem x h)
    ∙ low_first-join64 (byte 0 x) (byte 1 x) (byte 2 x) (byte 3 x) (byte 4 x) (byte 5 x) (byte 6 x)
        (byte 7 x) (byte-lt 0 x) (byte-lt 1 x) (byte-lt 2 x) (byte-lt 3 x) (byte-lt 4 x)
        (byte-lt 5 x) (byte-lt 6 x) (byte-lt 7 x)

pub memory-hton16 :
    (e : Endian) (x : ℕ) → x < 2 ^ 16 → memory e 2 (hton16 e x) ≡ x / 256 ∷ x % 256 ∷ []
unfolding hton16
memory-hton16 big x h = rw (small (x / 256) (omega arith))
memory-hton16 little x h =
    let whole : x / 256 * 256 + x % 256 ≡ x = omega arith in
    let swapped = rw whole at (swap16-bytes (x / 256) (x % 256) (omega arith) (omega arith)) in
    rw swapped
      (low_first_step 1 (x % 256) (x / 256) (omega arith) ∙ rw (small (x % 256) (omega arith)))

-- `ntoh` after `hton` gives the number back, on either kind of host.
pub ntoh16-hton16 : (e : Endian) (x : ℕ) → x < 2 ^ 16 → ntoh16 e (hton16 e x) ≡ x
unfolding ntoh16 hton16
ntoh16-hton16 big x h = refl
ntoh16-hton16 little x h =
    let whole : x / 256 * 256 + x % 256 ≡ x = omega arith in
    let swapped = rw whole at (swap16-bytes (x / 256) (x % 256) (omega arith) (omega arith)) in
    rw swapped (swap16-bytes (x % 256) (x / 256) (omega arith) (omega arith) ∙ whole)

pub ntoh64-hton64 : (e : Endian) (x : ℕ) → x < 2 ^ 64 → ntoh64 e (hton64 e x) ≡ x
unfolding ntoh64 hton64
ntoh64-hton64 big x h = refl
ntoh64-hton64 little x h =
    ap swap64 (swap64_lem x h)
    ∙ swap64-bytes (byte 0 x) (byte 1 x) (byte 2 x) (byte 3 x) (byte 4 x) (byte 5 x) (byte 6 x)
        (byte 7 x) (byte-lt 0 x) (byte-lt 1 x) (byte-lt 2 x) (byte-lt 3 x) (byte-lt 4 x)
        (byte-lt 5 x) (byte-lt 6 x) (byte-lt 7 x)
    ∙ join_bytes_lem x h

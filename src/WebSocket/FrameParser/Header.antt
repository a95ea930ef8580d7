-- ===== src/WebSocket/FrameParser/Header.antt =====
-- The parser on the header of a frame, in each of the three forms of its length.
use splitsen.Base.{
  ℕ, ◌+◌, ◌*◌, ◌/◌, ◌%◌, ◌^◌, ◌<◌, ◌≡◌, refl, ◌∙◌, Bool, true, false, ◌∷◌, Bytes, arith, bit_or,
  bit_and-ones, bit_or_low_high, ◌==◌, ltb, if◌then◌else◌, ◌⊎◌, inl, inr, lt→ltb, ge→ltb,
}
use native.Mathlib.Decide.{dec_lt}
use splitsen.Stream.{is_true, indeterminate, parsed}
use splitsen.Stream
use splitsen.Stream.Laws.{parse-cons, parse-cons_stop}
use splitsen.WebSocket.Endian.{little, ntoh16, ntoh64}
use splitsen.WebSocket.Endian.Laws.{join64, swap16-bytes, swap64-bytes}
use splitsen.WebSocket.Endian.Network.{byte, byte-lt, join_bytes_lem}
use splitsen.WebSocket.Frame.{OperationCode, continuation_frame, DataFrame}
use splitsen.WebSocket.FrameParser.{
  State, FrameParser, fin_opcode, mask_payload_len, extended_payload_len1, start, after_length,
  get_bits, opcode_of, consume, expected_size,
}
use splitsen.WebSocket.FrameParser.Wire.{bit, code_of, first_byte, length_bytes}

mask_bit : (b : Bool) (n : ℕ) → n < 128 → (get_bits (bit b * 128 + n) 7 1 == 1) ≡ b
unfolding get_bits
mask_bit true n h =
    let high : (1 * 128 + n) / 2 ^ 7 ≡ 1 = omega arith in
    rw high (ground (arith, bit_and-ones 1 0 1))
mask_bit false n h =
    let high : (0 * 128 + n) / 2 ^ 7 ≡ 0 = omega arith in
    rw high (ground (arith, bit_and-ones 1 0 0))

low_seven : (b : Bool) (n : ℕ) → n < 128 → get_bits (bit b * 128 + n) 0 7 ≡ n
unfolding get_bits
low_seven b n h =
    let same : (bit b * 128 + n) / 2 ^ 0 ≡ bit b * 128 + n = omega arith in
    rw same (bit_and-ones 7 (bit b) n h)

code-lt : (op : OperationCode) → code_of op < 16
code-lt op = grind arith

low_four : (b : Bool) (op : OperationCode) → get_bits (first_byte b op) 0 4 ≡ code_of op
unfolding get_bits
low_four b op =
    let same : (bit b * 128 + code_of op) / 2 ^ 0 ≡ bit b * 8 * 2 ^ 4 + code_of op = omega arith in
    rw same (bit_and-ones 4 (bit b * 8) (code_of op) (code-lt op))

opcode_of-code_of : (op : OperationCode) → opcode_of (code_of op) ≡ op
unfolding opcode_of
opcode_of-code_of continuation_frame = refl
opcode_of-code_of _ = refl

-- The frame once the length `n` has been read.
unfoldable pub with_length : DataFrame → ℕ → DataFrame
with_length f n =
    let short = ltb n 126 in
    let mid = ltb n 65536 in
    record f {
      payload_len = if short then n else if mid then 126 else 127;
      extended_payload_len16 =
          if short then f.extended_payload_len16 else if mid then n else f.extended_payload_len16;
      extended_payload_len64 = if mid then f.extended_payload_len64 else n;
    }

abbrev pub run : State → DataFrame → Bytes → Stream.Parsed FrameParser
run s f = Stream.parse (consume little) (record { state = s; frame = f })

pub run_first :
    (f : DataFrame) (fin : Bool) (op : OperationCode) (rest : Bytes)
    → run fin_opcode f (first_byte fin op ∷ rest)
      ≡ run mask_payload_len (record f { fin = fin; opcode = op }) rest
unfolding consume
run_first f fin op rest = parse-cons (consume little) (start f) (first_byte fin op) rest (
    rw (
      mask_bit fin (code_of op) (omega (arith, code-lt op)),
      low_four fin op,
      opcode_of-code_of op,
    ))

pub run_short :
    (f : DataFrame) (mask : Bool) (n : ℕ) (rest : Bytes)
    → 0 < n
    → n < 126
    → run mask_payload_len f ((bit mask * 128 + n) ∷ rest)
      ≡ run (after_length mask) (record f { mask = mask; payload_len = n }) rest
unfolding consume
run_short f mask n rest p q =
    parse-cons (consume little) (record { state = mask_payload_len; frame = f }) _ rest
      (rw (mask_bit mask n (omega arith), low_seven mask n (omega arith)) (ground arith))

pub run_empty :
    (f : DataFrame) (rest : Bytes)
    → run mask_payload_len f (128 ∷ rest)
      ≡ parsed is_true
          (record { state = mask_payload_len; frame = record f { mask = true; payload_len = 0 } })
          rest
unfolding consume
run_empty f rest =
    parse-cons_stop (consume little) (record { state = mask_payload_len; frame = f }) 128 rest
      (rw (mask_bit true 0 (omega arith), low_seven true 0 (omega arith)))

pub run_escape :
    (f : DataFrame) (mask : Bool) (n : ℕ) (rest : Bytes)
    → (n ≡ 126) ⊎ (n ≡ 127)
    → run mask_payload_len f ((bit mask * 128 + n) ∷ rest)
      ≡ run extended_payload_len1 (record f { mask = mask; payload_len = n }) rest
unfolding consume
run_escape f mask n rest p =
    parse-cons (consume little) (record { state = mask_payload_len; frame = f }) _ rest
      (rw (mask_bit mask n (omega arith), low_seven mask n (omega arith)) (ground arith))

-- The two bytes of a length behind 126.
pub run_mid :
    (f : DataFrame) (mask : Bool) (a b : ℕ) (rest : Bytes)
    → a < 256
    → b < 256
    → run extended_payload_len1 (record f { mask = mask; payload_len = 126 }) (a ∷ b ∷ rest)
      ≡ run
          (after_length mask)
          (record f { mask = mask; payload_len = 126; extended_payload_len16 = a * 256 + b })
          rest
unfolding consume Stream.parse ntoh16
run_mid f mask a b rest p q =
    let small : b * 2 ^ 8 % 2 ^ 16 ≡ b * 2 ^ 8 = omega arith in
    let joined : bit_or a (b * 2 ^ 8 % 2 ^ 16) ≡ b * 256 + a =
      rw small (omega (arith, bit_or_low_high 8 b a p)) in
    rw (joined, swap16-bytes b a q p)

or_low :
    (k x c : ℕ) → x < 2 ^ k → c * 2 ^ k < 2 ^ 64 → bit_or x (c * 2 ^ k % 2 ^ 64) ≡ x + c * 2 ^ k
or_low k x c p q =
    let small : c * 2 ^ k % 2 ^ 64 ≡ c * 2 ^ k = omega arith in rw small (bit_or_low_high k c x p)

module _ (a b c d e f g h : ℕ) (pa : a < 256) (pb : b < 256) (pc : c < 256) (pd : d < 256)
    (pe : e < 256) (pf : f < 256) (pg : g < 256) (ph : h < 256) where
  abbrev low_b : ℕ
  low_b = a + b * 2 ^ 8

  or_b : bit_or a (b * 2 ^ 8 % 2 ^ 64) ≡ low_b
  or_b = or_low 8 a b (omega arith) (omega arith)

  abbrev low_c : ℕ
  low_c = low_b + c * 2 ^ 16

  or_c : bit_or low_b (c * 2 ^ 16 % 2 ^ 64) ≡ low_c
  or_c = or_low 16 low_b c (omega arith) (omega arith)

  abbrev low_d : ℕ
  low_d = low_c + d * 2 ^ 24

  or_d : bit_or low_c (d * 2 ^ 24 % 2 ^ 64) ≡ low_d
  or_d = or_low 24 low_c d (omega arith) (omega arith)

  abbrev low_e : ℕ
  low_e = low_d + e * 2 ^ 32

  or_e : bit_or low_d (e * 2 ^ 32 % 2 ^ 64) ≡ low_e
  or_e = or_low 32 low_d e (omega arith) (omega arith)

  abbrev low_f : ℕ
  low_f = low_e + f * 2 ^ 40

  or_f : bit_or low_e (f * 2 ^ 40 % 2 ^ 64) ≡ low_f
  or_f = or_low 40 low_e f (omega arith) (omega arith)

  abbrev low_g : ℕ
  low_g = low_f + g * 2 ^ 48

  or_g : bit_or low_f (g * 2 ^ 48 % 2 ^ 64) ≡ low_g
  or_g = or_low 48 low_f g (omega arith) (omega arith)

  abbrev low_h : ℕ
  low_h = low_g + h * 2 ^ 56

  or_h : bit_or low_g (h * 2 ^ 56 % 2 ^ 64) ≡ low_h
  or_h = or_low 56 low_g h (omega arith) (omega arith)

  all_low : low_h ≡ join64 h g f e d c b a
  all_low = omega arith

  -- The eight bytes of a length behind 127.
  run_long :
      (frame : DataFrame) (mask : Bool) (rest : Bytes)
      → run extended_payload_len1
          (record frame { mask = mask; payload_len = 127 })
          (a ∷ b ∷ c ∷ d ∷ e ∷ f ∷ g ∷ h ∷ rest)
        ≡ run
            (after_length mask)
            (record frame {
              mask = mask;
              payload_len = 127;
              extended_payload_len64 = join64 a b c d e f g h;
            })
            rest
  unfolding consume Stream.parse ntoh64
  run_long frame mask rest =
      rw (or_b, or_c, or_d, or_e, or_f, or_g, or_h)
        (rw (all_low, swap64-bytes h g f e d c b a ph pg pf pe pd pc pb pa))

pub expected_size-with_length : (f : DataFrame) (n : ℕ) → expected_size (with_length f n) ≡ n
unfolding expected_size with_length
expected_size-with_length f n = ground arith

-- The mask bit and a length other than 0: the parser then waits for the key or the payload, and
-- expects just that length, in whichever form it came.
pub parse_length :
    (f : DataFrame) (mask : Bool) (n : ℕ) (rest : Bytes)
    → 0 < n
    → n < 2 ^ 64
    → run mask_payload_len f (length_bytes mask n rest)
      ≡ run (after_length mask) (with_length (record f { mask = mask }) n) rest
unfolding with_length
parse_length f mask n rest p q = elim (dec_lt n 126) [
  | yes short ↦
      rw (lt→ltb n 126 short, lt→ltb n 65536 (omega arith)) (run_short f mask n rest p short)
  | no long ↦ elim (dec_lt n 65536) [
    | yes mid ↦
        let whole : n / 256 * 256 + n % 256 ≡ n = omega arith in
        rw (ge→ltb n 126 (omega arith), lt→ltb n 65536 mid)
          (run_escape f mask 126 _ (inl refl)
            ∙ run_mid f mask (n / 256) (n % 256) rest (omega arith) (omega arith)
            ∙ rw whole)
    | no wide ↦
        rw (ge→ltb n 126 (omega arith), ge→ltb n 65536 (omega arith))
          (run_escape f mask 127 _ (inr refl)
            ∙ run_long (byte 7 n) (byte 6 n) (byte 5 n) (byte 4 n) (byte 3 n) (byte 2 n) (byte 1 n)
                (byte 0 n) (byte-lt 7 n) (byte-lt 6 n) (byte-lt 5 n) (byte-lt 4 n) (byte-lt 3 n)
                (byte-lt 2 n) (byte-lt 1 n) (byte-lt 0 n) f mask rest
            ∙ rw (join_bytes_lem n q))
  ]
]

-- ===== src/WebSocket/FrameParser/Masking.antt =====
-- The payload state, and masking as its own inverse.
use splitsen.Base.{
  ℕ, suc, ◌+◌, ◌%◌, ◌≡◌, refl, ◌∙◌, ap, [], ◌∷◌, ◌++◌, Bytes, arith, length, length-append,
  append_assoc, bit_xor, bit_xor_twice, bit_xor-zero,
}
use splitsen.Stream.{is_true, indeterminate, parsed}
use splitsen.Stream
use splitsen.Stream.Laws.{parse-cons, parse-cons_stop}
use splitsen.WebSocket.Endian.{Endian}
use splitsen.WebSocket.Frame.{DataFrame, MaskingKey}
use splitsen.WebSocket.FrameParser.{payload, consume, expected_size, key_at}
use splitsen.WebSocket.FrameParser.Wire.{masked}

pub masked-masked : (key : MaskingKey) (i : ℕ) (p : Bytes) → masked key i (masked key i p) ≡ p
masked-masked key i [] = refl
masked-masked key i (c ∷ cs) =
    rw (bit_xor_twice c (key_at key (i % 4)), masked-masked key (i + 1) cs)

pub length-masked : (key : MaskingKey) (i : ℕ) (p : Bytes) → length (masked key i p) ≡ length p
length-masked key i [] = refl
length-masked key i (c ∷ cs) = ap suc (length-masked key (i + 1) cs)

-- The key that changes nothing.
abbrev pub IsZeroKey : MaskingKey → Type 0
IsZeroKey k = (k.key0 ≡ 0) × (k.key1 ≡ 0) × (k.key2 ≡ 0) × (k.key3 ≡ 0)

key_at-zero : (k : MaskingKey) (i : ℕ) → IsZeroKey k → key_at k i ≡ 0
unfolding key_at
key_at-zero k i z = ground arith

pub masked-zero : (key : MaskingKey) (i : ℕ) (p : Bytes) → IsZeroKey key → masked key i p ≡ p
masked-zero key i [] z = refl
masked-zero key i (c ∷ cs) z =
    rw (key_at-zero key (i % 4) z, bit_xor-zero c, masked-zero key (i + 1) cs z)

-- The size once the byte is stored.
pub grown :
    (f : DataFrame) (c : ℕ)
    → length (f.payload ++ bit_xor c (key_at f.masking_key (length f.payload % 4)) ∷ [])
      ≡ length f.payload + 1
grown f c = length-append f.payload (bit_xor c (key_at f.masking_key (length f.payload % 4)) ∷ [])

-- With `size` bytes expected in all, the payload state takes the rest of them, unmasked, answers
-- true at the last, and leaves what follows.
pub parse_payload :
    (e : Endian) (c : ℕ) (cs : Bytes) (f : DataFrame) (rest : Bytes)
    → expected_size f ≡ length f.payload + length (c ∷ cs)
    → Stream.parse (consume e) (record { state = payload; frame = f }) (c ∷ (cs ++ rest))
      ≡ parsed is_true
          (record {
            state = payload;
            frame = record f {
              payload = f.payload ++ masked f.masking_key (length f.payload) (c ∷ cs);
            };
          })
          rest
unfolding consume expected_size
parse_payload e c [] f rest h =
    parse-cons_stop (consume e) (record { state = payload; frame = f }) c rest
      (ground (arith, grown f c))
parse_payload e c (d ∷ ds) f rest h =
    let byte = bit_xor c (key_at f.masking_key (length f.payload % 4)) in
    parse-cons (consume e) (record { state = payload; frame = f }) c (d ∷ (ds ++ rest))
      (ground (arith, grown f c))
    ∙ parse_payload e d ds (record f { payload = f.payload ++ byte ∷ [] }) rest
        (ground (arith, grown f c, h))
    ∙ rw (grown f c, append_assoc)

-- ===== src/Http/RequestHandler/Decode.antt =====
-- `url_decode` undoes percent-encoding.
use splitsen.Base.{
  ℕ, ◌+◌, ◌-◌, ◌*◌, ◌/◌, ◌%◌, ◌<◌, Bool, true, false, ◌&&◌, ◌||◌, [], ◌∷◌, Bytes, some, ◌==◌, ltb,
  leb, if◌then◌else◌, All, ◌≡◌, refl, arith, Bool-cases, inl, inr,
}
use splitsen.Hex.{is_space, hex_value}
use splitsen.Http.RequestHandler.{read_hex, push, url_decode}

-- The chars that RFC 3986 leaves as they are in a path, the slash among them.
unfoldable pub is_unreserved : ℕ → Bool
is_unreserved c =
    leb b'a' c && leb c b'z'
    || leb b'A' c && leb c b'Z'
    || leb b'-' c && leb c b'9'
    || c == b'_'
    || c == b'~'

unfoldable pub hex_digit : ℕ → ℕ
hex_digit d = if ltb d 10 then b'0' + d else b'A' + (d - 10)

-- The path of a URI for a sequence of bytes.
unfoldable pub url_encode : Bytes → Bytes
unfolding is_unreserved hex_digit
url_encode [] = []
url_encode (c ∷ cs) =
    let rest = url_encode cs in
    if is_unreserved c then c ∷ rest else b'%' ∷ hex_digit (c / 16) ∷ hex_digit (c % 16) ∷ rest

hex_value-hex_digit : (d : ℕ) → d < 16 → hex_value (hex_digit d) ≡ some d
unfolding hex_value hex_digit
hex_value-hex_digit d h = ground arith

abbrev starts_digits : ℕ → ℕ → Bool
starts_digits a b = is_space a || a == b'+' || a == b'-' || a == b'0' && (b == b'x' || b == b'X')

hex_digit-starts : (d e : ℕ) → d < 16 → e < 16 → starts_digits (hex_digit d) (hex_digit e) ≡ false
unfolding hex_digit is_space
hex_digit-starts d e p q = ground arith

read_hex-digits :
    (a b d e : ℕ)
    → starts_digits a b ≡ false
    → hex_value a ≡ some d
    → hex_value b ≡ some e
    → read_hex a b ≡ some (d * 16 + e)
unfolding read_hex
read_hex-digits a b d e plain p q = ground arith

url_decode-plain :
    (c : ℕ) (cs : Bytes)
    → is_unreserved c ≡ true
    → url_decode (c ∷ cs) ≡ push (some c) (url_decode cs)
unfolding url_decode is_unreserved
url_decode-plain c [] h = ground arith
url_decode-plain c (a ∷ []) h = ground arith
url_decode-plain c (a ∷ b ∷ cs) h = ground arith

url_decode-escape :
    (a b : ℕ) (cs : Bytes) → url_decode (b'%' ∷ a ∷ b ∷ cs) ≡ push (read_hex a b) (url_decode cs)
unfolding url_decode
url_decode-escape a b cs = refl

url_decode-nil : url_decode [] ≡ some []
unfolding url_decode
url_decode-nil = refl

-- A sequence of bytes comes back from its percent-encoding.
pub url_decode-url_encode :
    (bs : Bytes) → All (λ b. b < 256) bs → url_decode (url_encode bs) ≡ some bs
unfolding url_encode
url_decode-url_encode [] h = url_decode-nil
url_decode-url_encode (c ∷ cs) (byte, h) =
    let ih = url_decode-url_encode cs h in
    elim (Bool-cases (is_unreserved c)) [
      | inl plain ↦ rw (plain, url_decode-plain c (url_encode cs) plain, ih)
      | inr escaped ↦
          let hi : c / 16 < 16 = omega arith in
          let lo : c % 16 < 16 = omega arith in
          let read =
            read_hex-digits (hex_digit (c / 16)) (hex_digit (c % 16)) (c / 16) (c % 16)
              (hex_digit-starts (c / 16) (c % 16) hi lo) (hex_value-hex_digit (c / 16) hi)
              (hex_value-hex_digit (c % 16) lo) in
          let whole : c / 16 * 16 + c % 16 ≡ c = omega arith in
          rw (
            escaped,
            url_decode-escape (hex_digit (c / 16)) (hex_digit (c % 16)) (url_encode cs),
            read,
            ih,
            whole,
          )
    ]

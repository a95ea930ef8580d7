-- ===== src/WebSocket/Endian/Laws.antt =====
-- What the conversions do to the bytes of a number.
use splitsen.Base.{
  ℕ, ◌+◌, ◌*◌, ◌/◌, ◌^◌, ◌<◌, ◌≡◌, arith, bit_and, bit_or, bit_and_field, bit_or_high_low,
  bit_and_byte,
}
use splitsen.WebSocket.Endian.{swap16, swap64, shl64}

pub swap16-bytes : (a b : ℕ) → a < 256 → b < 256 → swap16 (a * 256 + b) ≡ b * 256 + a
unfolding swap16
swap16-bytes a b p q =
    let low : bit_and (a * 256 + b) 0x00FF ≡ b = omega (arith, bit_and_byte (a * 256 + b)) in
    let high : bit_and (a * 256 + b) 0xFF00 ≡ a * 256 =
      omega (arith, rw (one_field a b) at (bit_and_field 8 0 a b p q)) in
    rw (low, high, shifted) (omega (arith, bit_or_high_low 8 b a p))
  where
    one_field : (a b : ℕ) → (0 * 256 + a) * 2 ^ 8 + b ≡ a * 256 + b
    one_field a b = omega arith

    shifted : a * 256 / 2 ^ 8 ≡ a
    shifted = omega arith

-- The number with these eight bytes, highest first.
abbrev pub join64 : (a b c d e f g h : ℕ) → ℕ
join64 a b c d e f g h =
    ((((((a * 256 + b) * 256 + c) * 256 + d) * 256 + e) * 256 + f) * 256 + g) * 256 + h

-- The byte whose lowest bit is bit `k`, picked out by its mask.
byte_at :
    (k x q m l : ℕ)
    → m < 256
    → l < 2 ^ k
    → (q * 256 + m) * 2 ^ k + l ≡ x
    → bit_and x (255 * 2 ^ k) ≡ m * 2 ^ k
byte_at k x q m l p r e = rw e at (bit_and_field k q m l p r)

module _ (a b c d e f g h : ℕ) (pa : a < 256) (pb : b < 256) (pc : c < 256) (pd : d < 256)
    (pe : e < 256) (pf : f < 256) (pg : g < 256) (ph : h < 256) where
  abbrev whole : ℕ
  whole = join64 a b c d e f g h

  byte_a : bit_and whole 0xFF00000000000000 ≡ a * 2 ^ 56
  byte_a =
      byte_at 56 whole (0) a
        (((((((b * 256 + c) * 256 + d) * 256 + e) * 256 + f) * 256 + g) * 256 + h)) pa (omega arith)
        (omega arith)

  byte_b : bit_and whole 0x00FF000000000000 ≡ b * 2 ^ 48
  byte_b =
      byte_at 48 whole (a) b ((((((c * 256 + d) * 256 + e) * 256 + f) * 256 + g) * 256 + h)) pb
        (omega arith) (omega arith)

  byte_c : bit_and whole 0x0000FF0000000000 ≡ c * 2 ^ 40
  byte_c =
      byte_at 40 whole ((a * 256 + b)) c (((((d * 256 + e) * 256 + f) * 256 + g) * 256 + h)) pc
        (omega arith) (omega arith)

  byte_d : bit_and whole 0x000000FF00000000 ≡ d * 2 ^ 32
  byte_d =
      byte_at 32 whole (((a * 256 + b) * 256 + c)) d ((((e * 256 + f) * 256 + g) * 256 + h)) pd
        (omega arith) (omega arith)

  byte_e : bit_and whole 0x00000000FF000000 ≡ e * 2 ^ 24
  byte_e =
      byte_at 24 whole ((((a * 256 + b) * 256 + c) * 256 + d)) e (((f * 256 + g) * 256 + h)) pe
        (omega arith) (omega arith)

  byte_f : bit_and whole 0x0000000000FF0000 ≡ f * 2 ^ 16
  byte_f =
      byte_at 16 whole (((((a * 256 + b) * 256 + c) * 256 + d) * 256 + e)) f ((g * 256 + h)) pf
        (omega arith) (omega arith)

  byte_g : bit_and whole 0x000000000000FF00 ≡ g * 2 ^ 8
  byte_g =
      byte_at 8 whole ((((((a * 256 + b) * 256 + c) * 256 + d) * 256 + e) * 256 + f)) g (h) pg
        (omega arith) (omega arith)

  byte_h : bit_and whole 0x00000000000000FF ≡ h * 2 ^ 0
  byte_h =
      byte_at 0 whole (((((((a * 256 + b) * 256 + c) * 256 + d) * 256 + e) * 256 + f) * 256 + g)) h
        (0) ph (omega arith) (omega arith)

  moved_h : shl64 (h * 2 ^ 0) 56 ≡ h * 2 ^ 56
  moved_h = omega arith

  moved_g : shl64 (g * 2 ^ 8) 40 ≡ g * 2 ^ 48
  moved_g = omega arith

  moved_f : shl64 (f * 2 ^ 16) 24 ≡ f * 2 ^ 40
  moved_f = omega arith

  moved_e : shl64 (e * 2 ^ 24) 8 ≡ e * 2 ^ 32
  moved_e = omega arith

  moved_d : d * 2 ^ 32 / 2 ^ 8 ≡ d * 2 ^ 24
  moved_d = omega arith

  moved_c : c * 2 ^ 40 / 2 ^ 24 ≡ c * 2 ^ 16
  moved_c = omega arith

  moved_b : b * 2 ^ 48 / 2 ^ 40 ≡ b * 2 ^ 8
  moved_b = omega arith

  moved_a : a * 2 ^ 56 / 2 ^ 56 ≡ a * 2 ^ 0
  moved_a = omega arith

  or_g : bit_or (h * 2 ^ 56) (g * 2 ^ 48) ≡ (h * 256 + g) * 2 ^ 48
  or_g = omega (arith, bit_or_high_low 56 (h) (g * 2 ^ 48) (omega arith))

  or_f : bit_or ((h * 256 + g) * 2 ^ 48) (f * 2 ^ 40) ≡ ((h * 256 + g) * 256 + f) * 2 ^ 40
  or_f = omega (arith, bit_or_high_low 48 ((h * 256 + g)) (f * 2 ^ 40) (omega arith))

  or_e :
      bit_or (((h * 256 + g) * 256 + f) * 2 ^ 40) (e * 2 ^ 32)
      ≡ (((h * 256 + g) * 256 + f) * 256 + e) * 2 ^ 32
  or_e = omega (arith, bit_or_high_low 40 (((h * 256 + g) * 256 + f)) (e * 2 ^ 32) (omega arith))

  or_d :
      bit_or ((((h * 256 + g) * 256 + f) * 256 + e) * 2 ^ 32) (d * 2 ^ 24)
      ≡ ((((h * 256 + g) * 256 + f) * 256 + e) * 256 + d) * 2 ^ 24
  or_d =
      omega (
        arith,
        bit_or_high_low 32 ((((h * 256 + g) * 256 + f) * 256 + e)) (d * 2 ^ 24) (omega arith),
      )

  or_c :
      bit_or (((((h * 256 + g) * 256 + f) * 256 + e) * 256 + d) * 2 ^ 24) (c * 2 ^ 16)
      ≡ (((((h * 256 + g) * 256 + f) * 256 + e) * 256 + d) * 256 + c) * 2 ^ 16
  or_c = omega (
    arith,
    bit_or_high_low 24 (((((h * 256 + g) * 256 + f) * 256 + e) * 256 + d)) (c * 2 ^ 16)
        (omega arith),
  )

  or_b :
      bit_or ((((((h * 256 + g) * 256 + f) * 256 + e) * 256 + d) * 256 + c) * 2 ^ 16) (b * 2 ^ 8)
      ≡ ((((((h * 256 + g) * 256 + f) * 256 + e) * 256 + d) * 256 + c) * 256 + b) * 2 ^ 8
  or_b = omega (
    arith,
    bit_or_high_low 16 ((((((h * 256 + g) * 256 + f) * 256 + e) * 256 + d) * 256 + c)) (b * 2 ^ 8)
        (omega arith),
  )

  or_a :
      bit_or
        (((((((h * 256 + g) * 256 + f) * 256 + e) * 256 + d) * 256 + c) * 256 + b) * 2 ^ 8)
        (a * 2 ^ 0)
      ≡ (((((((h * 256 + g) * 256 + f) * 256 + e) * 256 + d) * 256 + c) * 256 + b) * 256 + a)
        * 2 ^ 0
  or_a = omega (
    arith,
    bit_or_high_low 8 (((((((h * 256 + g) * 256 + f) * 256 + e) * 256 + d) * 256 + c) * 256 + b))
        (a * 2 ^ 0) (omega arith),
  )

  pub swap64-bytes : swap64 whole ≡ join64 h g f e d c b a
  unfolding swap64
  swap64-bytes =
      rw (byte_a, byte_b, byte_c, byte_d, byte_e, byte_f, byte_g, byte_h)
        (rw (moved_h, moved_g, moved_f, moved_e, moved_d, moved_c, moved_b, moved_a)
          (rw (or_g, or_f, or_e, or_d, or_c, or_b, or_a) (omega arith)))

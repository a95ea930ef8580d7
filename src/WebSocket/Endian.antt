-- ===== src/WebSocket/Endian.antt =====
-- The byte order conversions of data_frame_parser (splice/web_socket/rfc6455_engine.hpp). Each
-- function looks at the host's byte order when it runs; here the host is an argument.
pub mod Laws
pub mod Network
use splitsen.Base.{ℕ, zero, suc, ◌+◌, ◌*◌, ◌/◌, ◌%◌, ◌^◌, List, [], ◌∷◌, Bytes, bit_and, bit_or}
use mathlib.Core.List.{reverse}

pub data Endian : Type 0 where
  little big : Endian

-- The expression of `ntoh16` and of `hton16`, stored in a uint16_t.
unfoldable pub swap16 : ℕ → ℕ
swap16 x = bit_or (bit_and x 0x00FF * 2 ^ 8) (bit_and x 0xFF00 / 2 ^ 8) % 2 ^ 16

-- A shift to the left in a uint64_t.
abbrev pub shl64 : ℕ → ℕ → ℕ
shl64 x k = x * 2 ^ k % 2 ^ 64

infixl 30 ◌|||◌
abbrev ◌|||◌ : ℕ → ℕ → ℕ
a ||| b = bit_or a b

-- The expression of `ntoh64` and of `hton64`.
unfoldable pub swap64 : ℕ → ℕ
swap64 x =
    shl64 (bit_and x 0x00000000000000FF) 56
    ||| shl64 (bit_and x 0x000000000000FF00) 40
    ||| shl64 (bit_and x 0x0000000000FF0000) 24
    ||| shl64 (bit_and x 0x00000000FF000000) 8
    ||| bit_and x 0x000000FF00000000 / 2 ^ 8
    ||| bit_and x 0x0000FF0000000000 / 2 ^ 24
    ||| bit_and x 0x00FF000000000000 / 2 ^ 40
    ||| bit_and x 0xFF00000000000000 / 2 ^ 56

unfoldable pub ntoh16 : Endian → ℕ → ℕ
unfolding swap16
ntoh16 little net16 = swap16 net16
ntoh16 big net16 = net16

unfoldable pub hton16 : Endian → ℕ → ℕ
unfolding swap16
hton16 little host16 = swap16 host16
hton16 big host16 = host16

unfoldable pub ntoh64 : Endian → ℕ → ℕ
unfolding swap64
ntoh64 little net64 = swap64 net64
ntoh64 big net64 = net64

unfoldable pub hton64 : Endian → ℕ → ℕ
unfolding swap64
hton64 little host64 = swap64 host64
hton64 big host64 = host64

-- The bytes of an integer, lowest first.
abbrev pub low_first : ℕ → ℕ → Bytes
low_first zero x = []
low_first (suc k) x = x % 256 ∷ low_first k (x / 256)

-- The `k` bytes that an integer has in the host's memory, in the order of their addresses.
abbrev pub memory : Endian → ℕ → ℕ → Bytes
memory little k x = low_first k x
memory big k x = reverse (low_first k x)

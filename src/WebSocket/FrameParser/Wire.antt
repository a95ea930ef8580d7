-- ===== src/WebSocket/FrameParser/Wire.antt =====
-- A frame on the wire, written down with no reference to the program (RFC 6455, 5.2): the first byte
-- with the final bit and the opcode, the mask bit with the shortest form of the length, the masking
-- key if there is one, and the payload.
use mathlib.Core.List.{reverse}
use splitsen.Base.{
  ℕ, ◌+◌, ◌*◌, ◌/◌, ◌%◌, Bool, true, false, [], ◌∷◌, ◌++◌, Bytes, if◌then◌else◌, ltb, length,
  bit_xor,
}
use splitsen.WebSocket.Endian.{low_first}
use splitsen.WebSocket.Frame.{
  OperationCode, continuation_frame, text_frame, binary_frame, connection_close, ping, pong,
  reserved, MaskingKey,
}
use splitsen.WebSocket.FrameParser.{key_at}

-- The opcodes of RFC 6455; 0xF stands for those it reserves.
abbrev pub code_of : OperationCode → ℕ
code_of continuation_frame = 0
code_of text_frame = 1
code_of binary_frame = 2
code_of connection_close = 8
code_of ping = 9
code_of pong = 10
code_of reserved = 15

abbrev pub bit : Bool → ℕ
bit true = 1
bit false = 0

abbrev pub first_byte : Bool → OperationCode → ℕ
first_byte fin op = bit fin * 128 + code_of op

-- The mask bit and the length `n`, in front of `rest`.
abbrev pub length_bytes : Bool → ℕ → Bytes → Bytes
length_bytes mask n rest =
    if ltb n 126
    then (bit mask * 128 + n) ∷ rest
    else if ltb n 65536
    then (bit mask * 128 + 126) ∷ n / 256 ∷ n % 256 ∷ rest
    else (bit mask * 128 + 127) ∷ (reverse (low_first 8 n) ++ rest)

abbrev pub header_bytes : Bool → OperationCode → Bool → ℕ → Bytes → Bytes
header_bytes fin op mask n rest = first_byte fin op ∷ length_bytes mask n rest

-- The bytes from position `i` of a payload, each combined with the byte of the key at its position
-- modulo 4: masking and unmasking are one operation.
abbrev pub masked : MaskingKey → ℕ → Bytes → Bytes
masked key i [] = []
masked key i (c ∷ cs) = bit_xor c (key_at key (i % 4)) ∷ masked key (i + 1) cs

-- What a server sends, and what a client sends, in front of `rest`.
abbrev pub server_frame : Bool → OperationCode → Bytes → Bytes
server_frame fin op p = header_bytes fin op false (length p) p

abbrev pub masked_part : MaskingKey → Bytes → Bytes → Bytes
masked_part key p rest =
    length_bytes true (length p)
      (key.key0 ∷ key.key1 ∷ key.key2 ∷ key.key3 ∷ (masked key 0 p ++ rest))

abbrev pub client_frame : Bool → OperationCode → MaskingKey → Bytes → Bytes → Bytes
client_frame fin op key p rest = first_byte fin op ∷ masked_part key p rest

-- ===== src/WebSocket/Frame.antt =====
-- data_frame (splice/web_socket/rfc6455_engine.hpp): a WebSocket frame, and the bytes sent for it.
-- The int8_t members that hold header bytes are the bytes' bit patterns, from 0 to 255.
pub mod Encode
use splitsen.Base.{
  ℕ, ◌+◌, ◌*◌, ◌%◌, ◌^◌, Bool, true, false, List, [], ◌∷◌, ◌++◌, Bytes, if◌then◌else◌, ltb, length,
  bit_or, codes,
}
use splitsen.WebSocket.Endian.{Endian, hton16, hton64, memory}

pub data OperationCode : Type 0 where
  continuation_frame text_frame binary_frame connection_close ping pong reserved : OperationCode

-- `lexical_cast` of an operation code; the one for reserved has no name, only its number in the enumeration.
unfoldable pub opcode_name : OperationCode → Bytes
opcode_name continuation_frame = codes "continuation_frame"
opcode_name text_frame = codes "text_frame"
opcode_name binary_frame = codes "binary_frame"
opcode_name connection_close = codes "connection_close"
opcode_name ping = codes "ping"
opcode_name pong = codes "pong"
opcode_name reserved = codes "? 6"

-- boost::array<boost::uint8_t, 4>
pub record MaskingKey : Type 0 where
  pub key0 : ℕ
  pub key1 : ℕ
  pub key2 : ℕ
  pub key3 : ℕ

pub record DataFrame : Type 0 where
  pub fin : Bool
  pub opcode : OperationCode
  pub mask : Bool
  pub fin_opcode : ℕ
  pub mask_payload_len : ℕ
  pub payload_len : ℕ
  pub extended_payload_len16 : ℕ
  pub extended_payload_len64 : ℕ
  pub masking_key : MaskingKey
  pub payload : Bytes

-- data_frame(str). The constructor does not set the masking key: it is whatever the memory holds.
unfoldable pub frame_of : MaskingKey → Bytes → DataFrame
frame_of key str = record {
  fin = true;
  opcode = text_frame;
  mask = false;
  fin_opcode = 0;
  mask_payload_len = 0;
  payload_len = 0;
  extended_payload_len16 = 0;
  extended_payload_len64 = 0;
  masking_key = key;
  payload = str;
}

-- data_frame()
unfoldable pub new_frame : MaskingKey → DataFrame
unfolding frame_of
new_frame key = frame_of key []

-- The switch of `to_buffers`: what is or-ed into the first byte.
unfoldable pub opcode_bits : OperationCode → ℕ
opcode_bits continuation_frame = 0x0
opcode_bits text_frame = 0x1
opcode_bits binary_frame = 0x2
opcode_bits connection_close = 0x8
opcode_bits ping = 0x9
opcode_bits pong = 0xA
opcode_bits reserved = 0xF

-- The first byte: `fin_opcode_ |= 0x80` if `fin_`, then the switch.
unfoldable pub set_fin_opcode : DataFrame → DataFrame
unfolding opcode_bits
set_fin_opcode f = record f {
  fin_opcode =
      bit_or (if f.fin then bit_or f.fin_opcode 0x80 else f.fin_opcode) (opcode_bits f.opcode);
}

-- The three branches on the payload's size: the length fields are set, and the buffers over the
-- frame's members are pushed behind the first byte's.
unfoldable pub push_payload : Endian → DataFrame → DataFrame × List Bytes
push_payload e f =
    let size = length f.payload in
    if ltb size 126
    then (record f { mask_payload_len = size }, (f.fin_opcode ∷ []) ∷ (size ∷ []) ∷ f.payload ∷ [])
    else if ltb size 65537
    then (
      record f { mask_payload_len = 126; extended_payload_len16 = hton16 e (size % 2 ^ 16) },
      (f.fin_opcode ∷ []) ∷ (126 ∷ []) ∷ memory e 2 (hton16 e (size % 2 ^ 16)) ∷ f.payload ∷ [],
    )
    else (
      record f { mask_payload_len = 127; extended_payload_len64 = hton64 e size },
      (f.fin_opcode ∷ []) ∷ (127 ∷ []) ∷ memory e 8 (hton64 e size) ∷ f.payload ∷ [],
    )

-- `to_buffers`: it changes the frame, and the buffers point into it.
unfoldable pub to_buffers : Endian → DataFrame → DataFrame × List Bytes
unfolding set_fin_opcode push_payload
to_buffers e f = push_payload e (set_fin_opcode f)

-- What a gathering write of buffers sends.
abbrev pub gather : List Bytes → Bytes
gather [] = []
gather (b ∷ bs) = b ++ gather bs

unfoldable pub sent : Endian → DataFrame → Bytes
unfolding to_buffers
sent e f = gather (to_buffers e f).1

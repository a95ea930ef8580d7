-- ===== src/WebSocket/FrameParser.antt =====
-- data_frame_parser (splice/web_socket/rfc6455_engine.hpp): a state machine over the bytes of a
-- frame. `state_` and the frame that `consume` is handed are one state here; the loop around it is
-- Stream. The host's byte order is an argument, for the conversions that `consume` calls.
pub mod Wire
pub mod Masking
mod Header
pub mod RoundTrip
pub mod Stuck
use splitsen.Base.{
  ℕ, ◌+◌, ◌-◌, ◌*◌, ◌/◌, ◌%◌, ◌^◌, Bool, true, false, ◌||◌, List, [], ◌∷◌, ◌++◌, Bytes,
  if◌then◌else◌, ◌==◌, length, bit_and, bit_or, bit_xor,
}
use splitsen.Stream.{is_true, indeterminate, Outcome, ret, Parsed}
use splitsen.Stream
use splitsen.WebSocket.Endian.{Endian, ntoh16, ntoh64}
use splitsen.WebSocket.Frame.{
  OperationCode, continuation_frame, text_frame, binary_frame, connection_close, ping, pong,
  reserved, MaskingKey, DataFrame,
}

pub data State : Type 0 where
  fin_opcode mask_payload_len extended_payload_len1 extended_payload_len2 : State
  extended_payload_len3 extended_payload_len4 extended_payload_len5 : State
  extended_payload_len6 extended_payload_len7 extended_payload_len8 : State
  masking_key1 masking_key2 masking_key3 masking_key4 payload : State

pub record FrameParser : Type 0 where
  pub state : State
  pub frame : DataFrame

-- The parser's constructor, with the frame at hand.
abbrev pub start : DataFrame → FrameParser
start f = record { state = fin_opcode; frame = f }

abbrev pub goto : State → DataFrame → Outcome FrameParser
goto s f = ret indeterminate (record { state = s; frame = f })

-- `(b >> offset) & ((1 << count) - 1)`. The char is taken as its byte: the sign bits that a negative
-- one brings in lie above the bits that the mask keeps, since offset + count is at most 8.
unfoldable pub get_bits : ℕ → ℕ → ℕ → ℕ
get_bits b offset count = bit_and (b / 2 ^ offset) (2 ^ count - 1)

unfoldable pub opcode_of : ℕ → OperationCode
opcode_of bits =
    if bits == 0
    then continuation_frame
    else if bits == 0x1
    then text_frame
    else if bits == 0x2
    then binary_frame
    else if bits == 0x8
    then connection_close
    else if bits == 0x9
    then ping
    else if bits == 0xA
    then pong
    else reserved

-- `case fin_opcode`
unfoldable pub consume_fin_opcode : DataFrame → ℕ → Outcome FrameParser
consume_fin_opcode f c =
    goto mask_payload_len
      (record f { fin = get_bits c 7 1 == 1; opcode = opcode_of (get_bits c 0 4) })

-- `if (frame.mask_) state_ = masking_key1; else state_ = payload;`
abbrev pub after_length : Bool → State
after_length true = masking_key1
after_length false = payload

-- `case mask_payload_len`, once the bits are read.
unfoldable pub branch_on_length : DataFrame → Outcome FrameParser
branch_on_length f =
    if f.payload_len == 0
    then ret is_true (record { state = mask_payload_len; frame = f })
    else if f.payload_len == 126 || f.payload_len == 127
    then goto extended_payload_len1 f
    else goto (after_length f.mask) f

-- `case mask_payload_len`
unfoldable pub consume_mask_payload_len : DataFrame → ℕ → Outcome FrameParser
unfolding branch_on_length
consume_mask_payload_len f c =
    branch_on_length (record f { mask = get_bits c 7 1 == 1; payload_len = get_bits c 0 7 })

-- `case extended_payload_len1`
unfoldable pub consume_len1 : DataFrame → ℕ → Outcome FrameParser
consume_len1 f c = goto extended_payload_len2 (
    if f.payload_len == 126
    then record f { extended_payload_len16 = c }
    else if f.payload_len == 127
    then record f { extended_payload_len64 = c }
    else f)

-- `extended_payload_len64_ |= temp`, with temp the byte shifted in 64 bits.
abbrev pub or_len64 : DataFrame → ℕ → ℕ → DataFrame
or_len64 f c shift = record f {
  extended_payload_len64 = bit_or f.extended_payload_len64 (c * 2 ^ shift % 2 ^ 64);
}

-- `case extended_payload_len2`: with another length the state stays as it is.
unfoldable pub consume_len2 : Endian → DataFrame → ℕ → Outcome FrameParser
consume_len2 e f c =
    if f.payload_len == 126
    then goto (after_length f.mask) (record f {
      extended_payload_len16 = ntoh16 e (bit_or f.extended_payload_len16 (c * 2 ^ 8 % 2 ^ 16));
    })
    else if f.payload_len == 127
    then goto extended_payload_len3 (or_len64 f c 8)
    else goto extended_payload_len2 f

-- `case extended_payload_len3` to `case extended_payload_len7`, which differ in the shift.
unfoldable pub consume_len : ℕ → State → DataFrame → ℕ → Outcome FrameParser
consume_len shift next f c = goto next (or_len64 f c shift)

-- `case extended_payload_len8`
unfoldable pub consume_len8 : Endian → DataFrame → ℕ → Outcome FrameParser
consume_len8 e f c =
    let g = or_len64 f c 56 in
    goto (after_length f.mask)
      (record g { extended_payload_len64 = ntoh64 e g.extended_payload_len64 })

-- `frame.masking_key_[i] = input`
unfoldable pub set_key : ℕ → DataFrame → ℕ → DataFrame
set_key i f c = record f {
  masking_key =
      if i == 0
      then record k { key0 = c }
      else if i == 1
      then record k { key1 = c }
      else if i == 2
      then record k { key2 = c }
      else record k { key3 = c };
}
  where
    k : MaskingKey
    k = f.masking_key

-- `frame.masking_key_[i]`, for an index taken modulo 4.
unfoldable pub key_at : MaskingKey → ℕ → ℕ
key_at k i = if i == 0 then k.key0 else if i == 1 then k.key1 else if i == 2 then k.key2 else k.key3

-- The size that `case payload` waits for.
unfoldable pub expected_size : DataFrame → ℕ
expected_size f =
    if f.payload_len == 127
    then f.extended_payload_len64
    else if f.payload_len == 126
    then f.extended_payload_len16
    else f.payload_len

-- `case payload`: the byte is unmasked and stored, then the size is compared.
unfoldable pub consume_payload : DataFrame → ℕ → Outcome FrameParser
unfolding expected_size
consume_payload f c =
    let byte = bit_xor c (key_at f.masking_key (length f.payload % 4)) in
    let g = record f { payload = f.payload ++ byte ∷ [] } in
    ret (if length g.payload == expected_size g then is_true else indeterminate)
      (record { state = payload; frame = g })

-- The switch of `data_frame_parser::consume`.
unfoldable pub consume_in : Endian → State → DataFrame → ℕ → Outcome FrameParser
unfolding consume_fin_opcode consume_mask_payload_len consume_len1 consume_len2 consume_len
    consume_len8 consume_payload
consume_in e fin_opcode f c = consume_fin_opcode f c
consume_in e mask_payload_len f c = consume_mask_payload_len f c
consume_in e extended_payload_len1 f c = consume_len1 f c
consume_in e extended_payload_len2 f c = consume_len2 e f c
consume_in e extended_payload_len3 f c = consume_len 16 extended_payload_len4 f c
consume_in e extended_payload_len4 f c = consume_len 24 extended_payload_len5 f c
consume_in e extended_payload_len5 f c = consume_len 32 extended_payload_len6 f c
consume_in e extended_payload_len6 f c = consume_len 40 extended_payload_len7 f c
consume_in e extended_payload_len7 f c = consume_len 48 extended_payload_len8 f c
consume_in e extended_payload_len8 f c = consume_len8 e f c
consume_in e masking_key1 f c = goto masking_key2 (set_key 0 f c)
consume_in e masking_key2 f c = goto masking_key3 (set_key 1 f c)
consume_in e masking_key3 f c = goto masking_key4 (set_key 2 f c)
consume_in e masking_key4 f c = goto payload (set_key 3 f c)
consume_in e payload f c = consume_payload f c

unfoldable pub consume : Endian → FrameParser → ℕ → Outcome FrameParser
unfolding consume_in
consume e p c = consume_in e p.state p.frame c

unfoldable pub parse_frame : Endian → FrameParser → Bytes → Parsed FrameParser
parse_frame e p bytes = Stream.parse (consume e) p bytes

-- ===== src/WebSocket/Handshake/Bounds.antt =====
-- The payload of a frame is not longer than the bytes that were read: what ws_handshake copies out of it
-- fits the buffer that the bytes were read into.
use splitsen.Base.{ℕ, ◌+◌, ◌%◌, ◌≤◌, bit_xor, [], ◌∷◌, Bytes, length, length-append, ◌≡◌, arith}
use splitsen.Stream.{Tribool, parsed}
use splitsen.Stream.Laws.{Grows, parse-Fits}
use splitsen.WebSocket.Endian.{Endian}
use splitsen.WebSocket.Frame.{MaskingKey, DataFrame, new_frame}
use splitsen.WebSocket.FrameParser.{
  State, payload, FrameParser, start, consume_in, consume, parse_frame, set_key, key_at,
}

abbrev payload_length : FrameParser → ℕ
payload_length p = length p.frame.payload

-- The byte that `case payload` appends.
byte_of : DataFrame → ℕ → ℕ
byte_of f c = bit_xor c (key_at f.masking_key (length f.payload % 4))

consume_in-Grows :
    (e : Endian) (s : State) (f : DataFrame) (c : ℕ)
    → Grows payload_length (consume e) (length f.payload + 1) (consume_in e s f c)
unfolding consume_in set_key byte_of
consume_in-Grows e payload f c = ground (arith, length-append f.payload (byte_of f c ∷ []))
consume_in-Grows e s f c = ground arith

consume-Grows :
    (e : Endian) (p : FrameParser) (c : ℕ)
    → Grows payload_length (consume e) (payload_length p + 1) (consume e p c)
unfolding consume
consume-Grows e p c = consume_in-Grows e p.state p.frame c

-- From a fresh parser and frame, whatever the answer: the payload read so far and the bytes left are
-- together no longer than the bytes that were read.
pub parse_frame-Fits :
    (e : Endian) (key : MaskingKey) (bytes : Bytes) (t : Tribool) (p : FrameParser) (rest : Bytes)
    → parse_frame e (start (new_frame key)) bytes ≡ parsed t p rest
    → length p.frame.payload + length rest ≤ length bytes
unfolding parse_frame new_frame
parse_frame-Fits e key bytes t p rest h =
    let all =
      parse-Fits payload_length (consume e) (consume-Grows e) (start (new_frame key)) bytes in
    let fits = rw h at all in omega (arith, fits)

-- ===== src/WebSocket/FrameParser/RoundTrip.antt =====
-- The parser on whole frames, as a client and as a server sends them.
use splitsen.Base.{
  ℕ, ◌^◌, ◌<◌, ◌≡◌, ◌≢◌, refl, ◌∙◌, Bool, true, false, [], ◌∷◌, ◌++◌, Bytes, arith, length,
}
use splitsen.Stream.{is_true, parsed}
use splitsen.Stream
use splitsen.WebSocket.Endian.{little}
use splitsen.WebSocket.Frame.{OperationCode, DataFrame, MaskingKey, new_frame, sent}
use splitsen.WebSocket.Frame.Encode.{sent-server_frame}
use splitsen.WebSocket.FrameParser.{
  mask_payload_len, masking_key1, payload, start, set_key, consume, expected_size, parse_frame,
}
use splitsen.WebSocket.FrameParser.Header.{run, with_length, parse_length, run_first, run_empty}
use splitsen.WebSocket.FrameParser.Masking.{
  IsZeroKey, masked-zero, masked-masked, length-masked, parse_payload,
}
use splitsen.WebSocket.FrameParser.Wire.{
  masked, masked_part, client_frame, server_frame, header_bytes,
}

header_bytes-append :
    (fin : Bool) (op : OperationCode) (n : ℕ) (p rest : Bytes)
    → header_bytes fin op false n p ++ rest ≡ header_bytes fin op false n (p ++ rest)
header_bytes-append fin op n p rest = ground arith

-- The frame that a reader gets: the parts of the message, in the rest the traces of the header.
unfoldable pub received :
    MaskingKey → Bool → OperationCode → Bool → MaskingKey → ℕ → Bytes → DataFrame
received k0 fin op mask key n p = record f {
  fin = fin;
  opcode = op;
  mask = mask;
  masking_key = key;
  payload = p;
}
  where
    f : DataFrame
    f = with_length (new_frame k0) n

run_key :
    (f : DataFrame) (key : MaskingKey) (rest : Bytes)
    → run masking_key1 f (key.key0 ∷ key.key1 ∷ key.key2 ∷ key.key3 ∷ rest)
      ≡ run payload (record f { masking_key = key }) rest
unfolding consume set_key Stream.parse
run_key f key rest = refl

-- A masked frame behind its first byte, read into a frame that has kept what the first byte said.
pub parse_masked :
    (fin : Bool) (op : OperationCode) (key k0 : MaskingKey) (p rest : Bytes)
    → p ≢ []
    → length p < 2 ^ 64
    → run mask_payload_len
        (record (new_frame k0) { fin = fin; opcode = op })
        (masked_part key p rest)
      ≡ parsed is_true
          (record { state = payload; frame = received k0 fin op true key (length p) p })
          rest
unfolding received new_frame with_length expected_size
parse_masked fin op key k0 [] rest ne big = absurd (ne refl)
parse_masked fin op key k0 (c ∷ cs) rest ne big =
    parse_length (record (new_frame k0) { fin = fin; opcode = op }) true (length (c ∷ cs)) _
      (omega arith) big
    ∙ run_key _ key _
    ∙ parse_payload little _ _ _ rest (ground (arith, length-masked key 1 cs))
    ∙ rw (masked-masked key 0 (c ∷ cs))

-- A masked frame with a payload, as RFC 6455 has clients send it, is read from a fresh parser into a
-- fresh frame: the answer is true at its last byte, what follows is left, and the frame has the
-- sender's final bit, opcode, key and payload, unmasked, whatever the frame's key held before.
pub parse-client_frame :
    (fin : Bool) (op : OperationCode) (key k0 : MaskingKey) (p rest : Bytes)
    → p ≢ []
    → length p < 2 ^ 64
    → parse_frame little (start (new_frame k0)) (client_frame fin op key p rest)
      ≡ parsed is_true
          (record { state = payload; frame = received k0 fin op true key (length p) p })
          rest
unfolding parse_frame
parse-client_frame fin op key k0 p rest ne big =
    run_first (new_frame k0) fin op _ ∙ parse_masked fin op key k0 p rest ne big

-- A frame without a mask, as a server sends it, is read likewise, but the payload comes out combined
-- with the key that the fresh frame's memory held: the parser unmasks whether the mask bit is set
-- or not.
pub parse-server_frame :
    (fin : Bool) (op : OperationCode) (k0 : MaskingKey) (p rest : Bytes)
    → p ≢ []
    → length p < 2 ^ 64
    → parse_frame little (start (new_frame k0)) (server_frame fin op p ++ rest)
      ≡ parsed is_true
          (record {
            state = payload;
            frame = received k0 fin op false k0 (length p) (masked k0 0 p);
          })
          rest
unfolding parse_frame received new_frame with_length expected_size
parse-server_frame fin op k0 [] rest ne big = absurd (ne refl)
parse-server_frame fin op k0 (c ∷ cs) rest ne big =
    rw (header_bytes-append fin op (length (c ∷ cs)) (c ∷ cs) rest) (
      run_first (new_frame k0) fin op _
      ∙ parse_length (record (new_frame k0) { fin = fin; opcode = op }) false (length (c ∷ cs)) _
          (omega arith) big
      ∙ parse_payload little c cs _ rest (ground arith))

-- Every frame that this program builds and sends, but those of no bytes and of just 65536, is read
-- back by its own parser: final bit, opcode and payload, if the reader's memory held a key of zeros.
pub parse-sent :
    (f : DataFrame) (k0 : MaskingKey) (rest : Bytes)
    → f.fin_opcode ≡ 0
    → f.payload ≢ []
    → length f.payload ≢ 65536
    → length f.payload < 2 ^ 64
    → IsZeroKey k0
    → parse_frame little (start (new_frame k0)) (sent little f ++ rest)
      ≡ parsed is_true
          (record {
            state = payload;
            frame = received k0 f.fin f.opcode false k0 (length f.payload) f.payload;
          })
          rest
parse-sent f k0 rest z ne other big zeros = rw (sent-server_frame little f z other big) (
    parse-server_frame f.fin f.opcode k0 f.payload rest ne big
    ∙ rw (masked-zero k0 0 f.payload zeros))

-- A masked frame with no payload ends the parse at its second byte: the four bytes of its key are
-- left in front of the next frame.
pub parse_empty :
    (fin : Bool) (op : OperationCode) (key k0 : MaskingKey) (rest : Bytes)
    → parse_frame little (start (new_frame k0)) (client_frame fin op key [] rest)
      ≡ parsed is_true
          (record {
            state = mask_payload_len;
            frame = record (new_frame k0) { fin = fin; opcode = op; mask = true; payload_len = 0 };
          })
          (key.key0 ∷ key.key1 ∷ key.key2 ∷ key.key3 ∷ rest)
unfolding parse_frame
parse_empty fin op key k0 rest =
    run_first (new_frame k0) fin op _
    ∙ run_empty (record (new_frame k0) { fin = fin; opcode = op }) _

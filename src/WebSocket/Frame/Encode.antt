-- ===== src/WebSocket/Frame/Encode.antt =====
-- What `to_buffers` sends against the wire format of RFC 6455.
use native.Mathlib.Decide.{dec_lt}
use splitsen.Base.{
  ◌%◌, ◌^◌, ◌<◌, ◌≡◌, ◌≢◌, refl, Bool, true, false, ◌∷◌, arith, append-nil, length, lt→ltb, ge→ltb,
  if◌then◌else◌, bit_or,
}
use splitsen.WebSocket.Endian.{Endian}
use splitsen.WebSocket.Endian.Network.{memory-hton16, memory-hton64}
use splitsen.WebSocket.Frame.{OperationCode, continuation_frame, DataFrame, opcode_bits, sent}
use splitsen.WebSocket.FrameParser.Wire.{first_byte, server_frame}

fin_opcode_bits :
    (fin : Bool) (op : OperationCode)
    → bit_or (if fin then bit_or 0 0x80 else 0) (opcode_bits op) ≡ first_byte fin op
unfolding opcode_bits
fin_opcode_bits true continuation_frame = refl
fin_opcode_bits true _ = refl
fin_opcode_bits false continuation_frame = refl
fin_opcode_bits false _ = refl

-- A frame whose first byte has not been built yet is sent as RFC 6455 lays it out, on either kind of
-- host: with the final bit, the opcode and the shortest form of the length, unless its payload is
-- just 65536 bytes long.
pub sent-server_frame :
    (e : Endian) (f : DataFrame)
    → f.fin_opcode ≡ 0
    → length f.payload ≢ 65536
    → length f.payload < 2 ^ 64
    → sent e f ≡ server_frame f.fin f.opcode f.payload
unfolding sent
sent-server_frame e f z ne big = elim (dec_lt (length f.payload) 126) [
  | yes short ↦
      rw (lt→ltb (length f.payload) 126 short, z, fin_opcode_bits f.fin f.opcode, append-nil)
        (ground arith)
  | no long ↦ elim (dec_lt (length f.payload) 65536) [
    | yes mid ↦
        let whole : length f.payload % 2 ^ 16 ≡ length f.payload = omega arith in
        rw (
          ge→ltb (length f.payload) 126 (omega arith),
          lt→ltb (length f.payload) 65536 mid,
          lt→ltb (length f.payload) 65537 (omega arith),
          z,
          fin_opcode_bits f.fin f.opcode,
          append-nil,
          whole,
          memory-hton16 e (length f.payload) mid,
        )
    | no wide ↦ rw (
      ge→ltb (length f.payload) 126 (omega arith),
      ge→ltb (length f.payload) 65536 (omega arith),
      ge→ltb (length f.payload) 65537 (omega arith),
      z,
      fin_opcode_bits f.fin f.opcode,
      append-nil,
      memory-hton64 e (length f.payload) big,
    )
  ]
]

-- A payload of 65536 bytes takes the form with two bytes of length, which cannot hold its size: the
-- frame is sent with a length of 0.
pub sent_65536 :
    (e : Endian) (f : DataFrame)
    → f.fin_opcode ≡ 0
    → length f.payload ≡ 65536
    → sent e f ≡ first_byte f.fin f.opcode ∷ 126 ∷ 0 ∷ 0 ∷ f.payload
unfolding sent
sent_65536 e f z size =
    let zero_left : 65536 % 2 ^ 16 ≡ 0 = omega arith in
    rw (size, z, fin_opcode_bits f.fin f.opcode, append-nil, memory-hton16 e 0 (omega arith))

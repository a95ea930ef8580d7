-- ===== src/WebSocket/FrameParser/Stuck.antt =====
-- States that no input leads out of: the parser answers `indeterminate` for ever.
use splitsen.Base.{ℕ, ◌≤◌, ◌≡◌, refl, ◌∙◌, ◌∷◌, ◌++◌, Bytes, arith, length, false, inl}
use splitsen.Stream.{Tribool, indeterminate, Fault}
use splitsen.Stream.Laws.{Keeps, Ends, parse-Ends}
use splitsen.WebSocket.Endian.{Endian, little}
use splitsen.WebSocket.Frame.{DataFrame, MaskingKey, new_frame, sent}
use splitsen.WebSocket.Frame.Encode.{sent_65536}
use splitsen.WebSocket.FrameParser.{
  State, FrameParser, fin_opcode, mask_payload_len, payload, start, set_key, consume, consume_in,
  expected_size, parse_frame,
}
use splitsen.WebSocket.FrameParser.Header.{run, run_first, run_escape, run_mid}
use splitsen.WebSocket.FrameParser.Masking.{grown}
use splitsen.WebSocket.FrameParser.Wire.{first_byte}

-- No byte read so far has been answered with true or false, and the state is such that none will be.
abbrev pub Waits : (FrameParser → Type 0) → Tribool → FrameParser → Type 0
Waits P t p = (t ≡ indeterminate) × P p

abbrev pub NoFault : Fault → Type 0
NoFault f = ⊥

-- Past the first two bytes with a payload length of 0, as a frame made anew has it.
abbrev pub IsHeadless : State → DataFrame → Type 0
IsHeadless fin_opcode f = ⊥
IsHeadless mask_payload_len f = ⊥
IsHeadless _ f = f.payload_len ≡ 0

consume_in-IsHeadless :
    (e : Endian) (s : State) (f : DataFrame) (c : ℕ)
    → IsHeadless s f
    → Keeps NoFault (Waits (λ p. IsHeadless p.state p.frame)) (consume_in e s f c)
unfolding consume_in expected_size set_key
consume_in-IsHeadless e fin_opcode f c h = absurd h
consume_in-IsHeadless e mask_payload_len f c h = absurd h
consume_in-IsHeadless e payload f c h = ground (arith, grown f c)
consume_in-IsHeadless e _ f c h = ground arith

-- A parser past a frame's first two bytes whose frame has the payload length 0 answers nothing, on
-- any input, and stays so.
pub parse-IsHeadless :
    (e : Endian) (p : FrameParser) (bytes : Bytes)
    → IsHeadless p.state p.frame
    → Ends NoFault (Waits (λ q. IsHeadless q.state q.frame)) (parse_frame e p bytes)
unfolding parse_frame
parse-IsHeadless e p bytes h =
    parse-Ends (consume e) NoFault (Waits (λ q. IsHeadless q.state q.frame))
      (λ q c w. unfold consume in consume_in-IsHeadless e q.state q.frame c w.1) p bytes (refl, h)

-- In the payload state with no byte of the expected size left to come.
abbrev pub IsPast : FrameParser → Type 0
IsPast p = (p.state ≡ payload) × (expected_size p.frame ≤ length p.frame.payload)

consume_in-IsPast :
    (e : Endian) (f : DataFrame) (c : ℕ)
    → expected_size f ≤ length f.payload
    → Keeps NoFault (Waits IsPast) (consume_in e payload f c)
unfolding consume_in expected_size
consume_in-IsPast e f c h = ground (arith, grown f c)

consume-IsPast :
    (e : Endian) (p : FrameParser) (c : ℕ) → IsPast p → Keeps NoFault (Waits IsPast) (consume e p c)
unfolding consume
consume-IsPast e p c (s, h) = rw s (consume_in-IsPast e p.frame c h)

pub parse-IsPast :
    (e : Endian) (p : FrameParser) (bytes : Bytes)
    → IsPast p
    → Ends NoFault (Waits IsPast) (parse_frame e p bytes)
unfolding parse_frame
parse-IsPast e p bytes h =
    parse-Ends (consume e) NoFault (Waits IsPast) (λ q c w. consume-IsPast e q c w.1) p bytes
      (refl, h)

-- The frame that this program sends for a payload of 65536 bytes is never done with by its own
-- parser, whatever is read behind it.
pub parse-sent_65536 :
    (f : DataFrame) (k0 : MaskingKey) (rest : Bytes)
    → f.fin_opcode ≡ 0
    → length f.payload ≡ 65536
    → Ends NoFault
        (Waits IsPast)
        (parse_frame little (start (new_frame k0)) (sent little f ++ rest))
unfolding parse_frame new_frame expected_size
parse-sent_65536 f k0 rest z size =
    let open_frame = record (new_frame k0) { fin = f.fin; opcode = f.opcode } in
    let more = f.payload ++ rest in
    let mid = record open_frame { mask = false; payload_len = 126; extended_payload_len16 = 0 } in
    let header : run fin_opcode (new_frame k0) (first_byte f.fin f.opcode ∷ 126 ∷ 0 ∷ 0 ∷ more)
        ≡ run payload mid more =
      run_first (new_frame k0) f.fin f.opcode (126 ∷ 0 ∷ 0 ∷ more)
      ∙ run_escape open_frame false 126 (0 ∷ 0 ∷ more) (inl refl)
      ∙ run_mid open_frame false 0 0 more (omega arith) (omega arith) in
    rw (sent_65536 little f z size, header)
      (parse-IsPast little (record { state = payload; frame = mid }) more
        (refl, past mid refl refl))
  where
    past :
        (g : DataFrame)
        → g.payload_len ≡ 126
        → g.extended_payload_len16 ≡ 0
        → expected_size g ≤ length g.payload
    past g l x = ground arith

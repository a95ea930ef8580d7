-- ===== src/WebSocket/Session/Cuts.antt =====
-- A session whose peer's frames do not arrive whole. The parser is kept from one read to the next,
-- the frame that it fills is not: a frame that is cut behind its second byte silences the session.
use splitsen.Base.{
  ℕ, ◌^◌, ◌<◌, ◌≡◌, ◌≢◌, refl, sym, ◌∙◌, ap, Bool, true, List, [], ◌∷◌, ◌++◌, Bytes, none, some,
  arith, length, ◌==◌,
}
use splitsen.Stream.{
  Tribool, is_true, is_false, indeterminate, Fault, Parsed, parsed, crashed, continue,
}
use splitsen.Stream
use splitsen.Stream.Laws.{Keeps, Ends, parse-Ends, resume-Ends, parse-append}
use splitsen.WebSocket.Endian.{Endian, little}
use splitsen.WebSocket.Frame.{OperationCode, text_frame, MaskingKey, DataFrame, new_frame}
use splitsen.WebSocket.FrameParser.{
  State, FrameParser, fin_opcode, mask_payload_len, payload, start, consume, consume_in, get_bits,
  opcode_of, parse_frame,
}
use splitsen.WebSocket.FrameParser.RoundTrip.{received, parse_masked, parse-client_frame}
use splitsen.WebSocket.FrameParser.Stuck.{Waits, NoFault, IsHeadless, parse-IsHeadless}
use splitsen.WebSocket.FrameParser.Wire.{first_byte, masked_part, client_frame}
use splitsen.WebSocket.Session.{
  Session, ReadEvent, arrived, read_with, on_parsed, dispatch, step, run,
}
use splitsen.WebSocket.Session.Delivery.{IsListening}

-- Behind a frame's second byte.
abbrev pub IsBehind : State → Type 0
IsBehind fin_opcode = ⊥
IsBehind mask_payload_len = ⊥
IsBehind _ = Unit

-- The outstanding read continues a frame behind its second byte.
abbrev pub IsCut : Session → Type 0
IsCut w = (s : State) × (w.pending ≡ some s) × IsBehind s

new_frame-IsHeadless : (s : State) (k : MaskingKey) → IsBehind s → IsHeadless s (new_frame k)
unfolding new_frame
new_frame-IsHeadless fin_opcode k h = h
new_frame-IsHeadless mask_payload_len k h = h
new_frame-IsHeadless _ k h = refl

IsHeadless-IsBehind : (s : State) (f : DataFrame) → IsHeadless s f → IsBehind s
IsHeadless-IsBehind fin_opcode f h = h
IsHeadless-IsBehind mask_payload_len f h = h
IsHeadless-IsBehind _ f h = tt

on_parsed-Waits :
    (r : Parsed FrameParser) (w : Session)
    → Ends NoFault (Waits (λ p. IsHeadless p.state p.frame)) r
    → (s : State) × (on_parsed r w ≡ read_with s w) × IsBehind s
unfolding on_parsed
on_parsed-Waits (parsed indeterminate p rest) w h =
    (p.state, refl, IsHeadless-IsBehind p.state p.frame h.1)
on_parsed-Waits (parsed is_true p rest) w h = absurd (ground arith)
on_parsed-Waits (parsed is_false p rest) w h = absurd (ground arith)
on_parsed-Waits (crashed f) w h = absurd h

step-IsCut :
    (e : Endian) (k : MaskingKey) (bytes : Bytes) (w : Session)
    → IsCut w
    → (s : State) × (step e (arrived k bytes) w ≡ read_with s w) × IsBehind s
unfolding dispatch
step-IsCut e k bytes w (s, pending, behind) = rw pending (
    on_parsed-Waits (parse_frame e (record { state = s; frame = new_frame k }) bytes)
      (record w { pending = none })
      (parse-IsHeadless e (record { state = s; frame = new_frame k }) bytes
        (new_frame-IsHeadless s k behind)))

abbrev pub arrivals : List (MaskingKey × Bytes) → List ReadEvent
arrivals [] = []
arrivals ((k, bytes) ∷ rs) = arrived k bytes ∷ arrivals rs

-- A session that reads on behind a frame's second byte does nothing any more but read, whatever
-- bytes come and however they are cut: no message is delivered, no error reported, no socket closed.
pub run-IsCut :
    (e : Endian) (rs : List (MaskingKey × Bytes)) (w : Session)
    → IsCut w
    → (s : State) × (run e (arrivals rs) w ≡ read_with s w) × IsBehind s
unfolding run
run-IsCut e [] w (s, p, b) = (s, (λ i. record w { pending = p i }), b)
run-IsCut e ((k, bytes) ∷ rs) w cut =
    let (s, stepped, b) = step-IsCut e k bytes w cut in
    let (t, ran, c) = run-IsCut e rs (read_with s w) (s, refl, b) in
    (t, ap (run e (arrivals rs)) stepped ∙ ran, c)

-- What holds of the state that the parser of a frame is left in behind the second byte.
abbrev Behind : Tribool → FrameParser → Type 0
Behind indeterminate p = IsBehind p.state
Behind _ p = Unit

consume_in-IsBehind :
    (e : Endian) (s : State) (f : DataFrame) (c : ℕ)
    → IsBehind s
    → Keeps NoFault Behind (consume_in e s f c)
unfolding consume_in
consume_in-IsBehind e fin_opcode f c h = absurd h
consume_in-IsBehind e mask_payload_len f c h = absurd h
consume_in-IsBehind e _ f c h = ground arith

second_byte :
    (e : Endian) (f : DataFrame) (c : ℕ) → Keeps NoFault Behind (consume_in e mask_payload_len f c)
unfolding consume_in
second_byte e f c = ground arith

parse-IsBehind :
    (e : Endian) (f : DataFrame) (a b : ℕ) (zs : Bytes)
    → Ends NoFault Behind (parse_frame e (start f) (a ∷ b ∷ zs))
unfolding parse_frame Stream.parse consume
parse-IsBehind e f a b zs =
    let g = record f { fin = get_bits a 7 1 == 1; opcode = opcode_of (get_bits a 0 4) } in
    resume-Ends (consume e) NoFault Behind (consume_in e mask_payload_len g b) zs
      (λ s'. Stream.parse (consume e) s' zs) (second_byte e g b)
      (λ s' h.
        parse-Ends (consume e) NoFault Behind (λ p c i. consume_in-IsBehind e p.state p.frame c i)
          s' zs h)

append-ne : (xs ys : Bytes) → ys ≢ [] → xs ++ ys ≢ []
append-ne [] ys h e = h e
append-ne (x ∷ xs) ys h e = cc

rest_of : Parsed FrameParser → Bytes
rest_of (parsed t p rest) = rest
rest_of (crashed f) = []

on_parsed-IsCut :
    (r : Parsed FrameParser) (w : Session) (ys : Bytes) (q : FrameParser)
    → Ends NoFault Behind r
    → ys ≢ []
    → continue (consume little) r ys ≡ parsed is_true q []
    → (s : State) × (on_parsed r w ≡ read_with s w) × IsBehind s
unfolding on_parsed continue rest_of
on_parsed-IsCut (parsed indeterminate p rest) w ys q h ne e = (p.state, refl, h)
on_parsed-IsCut (parsed is_true p rest) w ys q h ne e = absurd (append-ne rest ys ne (ap rest_of e))
on_parsed-IsCut (parsed is_false p rest) w ys q h ne e = cc
on_parsed-IsCut (crashed f) w ys q h ne e = absurd h

-- With its frame kept, the parser would have finished the frame with the second part.
continue_cut :
    (fin : Bool) (op : OperationCode) (key k0 : MaskingKey) (p : Bytes) (a b : ℕ) (zs ys : Bytes)
    → p ≢ []
    → length p < 2 ^ 64
    → a ∷ b ∷ (zs ++ ys) ≡ client_frame fin op key p []
    → (q : FrameParser) × (continue
          (consume little)
          (parse_frame little (start (new_frame k0)) (a ∷ b ∷ zs))
          ys
        ≡ parsed is_true q [])
unfolding parse_frame
continue_cut fin op key k0 p a b zs ys ne big e = (
  record { state = payload; frame = received k0 fin op true key (length p) p },
  sym (parse-append (consume little) (start (new_frame k0)) (a ∷ b ∷ zs) ys)
      ∙ ap (Stream.parse (consume little) (start (new_frame k0))) e
      ∙ parse-client_frame fin op key k0 p [] ne big,
)

step_cut :
    (fin : Bool) (op : OperationCode) (key k0 : MaskingKey) (p : Bytes) (a b : ℕ) (zs ys : Bytes)
    (w : Session)
    → p ≢ []
    → length p < 2 ^ 64
    → ys ≢ []
    → a ∷ b ∷ (zs ++ ys) ≡ client_frame fin op key p []
    → IsListening w
    → (s : State) × (step little (arrived k0 (a ∷ b ∷ zs)) w ≡ read_with s w) × IsBehind s
unfolding dispatch
step_cut fin op key k0 p a b zs ys w ne big more e listening =
    let (q, whole) = continue_cut fin op key k0 p a b zs ys ne big e in
    rw listening (
      on_parsed-IsCut (parse_frame little (start (new_frame k0)) (a ∷ b ∷ zs))
        (record w { pending = none }) ys q (parse-IsBehind little (new_frame k0) a b zs) more whole)

-- A masked frame is read in two parts, cut anywhere behind its second byte: whatever is read after
-- the first part, the second one or anything else, in whatever reads, the session only asks for
-- more. It delivers no message ever again, reports no error and closes no socket.
pub run_cut :
    (fin : Bool) (op : OperationCode) (key k0 : MaskingKey) (p : Bytes) (a b : ℕ) (zs ys : Bytes)
    (rs : List (MaskingKey × Bytes)) (w : Session)
    → p ≢ []
    → length p < 2 ^ 64
    → ys ≢ []
    → a ∷ b ∷ (zs ++ ys) ≡ client_frame fin op key p []
    → IsListening w
    → (s : State) × (run little (arrived k0 (a ∷ b ∷ zs) ∷ arrivals rs) w ≡ read_with s w)
      × IsBehind s
unfolding run
run_cut fin op key k0 p a b zs ys rs w ne big more e listening =
    let (s, stepped, behind) = step_cut fin op key k0 p a b zs ys w ne big more e listening in
    let (t, ran, c) = run-IsCut little rs (read_with s w) (s, refl, behind) in
    (t, ap (run little (arrivals rs)) stepped ∙ ran, c)

step_first_byte :
    (c : ℕ) (k0 : MaskingKey) (w : Session)
    → IsListening w
    → step little (arrived k0 (c ∷ [])) w ≡ read_with mask_payload_len w
unfolding dispatch parse_frame Stream.parse consume
step_first_byte c k0 w listening = rw listening

step_rest :
    (key k1 : MaskingKey) (p behind : Bytes) (w : Session)
    → p ≢ []
    → length p < 2 ^ 64
    → w.pending ≡ some mask_payload_len
    → step little (arrived k1 (masked_part key p behind)) w
      ≡ record w { pending = some fin_opcode; delivered = w.delivered ++ p ∷ [] }
unfolding dispatch received parse_frame new_frame
step_rest key k1 p behind w ne big pending = rw pending (
    ap (λ r. on_parsed r (record w { pending = none }))
      (parse_masked true text_frame key k1 p behind ne big))

-- A masked frame that is cut behind its first byte is delivered as a final text whatever it is, a
-- ping, a close or a part of a longer message: the read that brings the rest has lost the opcode.
pub run-first_byte :
    (fin : Bool) (op : OperationCode) (key k0 k1 : MaskingKey) (p behind : Bytes) (w : Session)
    → p ≢ []
    → length p < 2 ^ 64
    → IsListening w
    → run little
        (arrived k0 (first_byte fin op ∷ []) ∷ arrived k1 (masked_part key p behind) ∷ [])
        w
      ≡ record w { pending = some fin_opcode; delivered = w.delivered ++ p ∷ [] }
unfolding run
run-first_byte fin op key k0 k1 p behind w ne big listening =
    ap (step little (arrived k1 (masked_part key p behind)))
      (step_first_byte (first_byte fin op) k0 w listening)
    ∙ step_rest key k1 p behind (read_with mask_payload_len w) ne big refl

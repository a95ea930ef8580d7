-- ===== src/WebSocket/Session/Delivery.antt =====
-- A session whose peer's frames arrive one to a read.
use splitsen.Base.{
  ◌^◌, ◌<◌, ◌≡◌, ◌≢◌, refl, sym, ◌∙◌, ap, Bool, true, List, [], ◌∷◌, ◌++◌, Bytes, none, some, arith,
  length, append-nil, append_assoc, ◌⊎◌,
}
use splitsen.WebSocket.Endian.{little}
use splitsen.WebSocket.Frame.{OperationCode, text_frame, ping, pong, MaskingKey, DataFrame}
use splitsen.WebSocket.FrameParser.{fin_opcode}
use splitsen.WebSocket.FrameParser.RoundTrip.{received, parse-client_frame}
use splitsen.WebSocket.FrameParser.Wire.{client_frame}
use splitsen.WebSocket.Session.{Session, ReadEvent, arrived, fail, on_opcode, dispatch, step, run}

-- What a client sends as one frame.
pub record Message : Type 0 where
  pub fin : Bool
  pub opcode : OperationCode
  pub key : MaskingKey
  pub text : Bytes

abbrev pub IsSendable : Message → Type 0
IsSendable m = (m.text ≢ []) × (length m.text < 2 ^ 64)

-- The session reads from the start of a frame.
abbrev pub IsListening : Session → Type 0
IsListening w = w.pending ≡ some fin_opcode

-- What one frame does to a listening session.
abbrev pub after_frame : Message → Session → Session
after_frame m w = elim m.opcode [
  | text_frame ↦ record w { pending = some fin_opcode; delivered = w.delivered ++ m.text ∷ [] }
  | ping ↦ record w { pending = some fin_opcode }
  | pong ↦ record w { pending = some fin_opcode }
  | _ ↦ fail (record w { pending = none })
]

on_opcode-after_frame :
    (op : OperationCode) (fin : Bool) (key : MaskingKey) (f : DataFrame) (w : Session)
    → on_opcode op f (record w { pending = none })
      ≡ after_frame (record { fin = fin; opcode = op; key = key; text = f.payload }) w
unfolding on_opcode
on_opcode-after_frame text_frame fin key f w = refl
on_opcode-after_frame _ fin key f w = refl

-- One read that begins with the whole of a frame: only the frame counts, and what is behind it in
-- the read is lost. A text is delivered, a ping or a pong is passed over (and not answered), and
-- after each the next frame is read; any other opcode is an error, which ends the session.
pub step-frame :
    (m : Message) (k0 : MaskingKey) (behind : Bytes) (w : Session)
    → IsSendable m
    → IsListening w
    → step little (arrived k0 (client_frame m.fin m.opcode m.key m.text behind)) w ≡ after_frame m w
unfolding dispatch received
step-frame m k0 behind w (ne, big) listening =
    rw (listening, dispatch, parse-client_frame m.fin m.opcode m.key k0 m.text behind ne big)
      (on_opcode-after_frame m.opcode m.fin m.key
        (received k0 m.fin m.opcode true m.key (length m.text) m.text) w)

-- The reads of a list of messages, one each, with what the memory held at each.
abbrev pub reads : List (Message × MaskingKey) → List ReadEvent
reads [] = []
reads ((m, k0) ∷ ms) = arrived k0 (client_frame m.fin m.opcode m.key m.text []) ∷ reads ms

abbrev pub heard : OperationCode → Bytes → List Bytes
heard text_frame text = text ∷ []
heard _ text = []

-- The texts among the messages.
abbrev pub texts : List (Message × MaskingKey) → List Bytes
texts [] = []
texts ((m, k0) ∷ ms) = heard m.opcode m.text ++ texts ms

abbrev pub IsKept : OperationCode → Type 0
IsKept op = (op ≡ text_frame) ⊎ (op ≡ ping) ⊎ (op ≡ pong)

abbrev pub AreKept : List (Message × MaskingKey) → Type 0
AreKept [] = Unit
AreKept ((m, k0) ∷ ms) = IsSendable m × IsKept m.opcode × AreKept ms

pub after_frame-IsKept :
    (op : OperationCode) (fin : Bool) (key : MaskingKey) (text : Bytes) (w : Session)
    → IsKept op
    → after_frame (record { fin = fin; opcode = op; key = key; text = text }) w
      ≡ record w { pending = some fin_opcode; delivered = w.delivered ++ heard op text }
after_frame-IsKept text_frame fin key text w h = refl
after_frame-IsKept ping fin key text w h = rw append-nil
after_frame-IsKept pong fin key text w h = rw append-nil
after_frame-IsKept _ fin key text w h = absurd (ground arith)

-- Text, ping and pong frames that arrive one to a read, however many: `on_read` is called with the
-- texts, all of them, in order and unmasked, nothing is written, and the session listens on.
pub run-reads :
    (ms : List (Message × MaskingKey)) (w : Session)
    → AreKept ms
    → IsListening w
    → run little (reads ms) w ≡ record w { delivered = w.delivered ++ texts ms }
unfolding run
run-reads [] w h l = rw append-nil
run-reads ((m, k0) ∷ ms) w (s, kept, h) l =
    ap (run little (reads ms)) (step-frame m k0 [] w s l)
    ∙ ap (run little (reads ms)) (after_frame-IsKept m.opcode m.fin m.key m.text w kept)
    ∙ run-reads ms
        (record w { pending = some fin_opcode; delivered = w.delivered ++ heard m.opcode m.text }) h
        refl
    ∙ (λ i. record w {
      pending = sym l i;
      delivered = append_assoc w.delivered (heard m.opcode m.text) (texts ms) i;
    })

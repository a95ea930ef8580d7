-- ===== src/Examples/JsonTalk/Laws.antt =====
-- A talk of text, ping and pong frames that arrive one to a read.
use splitsen.Base.{
  ℕ, List, [], ◌∷◌, ◌++◌, append-nil, append_assoc, Bytes, some, drop, drop-append, length, ◌≡◌,
  refl, sym, ap, ◌∙◌, arith,
}
use splitsen.WebSocket.Endian.{little}
use splitsen.WebSocket.Frame.{OperationCode, text_frame, ping, pong, MaskingKey}
use splitsen.WebSocket.FrameParser.{fin_opcode}
use splitsen.WebSocket.FrameParser.Wire.{client_frame}
use splitsen.WebSocket.Session.{Session, ReadEvent, arrived}
use splitsen.WebSocket.Session.Delivery.{
  Message, IsSendable, IsListening, IsKept, heard, step-frame, after_frame-IsKept,
}
use splitsen.Examples.WsEcho.{frames, frames-append, IsFramed, async_write-frame}
use splitsen.Examples.JsonTalk.{
  Response, answers, ignores, breaks, write_answer, on_read, on_read_each, read_next, talk_step,
  talk,
}

-- A message of a client at a time, with what the memory holds when it is read, and what it comes to if
-- it is a text.
pub record Turn : Type 0 where
  pub utc : ℕ
  pub message : Message
  pub memory : MaskingKey
  pub response : Response

abbrev pub reading : Turn → ReadEvent
reading t =
    arrived t.memory (client_frame t.message.fin t.message.opcode t.message.key t.message.text [])

abbrev pub turns : List Turn → List (ℕ × ReadEvent)
turns [] = []
turns (t ∷ ts) = (t.utc, reading t) ∷ turns ts

abbrev pub answer_of : Response → List Bytes
answer_of (answers answer) = answer ∷ []
answer_of _ = []

abbrev pub answered : OperationCode → Response → List Bytes
answered text_frame response = answer_of response
answered _ response = []

-- The texts of a talk, and the answers to them.
abbrev pub said : List Turn → List Bytes
said [] = []
said (t ∷ ts) = heard t.message.opcode t.message.text ++ said ts

abbrev pub replied : List Turn → List Bytes
replied [] = []
replied (t ∷ ts) = answered t.message.opcode t.response ++ replied ts

-- The program goes on after it, and an answer is a text that a frame is built right for.
abbrev pub IsAnswered : Response → Type 0
IsAnswered (answers answer) = IsFramed answer
IsAnswered ignores = Unit
IsAnswered breaks = ⊥

module _ (Means : ℕ → Bytes → Response → Type 0) where
  abbrev pub IsTurn : Turn → Type 0
  IsTurn t =
      IsSendable t.message
      × IsKept t.message.opcode
      × (t.message.opcode ≡ text_frame
          → Means t.utc t.message.text t.response × IsAnswered t.response)

  abbrev pub AreTurns : List Turn → Type 0
  AreTurns [] = Unit
  AreTurns (t ∷ ts) = IsTurn t × AreTurns ts

-- A session that has heard some texts and answered them.
abbrev pub spoken : List Bytes → List Bytes → Session → Session
spoken msgs replies w = record w {
  pending = some fin_opcode;
  delivered = w.delivered ++ msgs;
  written = w.written ++ frames replies;
}

spoken-spoken :
    (msgs more replies rest : List Bytes) (w : Session)
    → spoken more rest (spoken msgs replies w) ≡ spoken (msgs ++ more) (replies ++ rest) w
spoken-spoken msgs more replies rest w =
    rw
      (
        frames-append replies rest,
        append_assoc w.delivered msgs more,
        append_assoc w.written (frames replies) (frames rest),
      )
      refl

write_answer-answered :
    (held : MaskingKey) (response : Response) (w : Session)
    → IsAnswered response
    → write_answer little held response w
      ≡ some (record w { written = w.written ++ frames (answer_of response) })
write_answer-answered held (answers answer) w framed =
    ap some (async_write-frame little held answer w framed)
    ∙ ap (λ bytes. some (record w { written = w.written ++ bytes })) (sym (append-nil _))
write_answer-answered held ignores w framed =
    ap (λ bytes. some (record w { written = bytes })) (sym (append-nil w.written))
write_answer-answered held breaks w framed = absurd framed

-- `Means` says what the texts come to.
module _ (on_text : ℕ → Bytes → Response) (Means : ℕ → Bytes → Response → Type 0)
    (holds : (utc : ℕ) (text : Bytes) (response : Response)
      → Means utc text response
      → on_text utc text ≡ response)
    (held : MaskingKey) where
  on_read_each-answered :
      (op : OperationCode) (utc : ℕ) (text : Bytes) (response : Response) (w : Session)
      → IsKept op
      → (op ≡ text_frame → Means utc text response × IsAnswered response)
      → on_read_each on_text little held utc (heard op text) w
        ≡ some (record w { written = w.written ++ frames (answered op response) })
  unfolding on_read
  on_read_each-answered text_frame utc text response w kept means = ap (read_next λ w. some w) (
      ap (λ r. write_answer little held r w) (holds utc text response (means refl).0)
      ∙ write_answer-answered held response w (means refl).1)
  on_read_each-answered ping utc text response w kept means =
      ap (λ bytes. some (record w { written = bytes })) (sym (append-nil w.written))
  on_read_each-answered pong utc text response w kept means =
      ap (λ bytes. some (record w { written = bytes })) (sym (append-nil w.written))
  on_read_each-answered _ utc text response w kept means = absurd (ground arith)

  talk_step-spoken :
      (t : Turn) (w : Session)
      → IsTurn Means t
      → IsListening w
      → talk_step on_text little held t.utc (reading t) w
        ≡ some (
            spoken (heard t.message.opcode t.message.text) (answered t.message.opcode t.response) w)
  unfolding talk_step
  talk_step-spoken t w (sendable, kept, means) listening =
      let told = heard t.message.opcode t.message.text in
      let w' = record w { pending = some fin_opcode; delivered = w.delivered ++ told } in
      let stepped =
        step-frame t.message t.memory [] w sendable listening
        ∙ after_frame-IsKept t.message.opcode t.message.fin t.message.key t.message.text w kept in
      let read_each = on_read_each on_text little held t.utc in
      ap (λ (s : Session). read_each (drop (length w.delivered) s.delivered) s) stepped
      ∙ ap (λ msgs. read_each msgs w') (drop-append w.delivered told)
      ∙ on_read_each-answered t.message.opcode t.utc t.message.text t.response w' kept means

  pub talk-spoken :
      (ts : List Turn) (w : Session)
      → AreTurns Means ts
      → IsListening w
      → talk on_text little held (turns ts) w ≡ some (spoken (said ts) (replied ts) w)
  unfolding talk
  talk-spoken [] w h listening =
      rw (append-nil w.delivered, append-nil w.written)
        (λ i. some (record w { pending = listening i }))
  talk-spoken (t ∷ ts) w (turn, h) listening =
      let told = heard t.message.opcode t.message.text in
      let replies = answered t.message.opcode t.response in
      ap (read_next (talk on_text little held (turns ts))) (talk_step-spoken t w turn listening)
      ∙ talk-spoken ts (spoken told replies w) h refl
      ∙ ap some (spoken-spoken told (said ts) replies (replied ts) w)

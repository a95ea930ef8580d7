-- ===== src/Examples/MultiEcho/WsSession.antt =====
-- my_ws_session (examples/multi_protocol_echo/server/my_ws_session.hpp): what it answers to JSON.
use splitsen.Base.{
  ℕ, zero, suc, ◌≡◌, refl, ◌↔◌, List, Bytes, none, some, codes, Option-cases, inl, inr, subst,
}
use splitsen.WebSocket.Endian.{little}
use splitsen.WebSocket.Frame.{MaskingKey}
use splitsen.WebSocket.Session.{Session}
use splitsen.WebSocket.Session.Delivery.{IsListening}
use splitsen.Examples.EchoMessage.{
  MessageIdentification, client_echo_timed, identification, asserted, server_echo, with_id,
  with_client, echo_json,
}
use splitsen.Examples.JsonTalk.{PropertyTree, Response, answers, ignores, breaks, get, talk}
use splitsen.Examples.JsonTalk.Laws.{Turn, turns, AreTurns, said, replied, spoken, talk-spoken}

module _ {Tree : Type 0} (json : PropertyTree Tree) where
  -- The switch on `get_id`
  abbrev pub answer_to : ℕ → Tree → MessageIdentification → Response
  answer_to utc pt client_echo_timed =
      with_client json pt λ cli. answers (echo_json json (server_echo utc cli))
  answer_to utc pt _ = ignores

  -- `on_read`, as what comes of a text at a time.
  unfoldable pub on_text : ℕ → Bytes → Response
  unfolding echo_json server_echo
  on_text utc json_msg = get (json.read_json json_msg) λ pt. with_id json pt (answer_to utc pt)

  -- What a tree means, in words of its keys: an echo that is asked for, a message that is passed over, or
  -- an identification that fails the assertion.
  pub data TreeMeans (utc : ℕ) (pt : Tree) : Response → Type 0 where
    asks :
        (msg : Bytes) (sent : ℕ)
        → json.get_char (codes "id") pt ≡ some 1
        → json.get_string (codes "msg_") pt ≡ some msg
        → json.get_number (codes "sent_") pt ≡ some sent
        → TreeMeans utc pt
            (answers (echo_json json (record { msg = msg; client_sent = sent; server_sent = utc })))
    lacks_id : json.get_char (codes "id") pt ≡ none → TreeMeans utc pt ignores
    lacks_msg :
        json.get_char (codes "id") pt ≡ some 1
        → json.get_string (codes "msg_") pt ≡ none
        → TreeMeans utc pt ignores
    lacks_sent :
        json.get_char (codes "id") pt ≡ some 1
        → json.get_number (codes "sent_") pt ≡ none
        → TreeMeans utc pt ignores
    from_a_server : json.get_char (codes "id") pt ≡ some 2 → TreeMeans utc pt ignores
    unknown :
        (id : ℕ)
        → json.get_char (codes "id") pt ≡ some id
        → identification id ≡ none
        → TreeMeans utc pt breaks

  pub data Means (utc : ℕ) (text : Bytes) : Response → Type 0 where
    unreadable : json.read_json text ≡ none → Means utc text ignores
    readable :
        {response : Response} (pt : Tree)
        → json.read_json text ≡ some pt
        → TreeMeans utc pt response
        → Means utc text response

  TreeMeans-with_id :
      (utc : ℕ) (pt : Tree) (response : Response)
      → TreeMeans utc pt response
      → with_id json pt (answer_to utc pt) ≡ response
  unfolding server_echo
  TreeMeans-with_id utc pt response (asks msg sent i m s) = rw (i, m, s) refl
  TreeMeans-with_id utc pt response (lacks_id i) = rw i refl
  TreeMeans-with_id utc pt response (lacks_msg i m) = rw (i, m) refl
  TreeMeans-with_id utc pt response (lacks_sent i s) =
      elim (Option-cases (json.get_string (codes "msg_") pt)) [
        | inl m ↦ rw (i, m) refl
        | inr (msg, m) ↦ rw (i, m, s) refl
      ]
  TreeMeans-with_id utc pt response (from_a_server i) = rw i refl
  TreeMeans-with_id utc pt response (unknown id i n) = rw (i, n) refl

  Means-on_text :
      (utc : ℕ) (text : Bytes) (response : Response)
      → Means utc text response
      → on_text utc text ≡ response
  unfolding on_text
  Means-on_text utc text response (unreadable e) = rw e refl
  Means-on_text utc text response (readable pt e means) =
      rw e (TreeMeans-with_id utc pt response means)

  answer_to-TreeMeans :
      (utc : ℕ) (pt : Tree) (id : ℕ)
      → json.get_char (codes "id") pt ≡ some id
      → TreeMeans utc pt (asserted (identification id) (answer_to utc pt))
  unfolding on_text
  answer_to-TreeMeans utc pt zero i = unknown 0 i refl
  answer_to-TreeMeans utc pt (suc zero) i =
      elim (Option-cases (json.get_string (codes "msg_") pt)) [
        | inl m ↦ rw m (lacks_msg i m)
        | inr (msg, m) ↦ elim (Option-cases (json.get_number (codes "sent_") pt)) [
          | inl s ↦ rw (m, s) (lacks_sent i s)
          | inr (sent, s) ↦ rw (m, s) (asks msg sent i m s)
        ]
      ]
  answer_to-TreeMeans utc pt (suc (suc zero)) i = from_a_server i
  answer_to-TreeMeans utc pt (suc (suc (suc n))) i = unknown (suc (suc (suc n))) i refl

  with_id-TreeMeans : (utc : ℕ) (pt : Tree) → TreeMeans utc pt (with_id json pt (answer_to utc pt))
  with_id-TreeMeans utc pt = elim (Option-cases (json.get_char (codes "id") pt)) [
    | inl i ↦ rw i (lacks_id i)
    | inr (id, i) ↦ rw i (answer_to-TreeMeans utc pt id i)
  ]

  on_text_lem : (utc : ℕ) (text : Bytes) → Means utc text (on_text utc text)
  unfolding on_text
  on_text_lem utc text = elim (Option-cases (json.read_json text)) [
    | inl e ↦ rw e (unreadable e)
    | inr (pt, e) ↦ rw e (readable pt e (with_id-TreeMeans utc pt))
  ]

  -- What a session answers to a text is just what the text means: the echo of a client's message with both
  -- times, if the tree has the identification 1 with "msg_" and "sent_"; nothing, if the text is no JSON,
  -- if one of the three is missing, or if the identification is 2; and with any other identification,
  -- which a client chooses, an assertion fails.
  pub on_text-Means :
      (utc : ℕ) (text : Bytes) (response : Response)
      → (on_text utc text ≡ response) ↔ Means utc text response
  on_text-Means utc text response =
      ((λ e. subst (Means utc text) e (on_text_lem utc text)), Means-on_text utc text response)

  -- Text, ping and pong frames with payloads that arrive one to a read at a session whose handshake is
  -- done, none of the texts of an identification that fails the assertion: each text that asks for an
  -- echo is answered with it, in order, each in a frame as RFC 6455 lays it out, if no answer has just
  -- 65536 bytes, or 2^64 or more; nothing else is written, and the session listens on.
  pub talk-answered :
      (held : MaskingKey) (ts : List Turn) (w : Session)
      → AreTurns Means ts
      → IsListening w
      → talk on_text little held (turns ts) w ≡ some (spoken (said ts) (replied ts) w)
  talk-answered held ts w h listening =
      talk-spoken on_text Means Means-on_text held ts w h listening

-- ===== src/Examples/JsonServer/Session.antt =====
-- my_session of the JSON server (examples/json_server/my_session.cpp): what it answers to a text.
use splitsen.Base.{
  ℕ, zero, suc, ◌≤◌, ◌≡◌, ◌≢◌, refl, Bool, List, Bytes, Option, none, some, codes, Option-cases,
  inl, inr,
}
use splitsen.WebSocket.Endian.{little}
use splitsen.WebSocket.Frame.{MaskingKey}
use splitsen.WebSocket.Session.{Session}
use splitsen.WebSocket.Session.Delivery.{IsListening}
use splitsen.Examples.JsonServer
use splitsen.Examples.JsonServer.{list_files, list_files-regular, regular}
use splitsen.Examples.JsonServer.Messages.{
  MsgQuestionEchoTimed, MsgQuestionFilesCurrentDirectory, with_question_echo_timed,
  with_question_files, response_echo_json, response_files_json,
}
use splitsen.Examples.JsonTalk.{PropertyTree, Response, answers, ignores, breaks, get, talk}
use splitsen.Examples.JsonTalk.Laws.{Turn, turns, AreTurns, said, replied, spoken, talk-spoken}

-- `directory` is what the current directory holds at a time: whether each entry is a regular file, and
-- its path.
module _ {Tree : Type 0} (json : PropertyTree Tree) (directory : ℕ → List (Bool × Bytes)) where
  -- `on_message` of either question
  unfoldable pub on_message_echo : ℕ → MsgQuestionEchoTimed → Bytes
  unfolding response_echo_json
  on_message_echo utc msg =
      response_echo_json json (record { client_to_server = msg; server_received = utc })

  abbrev pub with_files : Option (List Bytes) → Response
  with_files none = breaks
  with_files (some files) = answers (response_files_json json (record { files = files }))

  unfoldable pub on_message_files : ℕ → MsgQuestionFilesCurrentDirectory → Response
  unfolding list_files response_files_json
  on_message_files utc json_msg = with_files (list_files json_msg.max_length (directory utc))

  -- The switch on `msgId`
  abbrev pub answer_to : ℕ → Tree → ℕ → Response
  answer_to utc pt (suc zero) =
      with_question_echo_timed json pt λ msg. answers (on_message_echo utc msg)
  answer_to utc pt (suc (suc (suc zero))) = with_question_files json pt (on_message_files utc)
  answer_to utc pt _ = ignores

  -- `on_read`, as what comes of a text at a time.
  unfoldable pub on_text : ℕ → Bytes → Response
  unfolding on_message_echo on_message_files
  on_text utc json_msg =
      get (json.read_json json_msg)
        λ pt. get (json.get_unsigned_char (codes "id") pt) (answer_to utc pt)

  -- The identification reads as a number, signed and unsigned.
  abbrev pub HasId : Tree → ℕ → Type 0
  HasId pt id =
      (json.get_unsigned_char (codes "id") pt ≡ some id) × (json.get_char (codes "id") pt ≡ some id)

  -- What a tree means, in words of its keys.
  pub data TreeMeans (utc : ℕ) (pt : Tree) : Response → Type 0 where
    asks_echo :
        (msg : Bytes) (sent : ℕ)
        → HasId pt 1
        → json.get_number (codes "client_sent") pt ≡ some sent
        → json.get_string (codes "message") pt ≡ some msg
        → TreeMeans utc pt (
            answers (
              response_echo_json json (record {
                client_to_server = record { client_sent = sent; message = msg };
                server_received = utc;
              })))
    asks_files :
        (max_length : ℕ)
        → HasId pt 3
        → json.get_uint32 (codes "max_length") pt ≡ some max_length
        → 4 ≤ max_length
        → TreeMeans utc pt (
            answers (
              response_files_json json
                (record { files = JsonServer.answers max_length (regular (directory utc)) })))
    lacks_id : json.get_unsigned_char (codes "id") pt ≡ none → TreeMeans utc pt ignores
    lacks_sent :
        HasId pt 1 → json.get_number (codes "client_sent") pt ≡ none → TreeMeans utc pt ignores
    lacks_message :
        HasId pt 1 → json.get_string (codes "message") pt ≡ none → TreeMeans utc pt ignores
    lacks_max_length :
        HasId pt 3 → json.get_uint32 (codes "max_length") pt ≡ none → TreeMeans utc pt ignores
    unknown :
        (id : ℕ)
        → json.get_unsigned_char (codes "id") pt ≡ some id
        → id ≢ 1
        → id ≢ 3
        → TreeMeans utc pt ignores

  pub data Means (utc : ℕ) (text : Bytes) : Response → Type 0 where
    unreadable : json.read_json text ≡ none → Means utc text ignores
    readable :
        {response : Response} (pt : Tree)
        → json.read_json text ≡ some pt
        → TreeMeans utc pt response
        → Means utc text response

  answer_to-unknown :
      (utc : ℕ) (pt : Tree) (id : ℕ) → id ≢ 1 → id ≢ 3 → answer_to utc pt id ≡ ignores
  answer_to-unknown utc pt (suc zero) one three = absurd (one refl)
  answer_to-unknown utc pt (suc (suc (suc zero))) one three = absurd (three refl)
  answer_to-unknown utc pt _ one three = refl

  TreeMeans-answer_to :
      (utc : ℕ) (pt : Tree) (response : Response)
      → TreeMeans utc pt response
      → get (json.get_unsigned_char (codes "id") pt) (answer_to utc pt) ≡ response
  unfolding on_message_echo on_message_files
  TreeMeans-answer_to utc pt response (asks_echo msg sent (u, i) s m) = rw (u, i, s, m) refl
  TreeMeans-answer_to utc pt response (asks_files max_length (u, i) m enough) =
      rw (u, i, m, list_files-regular max_length enough (directory utc)) refl
  TreeMeans-answer_to utc pt response (lacks_id u) = rw u refl
  TreeMeans-answer_to utc pt response (lacks_sent (u, i) s) = rw (u, i, s) refl
  TreeMeans-answer_to utc pt response (lacks_message (u, i) m) =
      elim (Option-cases (json.get_number (codes "client_sent") pt)) [
        | inl s ↦ rw (u, i, s) refl
        | inr (sent, s) ↦ rw (u, i, s, m) refl
      ]
  TreeMeans-answer_to utc pt response (lacks_max_length (u, i) m) = rw (u, i, m) refl
  TreeMeans-answer_to utc pt response (unknown id u one three) =
      rw u (answer_to-unknown utc pt id one three)

  Means-on_text :
      (utc : ℕ) (text : Bytes) (response : Response)
      → Means utc text response
      → on_text utc text ≡ response
  unfolding on_text
  Means-on_text utc text response (unreadable e) = rw e refl
  Means-on_text utc text response (readable pt e means) =
      rw e (TreeMeans-answer_to utc pt response means)

  -- Text, ping and pong frames with payloads that arrive one to a read at a session whose handshake is
  -- done: each question with the identification 1 is answered with its message and both times, each with
  -- 3 with the regular files of the directory at that time, none longer than asked for; what is no JSON,
  -- lacks a key or has another identification is passed over. The answers are written in order, each in
  -- a frame as RFC 6455 lays it out; nothing else is written, and the session listens on. The conditions
  -- are that no max_length is below four, that an identification reads the same signed and unsigned, and
  -- that no answer has just 65536 bytes, or 2^64 or more.
  pub talk-replied :
      (held : MaskingKey) (ts : List Turn) (w : Session)
      → AreTurns Means ts
      → IsListening w
      → talk on_text little held (turns ts) w ≡ some (spoken (said ts) (replied ts) w)
  talk-replied held ts w h listening = talk-spoken on_text Means Means-on_text held ts w h listening

-- ===== src/Examples/JsonServer/Messages.antt =====
-- The messages of the JSON server (examples/json_server/protocol_messages.hpp), with what reads them
-- from a tree and writes them as JSON.
use splitsen.Base.{ℕ, List, [], ◌∷◌, ◌++◌, Bytes, codes, ◌==◌, if◌then◌else◌}
use splitsen.Examples.JsonTalk.{
  PropertyTree, Response, get, breaks, Value, of_enumerator, of_number, of_string, of_strings,
}

pub data MessageIdentification : Type 0 where
  question_echo_timed response_echo_timed question_files_current_directory
        response_files_current_directory :
      MessageIdentification

abbrev pub number_of : MessageIdentification → ℕ
number_of question_echo_timed = 1
number_of response_echo_timed = 2
number_of question_files_current_directory = 3
number_of response_files_current_directory = 4

pub record MsgQuestionEchoTimed : Type 0 where
  pub client_sent : ℕ
  pub message : Bytes

pub record MsgResponseEchoTimed : Type 0 where
  pub client_to_server : MsgQuestionEchoTimed
  pub server_received : ℕ

pub record MsgQuestionFilesCurrentDirectory : Type 0 where
  pub max_length : ℕ

pub record MsgResponseFilesCurrentDirectory : Type 0 where
  pub files : List Bytes

module _ {Tree : Type 0} (json : PropertyTree Tree) where
  -- The constructor of message_protocol from a tree: its assertion reads the identification again.
  abbrev pub with_protocol : MessageIdentification → Tree → Response → Response
  with_protocol id pt next =
      get (json.get_char (codes "id") pt) λ i. if i == number_of id then next else breaks

  -- The constructors of the two questions
  abbrev pub with_question_echo_timed : Tree → (MsgQuestionEchoTimed → Response) → Response
  with_question_echo_timed pt f = with_protocol question_echo_timed pt (
      get (json.get_number (codes "client_sent") pt) λ client_sent.
        get (json.get_string (codes "message") pt)
          λ message. f (record { client_sent = client_sent; message = message }))

  abbrev pub with_question_files : Tree → (MsgQuestionFilesCurrentDirectory → Response) → Response
  with_question_files pt f =
      with_protocol question_files_current_directory pt
        (get (json.get_uint32 (codes "max_length") pt) λ n. f (record { max_length = n }))

  -- `message_protocol::json` into a tree
  abbrev pub protocol_json : MessageIdentification → List (Bytes × Value)
  protocol_json id = (codes "id", of_enumerator (number_of id)) ∷ []

  unfoldable pub response_echo_json : MsgResponseEchoTimed → Bytes
  response_echo_json m = json.write_json (
      protocol_json response_echo_timed
      ++ ((codes "client_sent", of_number m.client_to_server.client_sent)
          ∷ (codes "message", of_string m.client_to_server.message)
          ∷ (codes "server_received", of_number m.server_received)
          ∷ []))

  unfoldable pub response_files_json : MsgResponseFilesCurrentDirectory → Bytes
  response_files_json m =
      json.write_json (
        protocol_json response_files_current_directory
        ++ ((codes "files", of_strings m.files) ∷ []))

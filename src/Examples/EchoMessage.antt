-- ===== src/Examples/EchoMessage.antt =====
-- The messages of the echo server of several protocols (examples/multi_protocol_echo/server/echo_message.hpp),
-- and what reads and writes them as JSON. A time is in milliseconds since 1970.
use splitsen.Base.{ℕ, zero, suc, [], ◌∷◌, Bytes, Option, none, some, codes}
use splitsen.Examples.JsonTalk.{PropertyTree, Response, get, breaks, of_char, of_number, of_string}

pub data MessageIdentification : Type 0 where
  first client_echo_timed server_echo_timed last : MessageIdentification

-- `lexical_cast` of an identification
unfoldable pub name_of : MessageIdentification → Bytes
name_of first = codes "first"
name_of client_echo_timed = codes "client_echo_timed"
name_of server_echo_timed = codes "server_echo_timed"
name_of last = codes "last"

pub record ClientEchoTimed : Type 0 where
  pub msg : Bytes
  pub sent : ℕ

pub record ServerEchoTimed : Type 0 where
  pub msg : Bytes
  pub client_sent : ℕ
  pub server_sent : ℕ

-- client_server_protocol, with what is derived from it.
pub data Message : Type 0 where
  from_client : ClientEchoTimed → Message
  from_server : ServerEchoTimed → Message

unfoldable pub get_id : Message → MessageIdentification
get_id (from_client m) = client_echo_timed
get_id (from_server m) = server_echo_timed

-- The constructor from a client's message; `utc` is the time.
unfoldable pub server_echo : ℕ → ClientEchoTimed → ServerEchoTimed
server_echo utc cli = record { msg = cli.msg; client_sent = cli.sent; server_sent = utc }

-- The byte of an identification
abbrev pub byte_of : MessageIdentification → ℕ
byte_of first = 0
byte_of client_echo_timed = 1
byte_of server_echo_timed = 2
byte_of last = 3

-- The identification of a byte, or none if the assertion fails that it is one between `first` and `last`.
abbrev pub identification : ℕ → Option MessageIdentification
identification (suc zero) = some client_echo_timed
identification (suc (suc zero)) = some server_echo_timed
identification _ = none

abbrev pub asserted : Option MessageIdentification → (MessageIdentification → Response) → Response
asserted none f = breaks
asserted (some id) f = f id

module _ {Tree : Type 0} (json : PropertyTree Tree) where
  -- The static `get_id`
  abbrev pub with_id : Tree → (MessageIdentification → Response) → Response
  with_id pt f = get (json.get_char (codes "id") pt) λ tmp. asserted (identification tmp) f

  -- The constructor of client_echo_timed_t from a tree
  abbrev pub with_client : Tree → (ClientEchoTimed → Response) → Response
  with_client pt f =
      get (json.get_string (codes "msg_") pt) λ msg.
        get (json.get_number (codes "sent_") pt) λ sent. f (record { msg = msg; sent = sent })

  -- `json` of server_echo_timed_t
  unfoldable pub echo_json : ServerEchoTimed → Bytes
  echo_json m = json.write_json (
      (codes "id", of_char (byte_of server_echo_timed))
      ∷ (codes "client_sent_", of_number m.client_sent)
      ∷ (codes "msg_", of_string m.msg)
      ∷ (codes "server_sent_", of_number m.server_sent)
      ∷ [])

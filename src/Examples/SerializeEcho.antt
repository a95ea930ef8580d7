-- ===== src/Examples/SerializeEcho.antt =====
-- The two ends of a serialized echo: my_serialization_session of the server
-- (examples/multi_protocol_echo/server/my_serialization_session.hpp) and my_session of the client
-- (examples/multi_protocol_echo/serialize_client/serialize_client.cpp). What is typed in and what the
-- clocks show are arguments.
pub mod Conversation
use splitsen.Base.{
  ℕ, ◌-◌, Bool, true, false, List, [], ◌∷◌, ◌++◌, Bytes, Option, none, some, codes, length, take,
  drop, if◌then◌else◌, ◌≡◌, ap,
}
use splitsen.Http.MimeTypes.{same_bytes}
use splitsen.Http.RequestHandler.{c_str}
use splitsen.Tcp.{on_error}
use splitsen.Serialization.{
  SerializationSession, nothing, ReadEvent, async_read, async_write, on_write_msg, abort, dispatch,
}
use splitsen.Serialization
use splitsen.Examples.MultiEcho.{serialization_guid, new_serialization_session}
use splitsen.Examples.EchoMessage.{
  Message, from_client, from_server, ClientEchoTimed, ServerEchoTimed, server_echo,
}

-- The client's session, and the replies that it printed.
pub record SerializeClient : Type 0 where
  pub session : SerializationSession Message
  pub printed : List Bytes

abbrev pub new_client : SerializeClient
new_client = record { session = new_serialization_session; printed = [] }

abbrev pub max_length : ℕ
max_length = 1024

-- `getline` into an array of `max_length` chars, the last of them null, and `strlen`.
unfoldable pub entered : Bytes → Bytes
unfolding c_str
entered line = c_str (take (max_length - 1) line)

-- `on_read` is called with what a handler delivers.
abbrev pub call_all {ℓ} : {S : Type ℓ} → (Message → S → S) → List Message → S → S
call_all on_read [] s = s
call_all on_read (m ∷ ms) s = call_all on_read ms (on_read m s)

module _ (save : Message → Bytes) (load : Bytes → Option Message) where
  -- my_serialization_session::on_read, whose default case fails an assertion.
  abbrev pub on_read : ℕ → Message → SerializationSession Message → SerializationSession Message
  on_read utc (from_client m) s = async_write save load (from_server (server_echo utc m)) s
  on_read utc (from_server m) s = abort save load s

  -- A read of the server ends.
  unfoldable pub server_read :
      ℕ → ReadEvent → SerializationSession Message → SerializationSession Message
  unfolding async_write server_echo dispatch
  server_read utc event s =
      let s' = dispatch save load event s in
      call_all (on_read utc) (drop (length s.delivered) s'.delivered) s'

  abbrev pub with_session :
      (SerializationSession Message → SerializationSession Message)
      → SerializeClient
      → SerializeClient
  with_session f c = record c { session = f c.session }

  -- `on_socket_connected`: the GUID is written past the serialization.
  unfoldable pub on_socket_connected : SerializeClient → SerializeClient
  on_socket_connected c =
      with_session (λ s. record s { written = s.written ++ serialization_guid }) c

  -- `type_in`, when a line is typed.
  unfoldable pub type_in : Bytes → ℕ → SerializeClient → SerializeClient
  unfolding async_write entered
  type_in line utc c =
      with_session (async_write save load (from_client (record { msg = entered line; sent = utc })))
        c

  unfoldable pub on_write_guid : Bool → Bytes → ℕ → SerializeClient → SerializeClient
  unfolding type_in on_error
  on_write_guid true line utc c = with_session (λ s. record s { tcp = on_error s.tcp }) c
  on_write_guid false line utc c = type_in line utc c

  -- `on_write_msg` of the client
  unfoldable pub on_message_written : Bool → SerializeClient → SerializeClient
  unfolding on_error
  on_message_written true c = with_session (λ s. record s { tcp = on_error s.tcp }) c
  on_message_written false c = with_session (async_read save load) c

  -- `on_read` of the client
  abbrev pub on_reply : Message → SerializeClient → SerializeClient
  on_reply (from_server m) c = record c { printed = c.printed ++ m.msg ∷ [] }
  on_reply (from_client m) c = with_session (abort save load) c

  -- A read of the client ends.
  unfoldable pub client_read : ReadEvent → SerializeClient → SerializeClient
  unfolding dispatch
  client_read event c =
      let s' = dispatch save load event c.session in
      call_all on_reply (drop (length c.session.delivered) s'.delivered) (record c { session = s' })

  -- What `serialization_test` (examples/multi_protocol_echo/server/echo_message.cpp) asserts of what it
  -- has loaded again. An archive that cannot be loaded and a cast that fails throw, and the handler
  -- asserts false.
  abbrev pub is_coucou : Option Message → Bool
  is_coucou none = false
  is_coucou (some (from_client m)) = same_bytes (codes "coucou") m.msg
  is_coucou (some (from_server m)) = false

  unfoldable pub serialization_test : ℕ → Bool
  serialization_test utc =
      is_coucou (load (save (from_client (record { msg = codes "coucou"; sent = utc }))))

  -- The test that the client starts with passes if its message is loaded as it was saved.
  serialization_test_passes :
      (utc : ℕ) → ((m : Message) → load (save m) ≡ some m) → serialization_test utc ≡ true
  unfolding serialization_test
  serialization_test_passes utc loads =
      ap is_coucou (loads (from_client (record { msg = codes "coucou"; sent = utc })))

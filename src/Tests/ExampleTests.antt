-- ===== src/Tests/ExampleTests.antt =====
-- Runs of the example programs.
use splitsen.Base.{
  Bool, Option, take, drop, zero, suc, ◌≤◌, true, false, List, [], ◌∷◌, ◌++◌, Bytes, none, some,
  length, codes, All, ◌≡◌, refl, arith,
}
use splitsen.Handshake.{http}
use splitsen.Http.Reply.{ok}
use splitsen.WebSocket.Handshake.{read}
use splitsen.Tcp.Strings.{over_socket, handshake}
use splitsen.Tcp.Strings
use splitsen.Protocol.Chain.{taken}
use splitsen.Examples.EchoServer.{my_session, on_socket_connected, exchanges, run-echo}
use splitsen.Examples.TcpSession.{my_tcp_session, guid, run-once}
use splitsen.Serialization.{async_read}
use splitsen.Examples.MultiEcho.{new_serialization_session, in_serialization}
use splitsen.Examples.EchoMessage.{Message, from_client, from_server, server_echo}
use splitsen.Http.RequestHandler.{c_str}
use splitsen.Examples.SerializeEcho.{server_read, client_read, on_message_written}
use splitsen.Examples.SerializeEcho.Conversation.{read_both, asking, echo-prints}
use splitsen.Examples.JsonServer.{list_files, list_files-fits}
use splitsen.Examples.MultiEcho.{World, routed, serve, in_tcp}
use splitsen.Examples.RawClient.{client_guid, request_of, reply_of, stream_of, reply_of-serve}
use splitsen.Tests.ServerTests.{world, held}

run-echo_example :
    Strings.run my_session
      (exchanges ((codes "a", false) ∷ (codes "b", true) ∷ []) ++ Strings.read true [] ∷ [])
      (on_socket_connected over_socket)
    ≡ record over_socket {
      tcp = record { is_open = false; shutdowns = 1; errors = 1 };
      written = codes "a" ∷ codes "b" ∷ [];
    }
run-echo_example = run-echo ((codes "a", false) ∷ (codes "b", true) ∷ []) []

run-once_example :
    length
      (Strings.run my_tcp_session
        (Strings.read false (codes "a") ∷ Strings.wrote false ∷ Strings.read false (codes "b") ∷ [])
        (handshake my_tcp_session (record { tag = http; data_string = guid }) over_socket)).written
    ≤ 1
run-once_example =
    run-once (record { tag = http; data_string = guid })
      (Strings.read false (codes "a") ∷ Strings.wrote false ∷ Strings.read false (codes "b") ∷ [])

abbrev directory : List (Bool × Bytes)
directory = (true, codes "/home/a/b.txt") ∷ (false, codes "/home/a/c") ∷ (true, codes "/d") ∷ []

list_files-fits_example :
    (list_files 8 directory ≡ some (codes "/h...txt" ∷ codes "/d" ∷ []))
    × All (λ (file : Bytes). length file ≤ 8) (codes "/h...txt" ∷ codes "/d" ∷ [])
list_files-fits_example = list_files-fits 8 (omega arith) directory

-- An archive made up for the messages.
abbrev save_message : Message → Bytes
save_message (from_client m) = 0 ∷ m.sent ∷ m.msg
save_message (from_server m) = 1 ∷ m.client_sent ∷ m.server_sent ∷ m.msg

abbrev load_message : Bytes → Option Message
load_message (zero ∷ sent ∷ msg) = some (from_client (record { msg = msg; sent = sent }))
load_message (suc n ∷ client_sent ∷ server_sent ∷ msg) =
    some (from_server (record { msg = msg; client_sent = client_sent; server_sent = server_sent }))
load_message bytes = none

load-save_message : (m : Message) → load_message (save_message m) ≡ some m
load-save_message (from_client m) = refl
load-save_message (from_server m) = refl

abbrev message_world : World Message
message_world = record {
  save = save_message;
  load = load_message;
  lexical_cast = λ n. b'0' ∷ [];
  open_file = λ path. none;
  doc_root = [];
  host = world.host;
  major = 8;
  minor = 8;
  status = ok;
}

echo-prints_example :
    let c = asking message_world (codes "hi") 5 in
    let s = async_read save_message load_message new_serialization_session in
    let heard = read_both (server_read save_message load_message 7) (drop 38 c.session.written) s in
    let told =
      read_both
        (client_read save_message load_message)
        heard.written
        (on_message_written save_message load_message false c) in
    (serve message_world (read false held (take 38 c.session.written) ∷ [])
      ≡ routed (taken 1 (in_serialization s)))
    × (told.printed ≡ codes "hi" ∷ [])
unfolding server_echo c_str
echo-prints_example =
    echo-prints message_world load-save_message held (codes "hi") 5 7 (omega arith) (omega arith)

reply_of-serve_example :
    (s : Strings.StringSession) × (serve world (read false held client_guid ∷ [])
      ≡ routed (taken 0 (in_tcp s)))
    × (reply_of (codes "hi") (
          stream_of
            (Strings.run my_tcp_session
              (Strings.read false (request_of (codes "hi")) ∷ [])
              s).written)
        ≡ some (request_of (codes "hi")))
reply_of-serve_example = reply_of-serve world held (codes "hi")

request_of_line : request_of (codes "hi") ≡ codes "hi"
unfolding request_of
request_of_line = refl

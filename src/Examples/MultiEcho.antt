-- ===== src/Examples/MultiEcho.antt =====
-- The echo server of several protocols (examples/multi_protocol_echo/server/main.cpp): a connection is
-- first a my_ws_session, and what its handshake hands on goes down the chain of the other four. The
-- messages of the serialization session are a parameter, and so are the files and the machine.
pub mod Routes
pub mod Raw
pub mod Upgrade
pub mod WsSession
pub mod Start
use splitsen.Base.{
  ℕ, zero, suc, Bool, false, List, [], ◌∷◌, Bytes, Option, none, some, codes, if◌then◌else◌,
}
use splitsen.Tcp.{connected}
use splitsen.Tcp.Strings.{StringSession, over_socket}
use splitsen.Tcp.Strings
use splitsen.Handshake.{HandShakeData}
use splitsen.Http.Request.{new_request}
use splitsen.Http.Parser.{reset}
use splitsen.Http.Reply.{StatusType}
use splitsen.Http.MimeTypes.{same_bytes}
use splitsen.Http.Session.{HttpSession}
use splitsen.Http.Session
use splitsen.Serialization.{SerializationSession, nothing, async_read}
use splitsen.WebSocket.Handshake.{Pending, first_read, WsHandshake, Host, Event}
use splitsen.WebSocket.Handshake
use splitsen.Protocol.Chain.{Tried, kept, refused, Taken, on_handshake_fail}
use splitsen.Examples.TcpSession.{my_tcp_session}

-- The GUID of each session's `try_handshake`, but my_tcp_session's.
abbrev pub ws_session_guid : Bytes
ws_session_guid = codes "{FB3D4012-F196-4299-9531-0AEACBB3ED89}"

abbrev pub log_guid : Bytes
log_guid = codes "{82F0D331-F6C1-4227-8015-C89276E1931B}"

abbrev pub serialization_guid : Bytes
serialization_guid = codes "{40CBD5AC-856A-4EA5-AE00-DFB199ABED64}"

-- `strlen` and `memcmp`
abbrev pub has_guid : Bytes → HandShakeData → Bool
has_guid guid incoming = same_bytes guid incoming.data_string

-- The session that keeps a socket. The last is none: an assertion on the index failed.
pub data KeptBy (Msg : Type 0) : Type 0 where
  in_tcp : StringSession → KeptBy Msg
  in_serialization : SerializationSession Msg → KeptBy Msg
  in_log : WsHandshake → KeptBy Msg
  in_http : HttpSession → KeptBy Msg
  aborted : KeptBy Msg

-- `handshake_fail` was called or not.
abbrev pub tried_with : {Msg : Type 0} → Option HandShakeData → KeptBy Msg → Tried (KeptBy Msg)
tried_with none s = kept s
tried_with (some d) s = refused d

abbrev pub new_ws_session : Pending → WsHandshake
new_ws_session pending = record {
  tcp = connected;
  pending = pending;
  written = [];
  handed_on = none;
  is_connected = false;
  fault = none;
}

abbrev pub new_serialization_session : {Msg : Type 0} → SerializationSession Msg
new_serialization_session = record {
  tcp = connected;
  waiting = nothing;
  delivered = [];
  written = [];
  is_aborted = false;
}

-- What the constructor leaves unset: the version of the request, and the status of the reply.
abbrev pub new_http_session : ℕ → ℕ → StatusType → HttpSession
new_http_session major minor status = record {
  tcp = connected;
  pending = Session.idle;
  parser = reset (new_request major minor);
  reply = record { status = status; headers = []; content = [] };
  written = [];
  is_shut_down = false;
  handed_on = none;
  fault = none;
}

-- What became of a connection: it is with the first session, or what that one handed on was routed.
pub data Served (Msg : Type 0) : Type 0 where
  stays : WsHandshake → Served Msg
  routed : Taken (KeptBy Msg) → Served Msg

-- What is not the program's: the archives of messages, and what a host has and its memory holds.
pub record World (Msg : Type 0) : Type 0 where
  pub save : Msg → Bytes
  pub load : Bytes → Option Msg
  pub lexical_cast : ℕ → Bytes
  pub open_file : Bytes → Option Bytes
  pub doc_root : Bytes
  pub host : Host
  pub major : ℕ
  pub minor : ℕ
  pub status : StatusType

module _ {Msg : Type 0} (world : World Msg) where
  abbrev pub try_tcp : StringSession → Tried (KeptBy Msg)
  try_tcp s = tried_with s.handed_on (in_tcp s)

  -- `tcp_session::handshake`, and `on_handshake_success` of serialization_session.
  abbrev pub try_serialization : HandShakeData → Tried (KeptBy Msg)
  try_serialization incoming =
      if has_guid serialization_guid incoming
      then kept (in_serialization (async_read world.save world.load new_serialization_session))
      else refused incoming

  abbrev pub try_log : WsHandshake → Tried (KeptBy Msg)
  try_log s = tried_with s.handed_on (in_log s)

  abbrev pub try_http : HttpSession → Tried (KeptBy Msg)
  try_http s = tried_with s.handed_on (in_http s)

  abbrev pub http_handshake : HandShakeData → HttpSession
  http_handshake incoming =
      Session.handshake world.lexical_cast world.open_file world.doc_root incoming
        (new_http_session world.major world.minor world.status)

  -- The session of each index, made over the socket, and its handshake.
  unfoldable pub do_next_handshake : ℕ → HandShakeData → Tried (KeptBy Msg)
  unfolding my_tcp_session
  do_next_handshake zero incoming = try_tcp (Strings.handshake my_tcp_session incoming over_socket)
  do_next_handshake (suc zero) incoming = try_serialization incoming
  do_next_handshake (suc (suc zero)) incoming =
      try_log (
        Handshake.handshake (has_guid log_guid) world.host incoming (new_ws_session Handshake.idle))
  do_next_handshake (suc (suc (suc zero))) incoming = try_http (http_handshake incoming)
  do_next_handshake (suc (suc (suc (suc i)))) incoming = kept aborted

  abbrev pub serve_with : WsHandshake → Option HandShakeData → Served Msg
  serve_with s none = stays s
  serve_with s (some incoming) = routed (on_handshake_fail do_next_handshake 4 incoming)

  -- `protocol_count_` is 5: the handler that a new my_ws_session is given has the index 4.
  unfoldable pub serve : List Event → Served Msg
  unfolding do_next_handshake
  serve events =
      let s =
        Handshake.run (has_guid ws_session_guid) world.host events (new_ws_session first_read) in
      serve_with s s.handed_on

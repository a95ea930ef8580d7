-- ===== src/WebSocket/Handshake.antt =====
-- ws_handshake (splice/web_socket/ws_handshake.hxx), between the first read of a connection and
-- `on_handshake_success`: first for a server of one protocol, then for a server of several, where a
-- session that is not meant hands its socket on. The derived class's `try_handshake` is a parameter,
-- and so is what memory holds that constructors leave unset: the version of the local request, and
-- the key of the local frame.
pub mod Bounds
pub mod Faithful
pub mod Accept
pub mod Mono
use splitsen.Base.{
  ℕ, Bool, true, false, List, [], ◌∷◌, ◌++◌, Bytes, Option, none, some, codes, if◌then◌else◌,
}
use splitsen.Tcp.{TcpSession, shutdown, on_error}
use splitsen.Handshake.{HandShake, http, ws_guid, HandShakeData, contains}
use splitsen.Handshake
use splitsen.Stream.{is_true, is_false, indeterminate, Fault, Parsed, parsed, crashed}
use splitsen.Http.Request.{Request, new_request}
use splitsen.WebSocket.Endian.{Endian}
use splitsen.WebSocket.Frame.{
  OperationCode, continuation_frame, text_frame, binary_frame, connection_close, ping, pong,
  reserved, MaskingKey, DataFrame, new_frame,
}
use splitsen.WebSocket.FrameParser.{FrameParser, start, parse_frame}
use splitsen.WebSocket.RequestParser
use splitsen.WebSocket.RequestParser.{UpgradeParser, parse_upgrade}
use splitsen.WebSocket.Upgrade.{
  UpgradeStatus, switching_protocols, bad_request, internal_server_error, UpgradeReply,
  upgrade_buffers, upgrade_request,
}

-- The handler that waits: of the first read, of the write of a reply, of the read of the GUID.
pub data Pending : Type 0 where
  first_read : Pending
  reply_write : UpgradeStatus → Pending
  guid_read idle : Pending

-- `written` has the buffers of each reply; `is_connected` says that `on_handshake_success` was called.
pub record WsHandshake : Type 0 where
  pub tcp : TcpSession
  pub pending : Pending
  pub written : List (List Bytes)
  pub handed_on : Option HandShakeData
  pub is_connected : Bool
  pub fault : Option Fault

-- `cast_up()->on_error` and `on_error_code`, behind which nothing waits.
abbrev pub fail : WsHandshake → WsHandshake
fail s = record s { pending = idle; tcp = on_error s.tcp }

-- `handshake_fail(incoming, move_socket())`
abbrev pub hand_on : HandShakeData → WsHandshake → WsHandshake
hand_on d s = record s { pending = idle; handed_on = some d }

-- `cast_up()->on_bad_request`
abbrev pub on_bad_request : WsHandshake → WsHandshake
on_bad_request s = record s { pending = idle; tcp = shutdown s.tcp }

abbrev pub connect : WsHandshake → WsHandshake
connect s = record s { pending = idle; is_connected = true }

-- `async_write` of the reply's buffers. They are none if the assertion on the headers fails.
abbrev pub write_buffers : UpgradeStatus → Option (List Bytes) → WsHandshake → WsHandshake
write_buffers status none s = record s { pending = idle }
write_buffers status (some buffers) s = record s {
  pending = reply_write status;
  written = s.written ++ buffers ∷ [];
}

-- The switch on the reply's status in both `first_write`; `refuse` is its `default`.
abbrev pub on_status :
    UpgradeReply → UpgradeStatus → (WsHandshake → WsHandshake) → WsHandshake → WsHandshake
on_status reply switching_protocols refuse s =
    write_buffers reply.status (upgrade_buffers reply.status reply.headers) s
on_status reply bad_request refuse s = refuse s
on_status reply internal_server_error refuse s = refuse s

-- What is not the program's: the five words of SHA-1 by index, base 64, the byte order of the host, and
-- what its memory holds for the version numbers of a request.
pub record Host : Type 0 where
  pub get_digest : Bytes → ℕ → ℕ
  pub to_base64 : Bytes → Bytes
  pub endian : Endian
  pub major : ℕ
  pub minor : ℕ

-- `if (result)` of both `first_write`: only a request that is complete is answered.
unfoldable pub on_request :
    Host → Parsed UpgradeParser → (WsHandshake → WsHandshake) → WsHandshake → WsHandshake
unfolding upgrade_request upgrade_buffers
on_request host (parsed is_true p rest) refuse s =
    let reply = upgrade_request host.get_digest host.to_base64 p.req in
    on_status reply reply.status refuse s
on_request host (parsed is_false p rest) refuse s = refuse s
on_request host (parsed indeterminate p rest) refuse s = refuse s
on_request host (crashed f) refuse s = record s { pending = idle; fault = some f }

abbrev pub parse_first : Host → Bytes → Parsed UpgradeParser
parse_first host bytes =
    parse_upgrade (RequestParser.start (new_request host.major host.minor)) bytes

-- A server of several protocols: `first_write`, where the one that fails hands its data on.
unfoldable pub first_write : Host → HandShakeData → WsHandshake → WsHandshake
unfolding on_request
first_write host incoming s =
    on_request host (parse_first host incoming.data_string) (hand_on incoming) s

abbrev pub key_header : Bytes
key_header = codes "Sec-WebSocket-Key:"

-- The data that is handed on to `first_write` has no tag.
unfoldable pub on_first_read : Host → Bool → Bytes → WsHandshake → WsHandshake
unfolding first_write on_error contains
on_first_read host true bytes s = fail s
on_first_read host false bytes s =
    if contains key_header bytes
    then first_write host (record { tag = Handshake.none; data_string = bytes }) s
    else hand_on (record { tag = http; data_string = bytes }) s

-- `on_second_read`, which the end of the write calls; its `guid_read` asks for one more read.
unfoldable pub on_second_read : UpgradeStatus → Bool → WsHandshake → WsHandshake
unfolding on_error shutdown
on_second_read status true s = fail s
on_second_read switching_protocols false s = record s { pending = guid_read }
on_second_read bad_request false s = on_bad_request s
on_second_read internal_server_error false s = on_bad_request s

module _ (try_handshake : HandShakeData → Bool) where
  -- The assertion on the tag holds wherever this is called.
  unfoldable pub do_custom_handshake : HandShakeData → WsHandshake → WsHandshake
  do_custom_handshake d s = if try_handshake d then connect s else hand_on d s

  unfoldable pub on_guid_frame : OperationCode → Bytes → WsHandshake → WsHandshake
  unfolding do_custom_handshake on_error
  on_guid_frame text_frame payload s =
      do_custom_handshake (record { tag = ws_guid; data_string = payload }) s
  on_guid_frame continuation_frame payload s = fail s
  on_guid_frame binary_frame payload s = fail s
  on_guid_frame connection_close payload s = fail s
  on_guid_frame ping payload s = fail s
  on_guid_frame pong payload s = fail s
  on_guid_frame reserved payload s = fail s

  -- The switch on the frame parser's answer: for more data nothing is asked.
  unfoldable pub on_guid_parsed : Parsed FrameParser → WsHandshake → WsHandshake
  unfolding on_guid_frame on_error
  on_guid_parsed (parsed is_false p rest) s = fail s
  on_guid_parsed (parsed indeterminate p rest) s = record s { pending = idle }
  on_guid_parsed (parsed is_true p rest) s = on_guid_frame p.frame.opcode p.frame.payload s
  on_guid_parsed (crashed f) s = record s { pending = idle; fault = some f }

  unfoldable pub on_guid_read : Host → Bool → MaskingKey → Bytes → WsHandshake → WsHandshake
  unfolding on_guid_parsed on_error
  on_guid_read host true key bytes s = fail s
  on_guid_read host false key bytes s =
      on_guid_parsed (parse_frame host.endian (start (new_frame key)) bytes) s

  -- `handshake`, for the data that another session hands on.
  unfoldable pub handshake_in : Host → HandShake → HandShakeData → WsHandshake → WsHandshake
  unfolding first_write do_custom_handshake
  handshake_in host Handshake.http d s = first_write host d s
  handshake_in host Handshake.ws_guid d s = do_custom_handshake d s
  handshake_in host Handshake.web_socket d s = hand_on d s
  handshake_in host Handshake.none d s = hand_on d s

  unfoldable pub handshake : Host → HandShakeData → WsHandshake → WsHandshake
  unfolding handshake_in
  handshake host d s = handshake_in host d.tag d s

-- What the socket reports: the end of a read, with its error and what the memory of the local frame
-- holds, or of a write.
pub data Event : Type 0 where
  read : Bool → MaskingKey → Bytes → Event
  wrote : Bool → Event

module _ (try_handshake : HandShakeData → Bool) (host : Host) where
  -- The handler that waits for an event runs, in a server of several protocols.
  unfoldable pub dispatch_to : Pending → Event → WsHandshake → WsHandshake
  unfolding on_first_read on_second_read on_guid_read
  dispatch_to first_read (read error key bytes) s = on_first_read host error bytes s
  dispatch_to (reply_write status) (wrote error) s = on_second_read status error s
  dispatch_to guid_read (read error key bytes) s = on_guid_read try_handshake host error key bytes s
  dispatch_to p event s = s

  unfoldable pub dispatch : Event → WsHandshake → WsHandshake
  unfolding dispatch_to
  dispatch event s = dispatch_to s.pending event s

  unfoldable pub run : List Event → WsHandshake → WsHandshake
  unfolding dispatch
  run [] s = s
  run (e ∷ es) s = run es (dispatch e s)

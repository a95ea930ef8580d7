-- ===== src/WebSocket/Handshake/Mono.antt =====
-- ws_handshake in a server of one protocol (splice/web_socket/ws_handshake.hxx): the overloads without
-- `handshake_fail`. Once the reply is written, the session is connected.
pub mod Accepts
use splitsen.Base.{Bool, true, false, List, [], ◌∷◌, Bytes}
use splitsen.Tcp.{shutdown, on_error}
use splitsen.WebSocket.Upgrade.{
  UpgradeStatus, switching_protocols, bad_request, internal_server_error,
}
use splitsen.WebSocket.Handshake.{
  Pending, first_read, reply_write, WsHandshake, fail, on_bad_request, connect, Host, on_request,
  parse_first, Event, read, wrote,
}

-- `first_write`
unfoldable pub first_write : Host → Bytes → WsHandshake → WsHandshake
unfolding on_request on_error
first_write host bytes s = on_request host (parse_first host bytes) fail s

unfoldable pub on_first_read : Host → Bool → Bytes → WsHandshake → WsHandshake
unfolding first_write
on_first_read host true bytes s = fail s
on_first_read host false bytes s = first_write host bytes s

-- `on_second_read`, which the end of the write calls.
unfoldable pub on_second_read : UpgradeStatus → Bool → WsHandshake → WsHandshake
unfolding on_error shutdown
on_second_read status true s = fail s
on_second_read switching_protocols false s = connect s
on_second_read bad_request false s = on_bad_request s
on_second_read internal_server_error false s = on_bad_request s

unfoldable pub dispatch_to : Host → Pending → Event → WsHandshake → WsHandshake
unfolding on_first_read on_second_read
dispatch_to host first_read (read error key bytes) s = on_first_read host error bytes s
dispatch_to host (reply_write status) (wrote error) s = on_second_read status error s
dispatch_to host p event s = s

unfoldable pub dispatch : Host → Event → WsHandshake → WsHandshake
unfolding dispatch_to
dispatch host event s = dispatch_to host s.pending event s

unfoldable pub run : Host → List Event → WsHandshake → WsHandshake
unfolding dispatch
run host [] s = s
run host (e ∷ es) s = run host es (dispatch host e s)

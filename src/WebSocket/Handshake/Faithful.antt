-- ===== src/WebSocket/Handshake/Faithful.antt =====
-- What a ws_handshake session has done to a socket that it hands on, or that it is connected on.
use splitsen.Base.{
  Bool, true, false, List, [], ◌∷◌, ◌++◌, Bytes, Option, none, some, length, Bool-cases,
  Option-cases, inl, inr, ◌≡◌, refl,
}
use splitsen.Stream.{is_true, is_false, indeterminate, Parsed, parsed, crashed}
use splitsen.Handshake.{HandShake, HandShakeData, contains}
use splitsen.Handshake
use splitsen.WebSocket.Frame.{
  OperationCode, continuation_frame, text_frame, binary_frame, connection_close, ping, pong,
  reserved, MaskingKey, new_frame,
}
use splitsen.WebSocket.FrameParser.{FrameParser, start, parse_frame}
use splitsen.WebSocket.RequestParser.{UpgradeParser}
use splitsen.WebSocket.Upgrade.{
  UpgradeStatus, switching_protocols, bad_request, internal_server_error, UpgradeReply,
  upgrade_buffers, upgrade_request,
}
use splitsen.WebSocket.Handshake.{
  Pending, first_read, reply_write, guid_read, idle, WsHandshake, hand_on, connect, on_status, Host,
  on_request, parse_first, first_write, key_header, on_first_read, on_second_read,
  do_custom_handshake, on_guid_frame, on_guid_parsed, on_guid_read, Event, read, wrote, dispatch_to,
  dispatch, run,
}

one_more : (w : List (List Bytes)) (buffers : List Bytes) → w ≡ [] → length (w ++ buffers ∷ []) ≡ 1
one_more w buffers e = rw e refl

-- Nothing was decided yet, and the socket is open.
abbrev pub IsUntried : WsHandshake → Type 0
IsUntried s = (s.handed_on ≡ none) × (s.is_connected ≡ false) × (s.tcp.is_open ≡ true)

-- What was written on a socket before it was handed on: one reply if a GUID was read, else nothing.
abbrev pub WasWritten : HandShake → List (List Bytes) → Type 0
WasWritten Handshake.ws_guid w = length w ≡ 1
WasWritten Handshake.http w = w ≡ []
WasWritten Handshake.web_socket w = w ≡ []
WasWritten Handshake.none w = w ≡ []

abbrev pub IsDone : Option HandShakeData → Bool → WsHandshake → Type 0
IsDone none false s = Unit
IsDone none true s = (s.tcp.is_open ≡ true) × (length s.written ≡ 1)
IsDone (some d) true s = ⊥
IsDone (some d) false s = (s.tcp.is_open ≡ true) × WasWritten d.tag s.written

abbrev IsSoundAt : Pending → WsHandshake → Type 0
IsSoundAt first_read s = IsUntried s × (s.written ≡ [])
IsSoundAt (reply_write status) s = IsUntried s × (length s.written ≡ 1)
IsSoundAt guid_read s = IsUntried s × (length s.written ≡ 1)
IsSoundAt idle s = IsDone s.handed_on s.is_connected s

abbrev IsSound : WsHandshake → Type 0
IsSound s = IsSoundAt s.pending s

module _ (s : WsHandshake) (u : IsUntried s) where
  -- A state that decides nothing.
  IsDone-neither : (t : WsHandshake) → IsDone s.handed_on s.is_connected t
  IsDone-neither t = rw (u.0) (rw (u.1) tt)

  hand_on-IsSound : (d : HandShakeData) → WasWritten d.tag s.written → IsSound (hand_on d s)
  hand_on-IsSound d w = rw (u.1) (u.2, w)

  connect-IsSound : length s.written ≡ 1 → IsSound (connect s)
  connect-IsSound w = rw (u.0) (u.2, w)

module _ (host : Host) where
  on_status-IsSound :
      (reply : UpgradeReply) (status : UpgradeStatus) (refuse : WsHandshake → WsHandshake)
      (s : WsHandshake)
      → IsUntried s
      → s.written ≡ []
      → IsSound (refuse s)
      → IsSound (on_status reply status refuse s)
  on_status-IsSound reply switching_protocols refuse s u w r =
      elim (Option-cases (upgrade_buffers reply.status reply.headers)) [
        | inl aborted ↦ rw aborted (IsDone-neither s u _)
        | inr (buffers, made) ↦ rw made (u, one_more s.written buffers w)
      ]
  on_status-IsSound reply bad_request refuse s u w r = r
  on_status-IsSound reply internal_server_error refuse s u w r = r

  on_request-IsSound :
      (r : Parsed UpgradeParser) (refuse : WsHandshake → WsHandshake) (s : WsHandshake)
      → IsUntried s
      → s.written ≡ []
      → IsSound (refuse s)
      → IsSound (on_request host r refuse s)
  unfolding on_request
  on_request-IsSound (parsed is_true p rest) refuse s u w r =
      let reply = upgrade_request host.get_digest host.to_base64 p.req in
      on_status-IsSound reply reply.status refuse s u w r
  on_request-IsSound (parsed is_false p rest) refuse s u w r = r
  on_request-IsSound (parsed indeterminate p rest) refuse s u w r = r
  on_request-IsSound (crashed f) refuse s u w r = IsDone-neither s u _

  on_first_read-IsSound :
      (error : Bool) (bytes : Bytes) (s : WsHandshake)
      → IsUntried s
      → s.written ≡ []
      → IsSound (on_first_read host error bytes s)
  unfolding on_first_read first_write
  on_first_read-IsSound true bytes s u w = IsDone-neither s u _
  on_first_read-IsSound false bytes s u w = elim (Bool-cases (contains key_header bytes)) [
    | inl key ↦ rw key (
        on_request-IsSound (parse_first host bytes)
          (hand_on (record { tag = Handshake.none; data_string = bytes })) s u w
          (hand_on-IsSound s u (record { tag = Handshake.none; data_string = bytes }) w))
    | inr plain ↦
        rw plain (hand_on-IsSound s u (record { tag = Handshake.http; data_string = bytes }) w)
  ]

on_second_read-IsSound :
    (status : UpgradeStatus) (error : Bool) (s : WsHandshake)
    → IsUntried s
    → length s.written ≡ 1
    → IsSound (on_second_read status error s)
unfolding on_second_read
on_second_read-IsSound switching_protocols false s u w = (u, w)
on_second_read-IsSound switching_protocols true s u w = IsDone-neither s u _
on_second_read-IsSound bad_request false s u w = IsDone-neither s u _
on_second_read-IsSound bad_request true s u w = IsDone-neither s u _
on_second_read-IsSound internal_server_error false s u w = IsDone-neither s u _
on_second_read-IsSound internal_server_error true s u w = IsDone-neither s u _

module _ (try_handshake : HandShakeData → Bool) (host : Host) where
  on_guid_frame-IsSound :
      (op : OperationCode) (payload : Bytes) (s : WsHandshake)
      → IsUntried s
      → length s.written ≡ 1
      → IsSound (on_guid_frame try_handshake op payload s)
  unfolding on_guid_frame do_custom_handshake
  on_guid_frame-IsSound text_frame payload s u w =
      let d : HandShakeData = record { tag = Handshake.ws_guid; data_string = payload } in
      elim (Bool-cases (try_handshake d)) [
        | inl accepted ↦ rw accepted (connect-IsSound s u w)
        | inr refused ↦ rw refused (hand_on-IsSound s u d w)
      ]
  on_guid_frame-IsSound continuation_frame payload s u w = IsDone-neither s u _
  on_guid_frame-IsSound binary_frame payload s u w = IsDone-neither s u _
  on_guid_frame-IsSound connection_close payload s u w = IsDone-neither s u _
  on_guid_frame-IsSound ping payload s u w = IsDone-neither s u _
  on_guid_frame-IsSound pong payload s u w = IsDone-neither s u _
  on_guid_frame-IsSound reserved payload s u w = IsDone-neither s u _

  on_guid_parsed-IsSound :
      (r : Parsed FrameParser) (s : WsHandshake)
      → IsUntried s
      → length s.written ≡ 1
      → IsSound (on_guid_parsed try_handshake r s)
  unfolding on_guid_parsed
  on_guid_parsed-IsSound (parsed is_true p rest) s u w =
      on_guid_frame-IsSound p.frame.opcode p.frame.payload s u w
  on_guid_parsed-IsSound (parsed is_false p rest) s u w = IsDone-neither s u _
  on_guid_parsed-IsSound (parsed indeterminate p rest) s u w = IsDone-neither s u _
  on_guid_parsed-IsSound (crashed f) s u w = IsDone-neither s u _

  on_guid_read-IsSound :
      (error : Bool) (key : MaskingKey) (bytes : Bytes) (s : WsHandshake)
      → IsUntried s
      → length s.written ≡ 1
      → IsSound (on_guid_read try_handshake host error key bytes s)
  unfolding on_guid_read
  on_guid_read-IsSound true key bytes s u w = IsDone-neither s u _
  on_guid_read-IsSound false key bytes s u w =
      on_guid_parsed-IsSound (parse_frame host.endian (start (new_frame key)) bytes) s u w

  dispatch_to-IsSound :
      (p : Pending) (event : Event) (s : WsHandshake)
      → IsSound s
      → IsSoundAt p s
      → IsSound (dispatch_to try_handshake host p event s)
  unfolding dispatch_to
  dispatch_to-IsSound first_read (read error key bytes) s f (u, w) =
      on_first_read-IsSound host error bytes s u w
  dispatch_to-IsSound first_read (wrote error) s f at = f
  dispatch_to-IsSound (reply_write status) (read error key bytes) s f at = f
  dispatch_to-IsSound (reply_write status) (wrote error) s f (u, w) =
      on_second_read-IsSound status error s u w
  dispatch_to-IsSound guid_read (read error key bytes) s f (u, w) =
      on_guid_read-IsSound error key bytes s u w
  dispatch_to-IsSound guid_read (wrote error) s f at = f
  dispatch_to-IsSound idle (read error key bytes) s f at = f
  dispatch_to-IsSound idle (wrote error) s f at = f

  run-IsSound :
      (events : List Event) (s : WsHandshake)
      → IsSound s
      → IsSound (run try_handshake host events s)
  unfolding run dispatch
  run-IsSound [] s f = f
  run-IsSound (e ∷ es) s f = run-IsSound es _ (dispatch_to-IsSound s.pending e s f f)

  -- A session that waits for its first read on an open socket, whatever it is told, in whatever order:
  -- when nothing waits any more it has either handed the socket on, or is connected, or neither. A
  -- socket that was handed on is open, with nothing written on it, or the one reply if what was handed
  -- on is the GUID; one that it is connected on is open, with the one reply.
  pub run-IsDone :
      (events : List Event) (s : WsHandshake)
      → s.pending ≡ first_read
      → IsUntried s
      → s.written ≡ []
      → (run try_handshake host events s).pending ≡ idle
      → IsDone
          (run try_handshake host events s).handed_on
          (run try_handshake host events s).is_connected
          (run try_handshake host events s)
  unfolding run
  run-IsDone events s waits u w done =
      let start : IsSound s = rw waits (u, w) in
      let sound = run-IsSound events s start in rw done at sound

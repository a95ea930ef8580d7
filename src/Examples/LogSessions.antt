-- ===== src/Examples/LogSessions.antt =====
-- The log sessions of the echo server of several protocols: the set of them and its broadcast
-- (my_server of examples/multi_protocol_echo/server/main.cpp), and what my_log_session adds to a
-- WebSocket session (examples/multi_protocol_echo/server/my_log_session.hpp). A session is known by its
-- address. The lock is held in each of the set's functions, so that they are steps.
pub mod Delivery
use splitsen.Base.{
  ℕ, Bool, true, false, List, [], ◌∷◌, ◌++◌, Bytes, Option, none, some, codes, ltb, ◌==◌,
  if◌then◌else◌,
}
use splitsen.Logger.Track.{Severity, error, info}
use splitsen.WebSocket.Endian.{Endian}
use splitsen.WebSocket.Frame.{MaskingKey}
use splitsen.WebSocket.Session.{Session, async_write, on_write_dataframe}

-- `insert` of a std::set
unfoldable pub insert_at : ℕ → List ℕ → List ℕ
insert_at obj [] = obj ∷ []
insert_at obj (it ∷ its) =
    let rest = insert_at obj its in
    if ltb obj it then obj ∷ it ∷ its else if ltb it obj then it ∷ rest else it ∷ its

-- `find`, and `erase` if there is one.
unfoldable pub erase_at : ℕ → List ℕ → List ℕ
erase_at obj [] = []
erase_at obj (it ∷ its) = let rest = erase_at obj its in if obj == it then its else it ∷ rest

-- The set, and the calls of `send` that were posted to the io_service: whose, and with what.
pub record LogServer : Type 0 where
  pub log_session_set : List ℕ
  pub posted : List (ℕ × Bytes)

abbrev pub started : LogServer
started = record { log_session_set = []; posted = [] }

unfoldable pub clear : LogServer → LogServer
clear s = record s { log_session_set = [] }

unfoldable pub insert : ℕ → Bool → LogServer → LogServer
unfolding insert_at erase_at
insert obj true s = record s { log_session_set = insert_at obj s.log_session_set }
insert obj false s = record s { log_session_set = erase_at obj s.log_session_set }

abbrev pub sends : Bytes → List ℕ → List (ℕ × Bytes)
sends msg [] = []
sends msg (it ∷ its) = (it, msg) ∷ sends msg its

unfoldable pub broadcast : Bytes → LogServer → LogServer
broadcast msg s = record s { posted = s.posted ++ sends msg s.log_session_set }

-- `on_logger` and `on_connect`, the server's ends of the two signals.
unfoldable pub on_logger : Bytes → LogServer → LogServer
unfolding broadcast
on_logger msg s = broadcast msg s

unfoldable pub on_connect : ℕ → Bool → LogServer → LogServer
unfolding insert
on_connect obj connect s = insert obj connect s

-- An error code: its text, and that of its message.
pub record ErrorCode : Type 0 where
  pub code : Bytes
  pub message : Bytes

abbrev pub error_text : Option ErrorCode → List (Severity × Bytes)
error_text none = []
error_text (some ec) = (error, codes "[on_error]" ++ (ec.code ++ (codes "=" ++ ec.message))) ∷ []

-- What `tcp_session::on_shutdown` logs.
abbrev pub shutdown_texts : Option ErrorCode → Option ErrorCode → List (Severity × Bytes)
shutdown_texts none none = (info, []) ∷ []
shutdown_texts shut_down_ec close_ec = error_text shut_down_ec ++ error_text close_ec

-- A log session's handshake succeeds or its socket is shut down, or `my_logger::track` signals a line.
pub data Event : Type 0 where
  connects : ℕ → Event
  shuts_down : ℕ → Option ErrorCode → Option ErrorCode → Event
  logs : Bytes → Event

-- `my_log_session::on_handshake_success`
unfoldable pub on_handshake_success : ℕ → LogServer → LogServer
unfolding on_connect
on_handshake_success obj s = on_connect obj true s

-- `line` is what `my_logger::track` makes of a message that a session's `on_shutdown` logs.
module _ (line : ℕ → Severity → Bytes → Bytes) where
  unfoldable pub on_log : ℕ → List (Severity × Bytes) → LogServer → LogServer
  unfolding on_logger
  on_log obj [] s = s
  on_log obj ((severity, msg) ∷ msgs) s = on_log obj msgs (on_logger (line obj severity msg) s)

  -- `my_log_session::on_shutdown`
  unfoldable pub on_shutdown : ℕ → Option ErrorCode → Option ErrorCode → LogServer → LogServer
  unfolding on_connect on_log
  on_shutdown obj shut_down_ec close_ec s =
      on_connect obj false (on_log obj (shutdown_texts shut_down_ec close_ec) s)

  unfoldable pub step : Event → LogServer → LogServer
  unfolding on_handshake_success on_shutdown on_logger
  step (connects obj) s = on_handshake_success obj s
  step (shuts_down obj shut_down_ec close_ec) s = on_shutdown obj shut_down_ec close_ec s
  step (logs msg) s = on_logger msg s

  unfoldable pub run : List Event → LogServer → LogServer
  unfolding step
  run [] s = s
  run (e ∷ es) s = run es (step e s)

-- `my_log_session::send`: the text in a frame, with what the frame's memory holds for its key.
unfoldable pub send : Endian → MaskingKey → Bytes → Session → Session
unfolding async_write
send e held msg w = async_write e held (msg ++ codes "<br>") w

-- `on_write_quiet`
unfoldable pub on_write_quiet : Bool → Session → Session
unfolding on_write_dataframe
on_write_quiet failed w = on_write_dataframe failed w

-- The posted calls for one session, run in their order.
unfoldable pub run_posted : Endian → MaskingKey → ℕ → List (ℕ × Bytes) → Session → Session
unfolding send
run_posted e held obj [] w = w
run_posted e held obj ((it, msg) ∷ posts) w =
    run_posted e held obj posts (if obj == it then send e held msg w else w)

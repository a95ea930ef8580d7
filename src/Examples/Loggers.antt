-- ===== src/Examples/Loggers.antt =====
-- The loggers of the example programs: my_logger of the server of several protocols
-- (examples/multi_protocol_echo/server/my_logger.hpp), of the two servers of one protocol and of their
-- client (examples/mono_protocol_echo), and what ws_session_boost_log adds to boost_log_interface
-- (splice/logger/ws_session_boost_log.hpp).
use splitsen.Base.{ℕ, Bool, [], ◌++◌, Bytes, Option, none, some, codes, length, if◌then◌else◌}
use splitsen.Stream.{Parsed, Tribool, parsed, crashed}
use splitsen.Http.Request.{new_request}
use splitsen.Logger.{reduce}
use splitsen.Logger.Track.{
  Severity, trace, debug, info, warning, error, fatal, Place, track, track_to_console, boost_log,
  log_t,
}
use splitsen.WebSocket.RequestParser.{UpgradeParser, parse_upgrade, start}

-- my_logger of the server of several protocols, in a release build or not. `some []` is no line.
unfoldable pub my_logger : Bool → Bytes → Severity → Place → Bytes → Option Bytes
unfolding track
my_logger ndebug thread_id trace place msg =
    if ndebug then some [] else track thread_id b'T' place msg
my_logger ndebug thread_id debug place msg =
    if ndebug then some [] else track thread_id b'D' place msg
my_logger ndebug thread_id info place msg = track thread_id b'I' place msg
my_logger ndebug thread_id warning place msg = track thread_id b'W' place msg
my_logger ndebug thread_id error place msg = track thread_id b'E' place msg
my_logger ndebug thread_id fatal place msg = track thread_id b'F' place msg

-- my_logger of the echo server of one protocol
unfoldable pub echo_server_logger : Severity → Place → Bytes → Option Bytes
unfolding track_to_console
echo_server_logger trace place msg = track_to_console b'T' place msg
echo_server_logger debug place msg = track_to_console b'D' place msg
echo_server_logger info place msg = track_to_console b'I' place msg
echo_server_logger warning place msg = track_to_console b'W' place msg
echo_server_logger error place msg = track_to_console b'E' place msg
echo_server_logger fatal place msg = track_to_console b'F' place msg

-- my_logger of the WebSocket echo server
unfoldable pub ws_server_logger : Severity → Place → Bytes → Option Bytes
unfolding track_to_console
ws_server_logger trace place msg = track_to_console b'T' place msg
ws_server_logger debug place msg = track_to_console b'D' place msg
ws_server_logger info place msg = track_to_console b'I' place msg
ws_server_logger warning place msg = track_to_console b'W' place msg
ws_server_logger error place msg = track_to_console b'E' place msg
ws_server_logger fatal place msg = track_to_console b'F' place msg

-- my_logger of their client
unfoldable pub echo_client_logger : Severity → Place → Bytes → Option Bytes
unfolding track_to_console
echo_client_logger trace place msg = track_to_console b'T' place msg
echo_client_logger debug place msg = track_to_console b'D' place msg
echo_client_logger info place msg = track_to_console b'I' place msg
echo_client_logger warning place msg = track_to_console b'W' place msg
echo_client_logger error place msg = track_to_console b'E' place msg
echo_client_logger fatal place msg = track_to_console b'F' place msg

-- ws_session_boost_log::log_trace_t. The text of a tribool is a parameter, and so is what the version of
-- the request that is parsed into holds.
module _ (isprint : ℕ → Bool) (int_text lexical_cast : ℕ → Bytes)
    (boolalpha : Tribool → Bytes) where
  abbrev pub data_line : Bytes → Bytes → Tribool → Bytes
  data_line err_msg bytes result =
      codes "bytes_transferred="
      ++ (lexical_cast (length bytes)
          ++ (codes "  bytes=\""
              ++ (reduce isprint int_text bytes
                  ++ (codes "\" error=\""
                      ++ (err_msg ++ (codes "\" result=" ++ boolalpha result))))))

  abbrev pub log_parsed : Place → Bytes → Bytes → Parsed UpgradeParser → Option Bytes
  log_parsed place err_msg bytes (parsed result p rest) =
      boost_log trace place (data_line err_msg bytes result)
  log_parsed place err_msg bytes (crashed f) = none

  unfoldable pub ws_log_trace_t : ℕ → ℕ → Place → Bytes → Bytes → Option Bytes
  unfolding boost_log parse_upgrade reduce
  ws_log_trace_t major minor place err_msg bytes =
      log_parsed place err_msg bytes (parse_upgrade (start (new_request major minor)) bytes)

module _ (isprint : ℕ → Bool) (int_text lexical_cast : ℕ → Bytes) (severity : Severity)
    (place : Place) (msg bytes : Bytes) where
  abbrev pub logs_data : (Severity → Place → Bytes → Option Bytes) → Option Bytes
  logs_data log = log_t isprint int_text lexical_cast log severity place msg bytes

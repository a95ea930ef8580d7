-- ===== src/Http/Session.antt =====
-- http_session (splice/http/http_session.hxx): the handlers of its reads and of its write, over the
-- session's state. A session that hands its socket on to another protocol keeps what it handed on in
-- `handed_on`; what C++ leaves undefined in the parser stands in `fault`, and nothing follows it.
pub mod Reads
pub mod Handover
use splitsen.Base.{
  ℕ, Bool, true, false, List, [], ◌∷◌, ◌++◌, Bytes, Option, none, some, codes, if◌then◌else◌,
}
use splitsen.Tcp.{TcpSession, on_error, close}
use splitsen.Handshake.{HandShake, http, HandShakeData, contains}
use splitsen.Handshake
use splitsen.Stream.{is_true, is_false, indeterminate, Fault, Parsed, parsed, crashed}
use splitsen.Http.Parser.{RequestParser, parse_request}
use splitsen.Http.Reply.{Reply, bad_request, stock_reply, to_buffers}
use splitsen.Http.RequestHandler.{handle_request}

pub data ErrorCode : Type 0 where
  success operation_aborted other_error : ErrorCode

-- The handler that waits: of the first read, of a later one, of the write, or none.
pub data Pending : Type 0 where
  first_read next_read write idle : Pending

pub record HttpSession : Type 0 where
  pub tcp : TcpSession
  pub pending : Pending
  pub parser : RequestParser
  pub reply : Reply
  pub written : List Bytes
  pub is_shut_down : Bool
  pub handed_on : Option HandShakeData
  pub fault : Option Fault

-- `handshake_fail(incoming, move_socket())`, with the tag that an http session gives.
abbrev pub hand_on : HandShake → Bytes → HttpSession → HttpSession
hand_on tag bytes s = record s {
  pending = idle;
  handed_on = some (record { tag = tag; data_string = bytes });
}

-- `async_write` of the reply's buffers.
unfoldable pub write_reply : Reply → HttpSession → HttpSession
unfolding to_buffers
write_reply reply s = record s { pending = write; reply = reply; written = to_buffers reply }

abbrev pub websocket_key : Bytes
websocket_key = codes "Sec-WebSocket-Key:"

-- What the socket reports: the end of a read or of a write.
pub data Event : Type 0 where
  read : ErrorCode → Bytes → Event
  wrote : ErrorCode → Event

module _ (lexical_cast : ℕ → Bytes) (open_file : Bytes → Option Bytes) (doc_root : Bytes) where
  abbrev pub parsed_with : RequestParser → HttpSession → HttpSession
  parsed_with p s = record s { parser = p }

  -- `if (result)`: the request is answered.
  unfoldable pub answer : HttpSession → HttpSession
  unfolding write_reply handle_request
  answer s = write_reply (handle_request lexical_cast open_file doc_root s.parser.req s.reply) s

  -- The three branches on the result of the first read's bytes, and of a later read's.
  unfoldable pub on_first_parsed : Bytes → Parsed RequestParser → HttpSession → HttpSession
  unfolding answer
  on_first_parsed bytes (parsed is_true p rest) s = answer (parsed_with p s)
  on_first_parsed bytes (parsed is_false p rest) s = hand_on http bytes (parsed_with p s)
  on_first_parsed bytes (parsed indeterminate p rest) s = record (parsed_with p s) {
    pending = next_read;
  }
  on_first_parsed bytes (crashed f) s = record s { pending = idle; fault = some f }

  unfoldable pub on_parsed : Parsed RequestParser → HttpSession → HttpSession
  unfolding answer write_reply stock_reply
  on_parsed (parsed is_true p rest) s = answer (parsed_with p s)
  on_parsed (parsed is_false p rest) s =
      write_reply (stock_reply lexical_cast bad_request) (parsed_with p s)
  on_parsed (parsed indeterminate p rest) s = record (parsed_with p s) { pending = next_read }
  on_parsed (crashed f) s = record s { pending = idle; fault = some f }

  unfoldable pub on_first_read : ErrorCode → Bytes → HttpSession → HttpSession
  unfolding on_first_parsed on_error contains
  on_first_read success bytes s =
      if contains websocket_key bytes
      then hand_on http bytes s
      else on_first_parsed bytes (parse_request s.parser bytes) s
  on_first_read operation_aborted bytes s = record s { pending = idle }
  on_first_read other_error bytes s = record s { pending = idle; tcp = on_error s.tcp }

  unfoldable pub handle_read : ErrorCode → Bytes → HttpSession → HttpSession
  unfolding on_parsed
  handle_read success bytes s = on_parsed (parse_request s.parser bytes) s
  handle_read operation_aborted bytes s = record s { pending = idle }
  handle_read other_error bytes s = record s { pending = idle; tcp = close s.tcp }

  unfoldable pub handle_write : ErrorCode → HttpSession → HttpSession
  handle_write success s = record s { pending = idle; is_shut_down = true; tcp = close s.tcp }
  handle_write operation_aborted s = record s { pending = idle }
  handle_write other_error s = record s { pending = idle; tcp = close s.tcp }

  -- `handshake`, for data that another session hands on.
  unfoldable pub handshake : HandShakeData → HttpSession → HttpSession
  unfolding on_first_read
  handshake incoming s = elim incoming.tag [
    | Handshake.http ↦ on_first_read success incoming.data_string s
    | Handshake.web_socket ↦ hand_on Handshake.web_socket incoming.data_string s
    | Handshake.ws_guid ↦ hand_on Handshake.ws_guid incoming.data_string s
    | Handshake.none ↦ hand_on Handshake.none incoming.data_string s
  ]

  -- The handler that waits for an event runs.
  unfoldable pub dispatch_to : Pending → Event → HttpSession → HttpSession
  unfolding on_first_read handle_read handle_write
  dispatch_to first_read (read e bytes) s = on_first_read e bytes s
  dispatch_to next_read (read e bytes) s = handle_read e bytes s
  dispatch_to write (wrote e) s = handle_write e s
  dispatch_to p event s = s

  unfoldable pub dispatch : Event → HttpSession → HttpSession
  unfolding dispatch_to
  dispatch event s = dispatch_to s.pending event s

  unfoldable pub run : List Event → HttpSession → HttpSession
  unfolding dispatch
  run [] s = s
  run (e ∷ es) s = run es (dispatch e s)

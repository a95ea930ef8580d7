-- ===== src/WebSocket/Session.antt =====
-- ws_session (splice/web_socket/ws_session.hxx): reading frames and writing messages on a connection
-- whose handshake is done. A handler runs when its read is done; `pending` is the parser that the
-- outstanding read is bound to, or none when the session has not asked for more. The messages that
-- the derived class's `on_read` is called with are collected in `delivered`, the bytes handed to
-- the socket in `written`.
pub mod Delivery
pub mod Cuts
use splitsen.Base.{
  ℕ, Bool, true, false, List, [], ◌∷◌, ◌++◌, Bytes, Option, none, some, if◌then◌else◌,
}
use splitsen.Tcp.{TcpSession, on_error}
use splitsen.Stream.{is_true, is_false, indeterminate, Parsed, parsed, crashed}
use splitsen.WebSocket.Endian.{Endian}
use splitsen.WebSocket.Frame.{
  OperationCode, continuation_frame, text_frame, binary_frame, connection_close, ping, pong,
  reserved, MaskingKey, DataFrame, frame_of, new_frame, sent,
}
use splitsen.WebSocket.FrameParser.{State, FrameParser, fin_opcode, parse_frame}

pub record Session : Type 0 where
  pub tcp : TcpSession
  pub pending : Option State
  pub delivered : List Bytes
  pub written : Bytes

-- `async_read_some`, bound to `on_read_dataframe` with this parser.
abbrev pub read_with : State → Session → Session
read_with s w = record w { pending = some s }

-- `on_handshake_success`, and what follows a frame: a read with `mk_frame_parser()`.
unfoldable pub on_handshake_success : Session → Session
on_handshake_success = read_with fin_opcode

abbrev pub fail : Session → Session
fail w = record w { tcp = on_error w.tcp }

-- `on_read_data_frame`
unfoldable pub on_opcode : OperationCode → DataFrame → Session → Session
on_opcode text_frame f w =
    read_with fin_opcode (record w { delivered = w.delivered ++ f.payload ∷ [] })
on_opcode pong f w = read_with fin_opcode w
on_opcode ping f w = read_with fin_opcode w
on_opcode continuation_frame f w = fail w
on_opcode binary_frame f w = fail w
on_opcode connection_close f w = fail w
on_opcode reserved f w = fail w

unfoldable pub on_read_data_frame : DataFrame → Session → Session
unfolding on_opcode
on_read_data_frame f w = on_opcode f.opcode f w

-- The switch on `result.value`. The parser has no undefined step; the last clause never applies.
unfoldable pub on_parsed : Parsed FrameParser → Session → Session
unfolding on_read_data_frame
on_parsed (parsed is_false p rest) w = fail w
on_parsed (parsed indeterminate p rest) w = read_with p.state w
on_parsed (parsed is_true p rest) w = on_read_data_frame p.frame w
on_parsed (crashed f) w = w

-- One read: an error code, or the bytes transferred, with what the memory of the local variable
-- `read_frame` holds where its constructor leaves it unset.
pub data ReadEvent : Type 0 where
  failed : ReadEvent
  arrived : MaskingKey → Bytes → ReadEvent

-- `on_read_dataframe`: the frame is made anew for each read, and what lies behind it is dropped.
unfoldable pub on_read_dataframe : Endian → State → ReadEvent → Session → Session
unfolding on_parsed
on_read_dataframe e s failed w = fail w
on_read_dataframe e s (arrived key bytes) w =
    on_parsed (parse_frame e (record { state = s; frame = new_frame key }) bytes) w

-- A read is done only if one is outstanding.
unfoldable pub dispatch : Endian → Option State → ReadEvent → Session → Session
unfolding on_read_dataframe
dispatch e none r w = w
dispatch e (some s) r w = on_read_dataframe e s r (record w { pending = none })

abbrev pub step : Endian → ReadEvent → Session → Session
step e r w = dispatch e w.pending r w

unfoldable pub run : Endian → List ReadEvent → Session → Session
unfolding dispatch
run e [] w = w
run e (r ∷ rs) w = run e rs (step e r w)

-- `async_write`: the message in a text frame made anew.
unfoldable pub async_write : Endian → MaskingKey → Bytes → Session → Session
async_write e key msg w = record w { written = w.written ++ sent e (frame_of key msg) }

-- `on_write_dataframe`
unfoldable pub on_write_dataframe : Bool → Session → Session
on_write_dataframe error w = if error then fail w else w

-- ===== src/Examples/WsEcho.antt =====
-- my_session of the WebSocket echo server of one protocol
-- (examples/mono_protocol_echo/echo_ws_server/ws_server.cpp), once its handshake is done.
use splitsen.Base.{
  ◌<◌, ◌^◌, true, List, [], ◌∷◌, ◌++◌, append-nil, append_assoc, Bytes, length, drop, drop-append,
  All, some, ◌≡◌, ◌≢◌, refl, sym, ap, ◌∙◌,
}
use splitsen.WebSocket.Endian.{Endian, little}
use splitsen.WebSocket.Frame.{OperationCode, text_frame, MaskingKey, frame_of}
use splitsen.WebSocket.Frame.Encode.{sent-server_frame}
use splitsen.WebSocket.FrameParser.{fin_opcode}
use splitsen.WebSocket.FrameParser.Wire.{client_frame, server_frame}
use splitsen.WebSocket.Session.{Session, ReadEvent, arrived, step, async_write}
use splitsen.WebSocket.Session.Delivery.{
  Message, IsSendable, IsListening, IsKept, heard, texts, reads, step-frame, after_frame-IsKept,
}

-- `on_read`, with what the new frame's memory holds for its key.
unfoldable pub on_read : Endian → MaskingKey → Bytes → Session → Session
unfolding async_write
on_read e held msg w = async_write e held msg w

abbrev pub on_read_all : Endian → MaskingKey → List Bytes → Session → Session
on_read_all e held [] w = w
on_read_all e held (msg ∷ msgs) w = on_read_all e held msgs (on_read e held msg w)

-- A read ends, and `on_read` is called with what it delivers.
unfoldable pub echo_step : Endian → MaskingKey → ReadEvent → Session → Session
unfolding on_read
echo_step e held event w =
    let w' = step e event w in on_read_all e held (drop (length w.delivered) w'.delivered) w'

unfoldable pub echo_run : Endian → MaskingKey → List ReadEvent → Session → Session
unfolding echo_step
echo_run e held [] w = w
echo_run e held (r ∷ rs) w = echo_run e held rs (echo_step e held r w)

-- Texts as the frames of a server, one behind the other.
abbrev pub frames : List Bytes → Bytes
frames [] = []
frames (text ∷ texts) = server_frame true text_frame text ++ frames texts

-- A text that a frame is built right for.
abbrev pub IsFramed : Bytes → Type 0
IsFramed text = (length text ≢ 65536) × (length text < 2 ^ 64)

pub async_write-frame :
    (e : Endian) (held : MaskingKey) (text : Bytes) (w : Session)
    → IsFramed text
    → async_write e held text w
      ≡ record w { written = w.written ++ server_frame true text_frame text }
unfolding async_write frame_of
async_write-frame e held text w (ne, big) =
    ap (λ bytes. record w { written = w.written ++ bytes })
      (sent-server_frame e (frame_of held text) refl ne big)

on_read_all-frames :
    (e : Endian) (held : MaskingKey) (msgs : List Bytes) (w : Session)
    → All IsFramed msgs
    → on_read_all e held msgs w ≡ record w { written = w.written ++ frames msgs }
unfolding on_read
on_read_all-frames e held [] w h = rw append-nil
on_read_all-frames e held (msg ∷ msgs) w (framed, h) =
    ap (on_read_all e held msgs) (async_write-frame e held msg w framed)
    ∙ on_read_all-frames e held msgs
        (record w { written = w.written ++ server_frame true text_frame msg }) h
    ∙ ap (λ bytes. record w { written = bytes })
        (append_assoc w.written (server_frame true text_frame msg) (frames msgs))

heard-All : (op : OperationCode) (text : Bytes) → IsFramed text → All IsFramed (heard op text)
heard-All text_frame text h = (h, tt)
heard-All _ text h = tt

abbrev pub AreEchoed : List (Message × MaskingKey) → Type 0
AreEchoed [] = Unit
AreEchoed ((m, k0) ∷ ms) = IsSendable m × IsKept m.opcode × (length m.text ≢ 65536) × AreEchoed ms

-- A session that has heard and echoed some texts.
abbrev pub echoed : List Bytes → Session → Session
echoed msgs w = record w {
  pending = some fin_opcode;
  delivered = w.delivered ++ msgs;
  written = w.written ++ frames msgs;
}

echo_step-frame :
    (held : MaskingKey) (m : Message) (k0 : MaskingKey) (w : Session)
    → IsSendable m
    → IsKept m.opcode
    → length m.text ≢ 65536
    → IsListening w
    → echo_step little held (arrived k0 (client_frame m.fin m.opcode m.key m.text [])) w
      ≡ echoed (heard m.opcode m.text) w
unfolding echo_step
echo_step-frame held m k0 w sendable kept ne listening =
    let told = heard m.opcode m.text in
    let w' = record w { pending = some fin_opcode; delivered = w.delivered ++ told } in
    let stepped =
      step-frame m k0 [] w sendable listening
      ∙ after_frame-IsKept m.opcode m.fin m.key m.text w kept in
    ap (λ (t : Session). on_read_all little held (drop (length w.delivered) t.delivered) t) stepped
    ∙ ap (λ msgs. on_read_all little held msgs w') (drop-append w.delivered told)
    ∙ on_read_all-frames little held told w' (heard-All m.opcode m.text (ne, sendable.1))

pub frames-append : (msgs more : List Bytes) → frames (msgs ++ more) ≡ frames msgs ++ frames more
frames-append [] more = refl
frames-append (msg ∷ msgs) more =
    ap (λ bytes. server_frame true text_frame msg ++ bytes) (frames-append msgs more)
    ∙ sym (append_assoc (server_frame true text_frame msg) (frames msgs) (frames more))

echoed-frames :
    (msgs more : List Bytes) (w : Session) → echoed more (echoed msgs w) ≡ echoed (msgs ++ more) w
echoed-frames msgs more w =
    rw
      (
        frames-append msgs more,
        append_assoc w.delivered msgs more,
        append_assoc w.written (frames msgs) (frames more),
      )
      refl

-- Text, ping and pong frames with payloads, none of just 65536 bytes, that arrive one to a read at a
-- session whose handshake is done: each text is written back, all of them, in order, each in a frame as
-- RFC 6455 lays it out, and nothing else; the session listens on.
pub run-echoed :
    (held : MaskingKey) (ms : List (Message × MaskingKey)) (w : Session)
    → AreEchoed ms
    → IsListening w
    → echo_run little held (reads ms) w ≡ echoed (texts ms) w
unfolding echo_run
run-echoed held [] w h listening =
    rw (append-nil w.delivered, append-nil w.written) (λ i. record w { pending = listening i })
run-echoed held ((m, k0) ∷ ms) w (sendable, kept, ne, h) listening =
    ap (echo_run little held (reads ms)) (echo_step-frame held m k0 w sendable kept ne listening)
    ∙ run-echoed held ms (echoed (heard m.opcode m.text) w) h refl
    ∙ echoed-frames (heard m.opcode m.text) (texts ms) w

-- ===== src/Examples/EchoServer.antt =====
-- my_session of the echo server of one protocol (examples/mono_protocol_echo/echo_server/server.cpp).
use splitsen.Base.{
  Bool, true, false, List, [], ◌∷◌, ◌++◌, Bytes, append_assoc, append-nil, ◌≡◌, sym, ap, ◌∙◌,
}
use splitsen.Tcp.{on_error}
use splitsen.Tcp.Strings
use splitsen.Tcp.Strings.{
  StringSession, over_socket, async_read_string, async_write, Derived, Event, read, wrote, run,
  dispatch, end_read, end_write, on_async_read_string,
}

-- `on_write` asks for the next string whatever the error is; no handshake is done.
unfoldable pub my_session : Derived
unfolding async_read_string async_write Strings.on_first_read
my_session = record {
  try_handshake = λ d. false;
  on_handshake_success = λ s. s;
  on_first_read = λ error bytes s. Strings.on_first_read error bytes s;
  on_read_string = λ msg s. async_write msg s;
  on_write = λ error s. async_read_string s;
}

-- `on_socket_connected`
abbrev pub on_socket_connected : StringSession → StringSession
on_socket_connected s = async_read_string s

-- A string is read and its echo written, for each string in turn, with or without an error of the write.
abbrev pub exchanges : List (Bytes × Bool) → List Event
exchanges [] = []
exchanges ((m, error) ∷ ms) = read false m ∷ wrote error ∷ exchanges ms

abbrev pub strings : List (Bytes × Bool) → List Bytes
strings [] = []
strings ((m, error) ∷ ms) = m ∷ strings ms

-- A session that has echoed `w` and waits for the next string.
abbrev pub waiting : List Bytes → StringSession
waiting w = record over_socket { reads = 1; written = w }

run-waiting :
    (ms : List (Bytes × Bool)) (more : List Event) (w : List Bytes)
    → run my_session (exchanges ms ++ more) (waiting w)
      ≡ run my_session more (waiting (w ++ strings ms))
unfolding my_session run dispatch end_read end_write on_async_read_string async_read_string
    async_write
run-waiting [] more w = ap (λ l. run my_session more (waiting l)) (sym (append-nil w))
run-waiting ((m, error) ∷ ms) more w =
    run-waiting ms more (w ++ m ∷ [])
    ∙ ap (λ l. run my_session more (waiting l)) (append_assoc w (m ∷ []) (strings ms))

-- A client sends any strings, each once the one before was echoed, and the last read ends with an
-- error, as when the client goes away: every string was written back, in order, whether the writes
-- ended with an error or not, nothing is under way any more, and the socket is closed, with
-- `on_shutdown` called once.
pub run-echo :
    (ms : List (Bytes × Bool)) (bytes : Bytes)
    → run my_session (exchanges ms ++ read true bytes ∷ []) (on_socket_connected over_socket)
      ≡ record over_socket {
        tcp = record { is_open = false; shutdowns = 1; errors = 1 };
        written = strings ms;
      }
unfolding my_session run dispatch end_read on_async_read_string async_read_string on_error
run-echo ms bytes = run-waiting ms (read true bytes ∷ []) []

-- ===== src/Examples/EchoClient.antt =====
-- The client of the echo server of one protocol (examples/mono_protocol_echo/echo_client/client.cpp). The
-- resolver and the connecting are calls of Boost.Asio, and what is typed in is an argument.
use splitsen.Base.{Bool, true, false, List, [], ◌∷◌, ◌++◌, Bytes, codes, take, ◌≡◌, refl}
use splitsen.Http.RequestHandler.{c_str}
use splitsen.Tcp.Strings.{
  StringSession, over_socket, async_read_string, async_write, Derived, Event, wrote, run, dispatch,
  end_write,
}
use splitsen.Tcp.Strings

-- The address and the port; `args` are the arguments behind the program's name.
abbrev pub endpoint : List Bytes → Bytes × Bytes
endpoint (address ∷ port ∷ []) = (address, port)
endpoint args = (codes "localhost", codes "7777")

-- The session of the client: `on_write` only prints. It tries no handshake and reads nothing.
unfoldable pub my_session : Derived
unfolding Strings.on_first_read
my_session = record {
  try_handshake = λ d. false;
  on_handshake_success = λ s. s;
  on_first_read = λ error bytes s. Strings.on_first_read error bytes s;
  on_read_string = λ msg s. s;
  on_write = λ error s. s;
}

-- `type_in`: `getline` into 1024 chars, and `strlen`.
unfoldable pub type_in : Bytes → StringSession → StringSession
unfolding c_str async_write
type_in line s = async_write (c_str (take 1023 line)) s

-- What `on_write` prints.
abbrev pub printed : Bool → Bytes → Bytes
printed false message = codes "Succesfully sent\n"
printed true message = codes "Failed to send: " ++ (message ++ codes "\n")

-- Whether the write ends with an error or not, nothing is under way any more after it, so that the
-- io_service has nothing left to run, and the one string is all that is written.
run-type_in :
    (line : Bytes) (error : Bool)
    → run my_session (wrote error ∷ []) (type_in line over_socket)
      ≡ record over_socket { written = c_str (take 1023 line) ∷ [] }
unfolding my_session run dispatch end_write type_in async_write
run-type_in line error = refl

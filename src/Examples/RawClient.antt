-- ===== src/Examples/RawClient.antt =====
-- The client that speaks to my_tcp_session of the server of several protocols
-- (examples/multi_protocol_echo/raw_client/raw_client.cpp), and what the two say to each other.
use splitsen.Base.{
  ℕ, ◌≤◌, ◌≡◌, refl, ap, false, List, [], ◌∷◌, ◌++◌, Bytes, Option, none, some, codes, length,
  length-append, take, ltb, ge→ltb, if◌then◌else◌, arith,
}
use splitsen.Handshake.{contains}
use splitsen.Http.Chars.{is_refused}
use splitsen.Http.RequestHandler.{c_str}
use splitsen.Tcp.Strings
use splitsen.Tcp.Strings.{
  StringSession, over_socket, async_write, run, dispatch, end_read, on_async_read_string,
}
use splitsen.WebSocket.Frame.{MaskingKey}
use splitsen.WebSocket.Handshake
use splitsen.Protocol.Chain.{taken}
use splitsen.Examples.TcpSession.{my_tcp_session}
use splitsen.Examples.MultiEcho.{World, in_tcp, routed, serve}
use splitsen.Examples.MultiEcho.Raw.{serve-raw}

-- The address and the port; `args` are the arguments behind the program's name.
abbrev pub endpoint : Bytes → List Bytes → Bytes × Bytes
endpoint host_name (address ∷ port ∷ []) = (address, port)
endpoint host_name args = (host_name, codes "7777")

-- `handshake`
abbrev pub client_guid : Bytes
client_guid = codes "{21BB758F-BC6A-42C4-92B1-6B5332CEAEBF}"

-- `getline` into 1024 chars, and `strlen`: what of a line is sent.
unfoldable pub request_of : Bytes → Bytes
unfolding c_str
request_of line = c_str (take 1023 line)

-- The two writes
unfoldable pub written : Bytes → List Bytes
unfolding request_of
written line = client_guid ∷ request_of line ∷ []

-- `boost::asio::read` of a number of bytes: it throws if the connection ends before.
abbrev pub read_exactly : ℕ → Bytes → Option Bytes
read_exactly n bytes = if ltb (length bytes) n then none else some (take n bytes)

-- What is printed as the reply, of the bytes that come back.
unfoldable pub reply_of : Bytes → Bytes → Option Bytes
unfolding request_of
reply_of line bytes = read_exactly (length (request_of line)) bytes

-- All strings of a session, one behind the other.
abbrev pub stream_of : List Bytes → Bytes
stream_of [] = []
stream_of (msg ∷ msgs) = msg ++ stream_of msgs

take_whole : (xs : Bytes) → take (length xs) (xs ++ []) ≡ xs
take_whole [] = refl
take_whole (x ∷ xs) = ap (λ l. x ∷ l) (take_whole xs)

read_exactly-whole : (xs : Bytes) → read_exactly (length xs) (xs ++ []) ≡ some xs
read_exactly-whole xs =
    let enough : length xs ≤ length (xs ++ []) = omega (arith, length-append xs []) in
    rw (ge→ltb (length (xs ++ [])) (length xs) enough, take_whole xs) refl

reply_of-request_of :
    (line : Bytes) → reply_of line (request_of line ++ []) ≡ some (request_of line)
unfolding reply_of
reply_of-request_of line = read_exactly-whole (request_of line)

module _ {Msg : Type 0} (world : World Msg) (held : MaskingKey) where
  -- The client's first write as the first read of a connection, and its second as the next read: the
  -- connection is with my_tcp_session, which writes what was sent back, and that is what the client
  -- prints as the reply.
  pub reply_of-serve :
      (line : Bytes)
      → (s : StringSession) × (serve world (Handshake.read false held client_guid ∷ [])
          ≡ routed (taken 0 (in_tcp s)))
        × (reply_of line
              (stream_of (run my_tcp_session (Strings.read false (request_of line) ∷ []) s).written)
            ≡ some (request_of line))
  unfolding my_tcp_session run dispatch end_read on_async_read_string async_write is_refused
      contains
  reply_of-serve line = (
    record over_socket { reads = 1 },
    serve-raw world held b'{' (codes "21BB758F-BC6A-42C4-92B1-6B5332CEAEBF}") refl refl,
    reply_of-request_of line,
  )

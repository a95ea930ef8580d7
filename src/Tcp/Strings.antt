-- ===== src/Tcp/Strings.antt =====
-- The operations of tcp_session (splice/tcp_session.hxx) on strings, and its handshake. What a derived
-- class defines is a parameter.
use splitsen.Base.{
  ℕ, zero, suc, ◌+◌, Bool, true, false, List, [], ◌∷◌, ◌++◌, Bytes, Option, none, some,
  if◌then◌else◌,
}
use splitsen.Tcp.{TcpSession, connected, on_error}
use splitsen.Handshake.{HandShakeData}

-- `first_reads` counts the reads that are under way for `on_first_read`, `reads` the others;
-- `unwritten` has the strings whose write is, `written` all that `async_write` was called with, and
-- `handed_on` what `handshake_fail` was.
pub record StringSession : Type 0 where
  pub tcp : TcpSession
  pub first_reads : ℕ
  pub reads : ℕ
  pub unwritten : List Bytes
  pub written : List Bytes
  pub handed_on : Option HandShakeData

-- A session over a socket that was just connected, or that another one handed on.
abbrev pub over_socket : StringSession
over_socket = record {
  tcp = connected;
  first_reads = 0;
  reads = 0;
  unwritten = [];
  written = [];
  handed_on = none;
}

unfoldable pub on_socket_connected : StringSession → StringSession
on_socket_connected s = record s { first_reads = s.first_reads + 1 }

unfoldable pub async_read_string : StringSession → StringSession
async_read_string s = record s { reads = s.reads + 1 }

unfoldable pub async_write : Bytes → StringSession → StringSession
async_write msg s = record s {
  unwritten = s.unwritten ++ msg ∷ [];
  written = s.written ++ msg ∷ [];
}

abbrev pub on_error_code : StringSession → StringSession
on_error_code s = record s { tcp = on_error s.tcp }

-- The functions that a derived class has: its own, or for `on_write` and `on_first_read` those of
-- tcp_session.
pub record Derived : Type 0 where
  pub try_handshake : HandShakeData → Bool
  pub on_handshake_success : StringSession → StringSession
  pub on_first_read : Bool → Bytes → StringSession → StringSession
  pub on_read_string : Bytes → StringSession → StringSession
  pub on_write : Bool → StringSession → StringSession

-- tcp_session's own
unfoldable pub on_write : Bool → StringSession → StringSession
unfolding on_error
on_write true s = on_error_code s
on_write false s = s

-- tcp_session's own, in a server of several protocols: no more than the error is looked at.
unfoldable pub on_first_read : Bool → Bytes → StringSession → StringSession
unfolding on_error
on_first_read true bytes s = on_error_code s
on_first_read false bytes s = s

-- What the socket reports: the end of a first read, of another read, of a write.
pub data Event : Type 0 where
  first_read : Bool → Bytes → Event
  read : Bool → Bytes → Event
  wrote : Bool → Event

module _ (up : Derived) where
  unfoldable pub on_async_read_string : Bool → Bytes → StringSession → StringSession
  unfolding on_error
  on_async_read_string true bytes s = on_error_code s
  on_async_read_string false bytes s = up.on_read_string bytes s

  unfoldable pub handshake : HandShakeData → StringSession → StringSession
  handshake incoming s =
      if up.try_handshake incoming
      then up.on_handshake_success s
      else record s { handed_on = some incoming }

  -- A first read that is under way ends, with as many left.
  unfoldable pub end_first_read : ℕ → Bool → Bytes → StringSession → StringSession
  end_first_read zero error bytes s = s
  end_first_read (suc n) error bytes s = up.on_first_read error bytes (record s { first_reads = n })

  -- A read that is under way ends, with as many left.
  unfoldable pub end_read : ℕ → Bool → Bytes → StringSession → StringSession
  unfolding on_async_read_string
  end_read zero error bytes s = s
  end_read (suc n) error bytes s = on_async_read_string error bytes (record s { reads = n })

  -- The first write that is under way ends.
  unfoldable pub end_write : List Bytes → Bool → StringSession → StringSession
  end_write [] error s = s
  end_write (msg ∷ msgs) error s = up.on_write error (record s { unwritten = msgs })

  unfoldable pub dispatch : Event → StringSession → StringSession
  unfolding end_first_read end_read end_write
  dispatch (first_read error bytes) s = end_first_read s.first_reads error bytes s
  dispatch (read error bytes) s = end_read s.reads error bytes s
  dispatch (wrote error) s = end_write s.unwritten error s

  unfoldable pub run : List Event → StringSession → StringSession
  unfolding dispatch
  run [] s = s
  run (e ∷ es) s = run es (dispatch e s)

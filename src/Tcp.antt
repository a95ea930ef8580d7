-- ===== src/Tcp.antt =====
-- tcp_session (splice/tcp_session.hxx), as far as errors and the end of a connection go: whether the
-- socket is open, and what the session was told. The socket's own shutdown and close are calls of
-- Boost.Asio: what matters here is that the socket is not open after them.
pub mod Strings
use splitsen.Base.{ℕ, ◌+◌, Bool, true, false, if◌then◌else◌}

pub record TcpSession : Type 0 where
  pub is_open : Bool
  pub shutdowns : ℕ
  pub errors : ℕ

-- A session over a connected socket.
abbrev pub connected : TcpSession
connected = record { is_open = true; shutdowns = 0; errors = 0 }

-- `shutdown`: nothing on a closed socket; else the socket is closed, and `on_shutdown` called.
unfoldable pub shutdown : TcpSession → TcpSession
shutdown t = if t.is_open then record t { is_open = false; shutdowns = t.shutdowns + 1 } else t

-- `get_socket().close()`, without `on_shutdown`.
abbrev pub close : TcpSession → TcpSession
close t = record t { is_open = false }

-- `on_error` and `on_error_code`, which differ in the text that they log.
unfoldable pub on_error : TcpSession → TcpSession
unfolding shutdown
on_error t = shutdown (record t { errors = t.errors + 1 })

-- ===== src/Protocol.antt =====
-- The accept loop of a server, mono_protocol and multi_protocol (splice/mono_protocol.hxx and
-- splice/multi_protocol.hxx): how many accepts wait, how many sessions were told that their socket is
-- connected, and how many errors the server was told. Nothing of the program closes the acceptor: it is
-- open or not from the server's constructor on.
pub mod Accepting
pub mod Chain
pub mod Server
use splitsen.Base.{
  ℕ, zero, suc, ◌+◌, Bool, true, false, List, [], ◌∷◌, Option, none, some, if◌then◌else◌,
}

pub record Acceptor : Type 0 where
  pub is_open : Bool
  pub waiting : ℕ
  pub connected : ℕ
  pub errors : ℕ

-- What `async_accept` reports: its error, and whether the session's socket is open.
pub record Accept : Type 0 where
  pub error : Bool
  pub socket_is_open : Bool

-- The acceptor of a server whose constructor could open it.
abbrev pub opened : Acceptor
opened = record { is_open = true; waiting = 0; connected = 0; errors = 0 }

unfoldable pub start_accept : Acceptor → Acceptor
start_accept a = if a.is_open then record a { waiting = a.waiting + 1 } else a

-- `if(!error)` of both `on_accept`
abbrev pub tell : Bool → Acceptor → Acceptor
tell true a = record a { errors = a.errors + 1 }
tell false a = record a { connected = a.connected + 1 }

-- mono_protocol
unfoldable pub on_accept : Accept → Acceptor → Acceptor
unfolding start_accept
on_accept e a = if a.is_open then start_accept (tell e.error a) else a

-- multi_protocol, whose assertion on the socket comes before the error is looked at: `none` if it fails.
unfoldable pub on_accept_multi : Accept → Acceptor → Option Acceptor
unfolding start_accept
on_accept_multi e a =
    if a.is_open
    then (if e.socket_is_open then some (start_accept (tell e.error a)) else none)
    else some a

-- An accept that waits ends.
unfoldable pub dispatch_to : ℕ → Accept → Acceptor → Acceptor
unfolding on_accept
dispatch_to zero e a = a
dispatch_to (suc n) e a = on_accept e (record a { waiting = n })

unfoldable pub run : List Accept → Acceptor → Acceptor
unfolding dispatch_to
run [] a = a
run (e ∷ es) a = run es (dispatch_to a.waiting e a)

unfoldable pub dispatch_to_multi : ℕ → Accept → Acceptor → Option Acceptor
unfolding on_accept_multi
dispatch_to_multi zero e a = some a
dispatch_to_multi (suc n) e a = on_accept_multi e (record a { waiting = n })

abbrev pub then_run : Option Acceptor → (Acceptor → Option Acceptor) → Option Acceptor
then_run none k = none
then_run (some a) k = k a

unfoldable pub run_multi : List Accept → Acceptor → Option Acceptor
unfolding dispatch_to_multi
run_multi [] a = some a
run_multi (e ∷ es) a = then_run (dispatch_to_multi a.waiting e a) (λ a'. run_multi es a')

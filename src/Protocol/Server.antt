-- ===== src/Protocol/Server.antt =====
-- ez_server (splice/server.hxx): what its constructor leaves, and in how many threads it runs.
use splitsen.Protocol.{Acceptor}
use splitsen.Base.{
  Option, none, some, ◌||◌, ℕ, Bool, true, false, not, ◌==◌, if◌then◌else◌, ◌≡◌, refl,
}

-- The constructor, with whether each call ends with an error. What `resolve` gives is dereferenced before
-- its error is looked at: `none`, undefined, if there was one. An acceptor that could be opened stays
-- open whatever fails after that.
unfoldable pub ez_server : Bool → Bool → Bool → Bool → Bool → Option Acceptor
ez_server true open_fails set_option_fails bind_fails listen_fails = none
ez_server false open_fails set_option_fails bind_fails listen_fails = some (record {
  is_open = not open_fails;
  waiting = 0;
  connected = 0;
  errors = if open_fails || set_option_fails || bind_fails || listen_fails then 1 else 0;
})

-- What runs the io_service, and how many threads `on_run` is told of.
pub data Running : Type 0 where
  in_this_thread : ℕ → Running
  in_threads : ℕ → Running

-- `hardware` is what `hardware_concurrency` gives.
abbrev pub default_count : ℕ → ℕ
default_count hardware = if not (hardware == 0) then hardware else 1

-- `thread_count=1` is an assignment: the count after it, and its value as a condition.
abbrev pub assign_one : ℕ → ℕ × Bool
assign_one thread_count = (1, true)

abbrev pub run_threads : ℕ × Bool → Running
run_threads (thread_count, true) = in_this_thread 1
run_threads (thread_count, false) = in_threads thread_count

unfoldable pub run : ℕ → ℕ → Running
run hardware thread_count =
    run_threads (assign_one (if thread_count == 0 then default_count hardware else thread_count))

-- Whatever is asked for, the server runs in the thread that called it.
run-in_this_thread : (hardware thread_count : ℕ) → run hardware thread_count ≡ in_this_thread 1
unfolding run
run-in_this_thread hardware thread_count = refl

-- ===== src/Examples/TcpSession.antt =====
-- my_tcp_session of the echo server of several protocols
-- (examples/multi_protocol_echo/server/my_tcp_session.hpp).
use splitsen.Base.{
  ℕ, zero, suc, ◌+◌, ◌≤◌, Bool, true, false, List, [], ◌∷◌, Bytes, codes, length, length-append,
  Bool-cases, inl, inr, arith,
}
use splitsen.Handshake.{HandShakeData}
use splitsen.Http.MimeTypes.{same_bytes}
use splitsen.Tcp.Strings
use splitsen.Tcp.Strings.{
  StringSession, over_socket, async_read_string, async_write, Derived, Event, first_read,
  end_first_read, read, wrote, run, handshake, dispatch, end_read, end_write, on_async_read_string,
}

abbrev pub guid : Bytes
guid = codes "{21BB758F-BC6A-42C4-92B1-6B5332CEAEBF}"

-- `on_write` and `on_first_read` are those of tcp_session.
unfoldable pub my_tcp_session : Derived
unfolding async_read_string async_write Strings.on_write Strings.on_first_read
my_tcp_session = record {
  try_handshake = λ incoming. same_bytes guid incoming.data_string;
  on_handshake_success = λ s. async_read_string s;
  on_first_read = λ error bytes s. Strings.on_first_read error bytes s;
  on_read_string = λ msg s. async_write msg s;
  on_write = λ error s. Strings.on_write error s;
}

-- What is still to be read and what was written are one string together, at most.
abbrev IsOnce : StringSession → Type 0
IsOnce s = s.reads + length s.written ≤ 1

end_read-IsOnce :
    (n : ℕ) (error : Bool) (bytes : Bytes) (s : StringSession)
    → n + length s.written ≤ 1
    → IsOnce s
    → IsOnce (end_read my_tcp_session n error bytes s)
unfolding my_tcp_session end_read on_async_read_string async_write
end_read-IsOnce zero error bytes s n h = h
end_read-IsOnce (suc n) true bytes s m h = omega (arith, m)
end_read-IsOnce (suc n) false bytes s m h =
    rw (length-append s.written (bytes ∷ [])) (omega (arith, m))

end_write-IsOnce :
    (msgs : List Bytes) (error : Bool) (s : StringSession)
    → IsOnce s
    → IsOnce (end_write my_tcp_session msgs error s)
unfolding my_tcp_session end_write Strings.on_write
end_write-IsOnce [] error s h = h
end_write-IsOnce (m ∷ ms) true s h = h
end_write-IsOnce (m ∷ ms) false s h = h

end_first_read-IsOnce :
    (n : ℕ) (error : Bool) (bytes : Bytes) (s : StringSession)
    → IsOnce s
    → IsOnce (end_first_read my_tcp_session n error bytes s)
unfolding my_tcp_session end_first_read Strings.on_first_read
end_first_read-IsOnce zero error bytes s h = h
end_first_read-IsOnce (suc n) true bytes s h = h
end_first_read-IsOnce (suc n) false bytes s h = h

run-IsOnce :
    (events : List Event) (s : StringSession) → IsOnce s → IsOnce (run my_tcp_session events s)
unfolding run dispatch
run-IsOnce [] s h = h
run-IsOnce (first_read error bytes ∷ es) s h =
    run-IsOnce es _ (end_first_read-IsOnce s.first_reads error bytes s h)
run-IsOnce (read error bytes ∷ es) s h = run-IsOnce es _ (end_read-IsOnce s.reads error bytes s h h)
run-IsOnce (wrote error ∷ es) s h = run-IsOnce es _ (end_write-IsOnce s.unwritten error s h)

-- Whatever data it is handed, and whatever reads and writes end with or without errors after the
-- handshake, in whatever order: the session writes back at most one string in all.
pub run-once :
    (d : HandShakeData) (events : List Event)
    → length (run my_tcp_session events (handshake my_tcp_session d over_socket)).written ≤ 1
unfolding my_tcp_session handshake async_read_string
run-once d events = elim (Bool-cases (same_bytes guid d.data_string)) [
  | inl taken ↦
      let once =
        run-IsOnce events (handshake my_tcp_session d over_socket) (rw taken (omega arith)) in
      omega (arith, once)
  | inr refused ↦
      let once =
        run-IsOnce events (handshake my_tcp_session d over_socket) (rw refused (omega arith)) in
      omega (arith, once)
]

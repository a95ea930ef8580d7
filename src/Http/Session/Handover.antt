-- ===== src/Http/Session/Handover.antt =====
-- What an http_session that hands its socket on has done to it.
use splitsen.Base.{
  ℕ, true, false, List, [], ◌∷◌, Bytes, Option, none, some, Bool-cases, inl, inr, ◌≡◌,
}
use splitsen.Stream.{is_true, is_false, indeterminate, Parsed, parsed, crashed}
use splitsen.Handshake.{HandShakeData, contains}
use splitsen.Http.Parser.{RequestParser, parse_request}
use splitsen.Http.Session.{
  ErrorCode, success, operation_aborted, other_error, Pending, first_read, next_read, write, idle,
  HttpSession, websocket_key, write_reply, answer, on_first_parsed, on_parsed, on_first_read,
  handle_read, handle_write, Event, read, wrote, dispatch_to, dispatch, run,
}

-- Nothing was written on the socket, and it is open.
abbrev pub IsUntouched : HttpSession → Type 0
IsUntouched s = (s.written ≡ []) × ((s.tcp.is_open ≡ true) × (s.is_shut_down ≡ false))

-- While a read is waited for the socket is untouched and not handed on; while the write is, it is
-- not handed on; and a socket that was handed on is untouched.
IsFaithfulAt : Pending → Option HandShakeData → HttpSession → Type 0
IsFaithfulAt first_read h s = (h ≡ none) × IsUntouched s
IsFaithfulAt next_read h s = (h ≡ none) × IsUntouched s
IsFaithfulAt write h s = h ≡ none
IsFaithfulAt idle none s = Unit
IsFaithfulAt idle (some d) s = IsUntouched s

IsFaithful : HttpSession → Type 0
unfolding IsFaithfulAt
IsFaithful s = IsFaithfulAt s.pending s.handed_on s

idle-IsFaithful : (h : Option HandShakeData) (s : HttpSession) → h ≡ none → IsFaithfulAt idle h s
unfolding IsFaithfulAt
idle-IsFaithful none s e = tt
idle-IsFaithful (some d) s e = absurd cc

module _ (lexical_cast : ℕ → Bytes) (open_file : Bytes → Option Bytes) (doc_root : Bytes) where
  on_first_parsed-IsFaithful :
      (bytes : Bytes) (r : Parsed RequestParser) (s : HttpSession)
      → s.handed_on ≡ none
      → IsUntouched s
      → IsFaithful (on_first_parsed lexical_cast open_file doc_root bytes r s)
  unfolding IsFaithful IsFaithfulAt on_first_parsed answer write_reply
  on_first_parsed-IsFaithful bytes (parsed is_true p rest) s h u = h
  on_first_parsed-IsFaithful bytes (parsed is_false p rest) s h u = u
  on_first_parsed-IsFaithful bytes (parsed indeterminate p rest) s h u = (h, u)
  on_first_parsed-IsFaithful bytes (crashed f) s h u =
      idle-IsFaithful s.handed_on (record s { pending = idle; fault = some f }) h

  on_first_read-IsFaithful :
      (e : ErrorCode) (bytes : Bytes) (s : HttpSession)
      → s.handed_on ≡ none
      → IsUntouched s
      → IsFaithful (on_first_read lexical_cast open_file doc_root e bytes s)
  unfolding IsFaithful IsFaithfulAt on_first_read
  on_first_read-IsFaithful success bytes s h u = elim (Bool-cases (contains websocket_key bytes)) [
    | inl key ↦ rw key u
    | inr plain ↦ rw plain (on_first_parsed-IsFaithful bytes (parse_request s.parser bytes) s h u)
  ]
  on_first_read-IsFaithful operation_aborted bytes s h u =
      idle-IsFaithful s.handed_on (record s { pending = idle }) h
  on_first_read-IsFaithful other_error bytes s h u = idle-IsFaithful s.handed_on _ h

  on_parsed-IsFaithful :
      (r : Parsed RequestParser) (s : HttpSession)
      → s.handed_on ≡ none
      → IsUntouched s
      → IsFaithful (on_parsed lexical_cast open_file doc_root r s)
  unfolding IsFaithful IsFaithfulAt on_parsed answer write_reply
  on_parsed-IsFaithful (parsed is_true p rest) s h u = h
  on_parsed-IsFaithful (parsed is_false p rest) s h u = h
  on_parsed-IsFaithful (parsed indeterminate p rest) s h u = (h, u)
  on_parsed-IsFaithful (crashed f) s h u = idle-IsFaithful s.handed_on _ h

  handle_read-IsFaithful :
      (e : ErrorCode) (bytes : Bytes) (s : HttpSession)
      → s.handed_on ≡ none
      → IsUntouched s
      → IsFaithful (handle_read lexical_cast open_file doc_root e bytes s)
  unfolding IsFaithful handle_read
  handle_read-IsFaithful success bytes s h u =
      on_parsed-IsFaithful (parse_request s.parser bytes) s h u
  handle_read-IsFaithful operation_aborted bytes s h u = idle-IsFaithful s.handed_on _ h
  handle_read-IsFaithful other_error bytes s h u = idle-IsFaithful s.handed_on _ h

  handle_write-IsFaithful :
      (e : ErrorCode) (s : HttpSession)
      → s.handed_on ≡ none
      → IsFaithful (handle_write lexical_cast open_file doc_root e s)
  unfolding IsFaithful handle_write
  handle_write-IsFaithful success s h = idle-IsFaithful s.handed_on _ h
  handle_write-IsFaithful operation_aborted s h = idle-IsFaithful s.handed_on _ h
  handle_write-IsFaithful other_error s h = idle-IsFaithful s.handed_on _ h

  dispatch_to-IsFaithful :
      (p : Pending) (event : Event) (s : HttpSession)
      → IsFaithful s
      → IsFaithfulAt p s.handed_on s
      → IsFaithful (dispatch_to lexical_cast open_file doc_root p event s)
  unfolding IsFaithfulAt dispatch_to
  dispatch_to-IsFaithful first_read (read e bytes) s f at =
      on_first_read-IsFaithful e bytes s at.0 at.1
  dispatch_to-IsFaithful first_read (wrote e) s f at = f
  dispatch_to-IsFaithful next_read (read e bytes) s f at =
      handle_read-IsFaithful e bytes s at.0 at.1
  dispatch_to-IsFaithful next_read (wrote e) s f at = f
  dispatch_to-IsFaithful write (read e bytes) s f at = f
  dispatch_to-IsFaithful write (wrote e) s f at = handle_write-IsFaithful e s at
  dispatch_to-IsFaithful idle (read e bytes) s f at = f
  dispatch_to-IsFaithful idle (wrote e) s f at = f

  run-IsFaithful :
      (events : List Event) (s : HttpSession)
      → IsFaithful s
      → IsFaithful (run lexical_cast open_file doc_root events s)
  unfolding run dispatch IsFaithful
  run-IsFaithful [] s f = f
  run-IsFaithful (e ∷ es) s f = run-IsFaithful es _ (dispatch_to-IsFaithful s.pending e s f f)

  IsFaithfulAt-some :
      (p : Pending) (h : Option HandShakeData) (s : HttpSession) (d : HandShakeData)
      → IsFaithfulAt p h s
      → h ≡ some d
      → IsUntouched s
  unfolding IsFaithfulAt
  IsFaithfulAt-some first_read h s d f e = absurd cc
  IsFaithfulAt-some next_read h s d f e = absurd cc
  IsFaithfulAt-some write h s d f e = absurd cc
  IsFaithfulAt-some idle none s d f e = absurd cc
  IsFaithfulAt-some idle (some c) s d f e = f

  -- Whatever a session that waits for its first read on an open socket is told, in whatever order:
  -- if it has handed its socket on, it has written nothing on it, nor shut it down or closed it.
  pub run-IsUntouched :
      (events : List Event) (s : HttpSession) (d : HandShakeData)
      → s.pending ≡ first_read
      → s.handed_on ≡ none
      → IsUntouched s
      → (run lexical_cast open_file doc_root events s).handed_on ≡ some d
      → IsUntouched (run lexical_cast open_file doc_root events s)
  unfolding IsFaithful IsFaithfulAt
  run-IsUntouched events s d waits h u handed =
      let start : IsFaithful s = rw waits (h, u) in
      IsFaithfulAt-some _ _ _ d (run-IsFaithful events s start) handed

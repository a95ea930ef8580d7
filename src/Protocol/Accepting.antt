-- ===== src/Protocol/Accepting.antt =====
-- A server goes on accepting.
use splitsen.Base.{
  ℕ, ◌+◌, Bool, Bool-cases, inl, inr, true, false, List, [], ◌∷◌, none, some, if◌then◌else◌, ◌≡◌,
  refl, ap, ◌∙◌, arith,
}
use splitsen.Protocol.{
  Acceptor, Accept, opened, start_accept, on_accept, on_accept_multi, dispatch_to, run,
  dispatch_to_multi, run_multi,
}

-- Some ends of accepts, with an error or without one.
abbrev pub count : Bool → List Accept → ℕ
count b [] = 0
count true (e ∷ es) = if e.error then count true es + 1 else count true es
count false (e ∷ es) = if e.error then count false es else count false es + 1

-- No assertion on a socket fails.
abbrev pub all_open : List Accept → Bool
all_open [] = true
all_open (e ∷ es) = if e.socket_is_open then all_open es else false

abbrev pub accepting : ℕ → ℕ → Acceptor
accepting connected errors = record {
  is_open = true;
  waiting = 1;
  connected = connected;
  errors = errors;
}

same_counts : (c c' r r' : ℕ) → c ≡ c' → r ≡ r' → accepting c r ≡ accepting c' r'
same_counts c c' r r' e f = rw (e, f) refl

run-accepting :
    (es : List Accept) (c r : ℕ)
    → run es (accepting c r) ≡ accepting (c + count false es) (r + count true es)
unfolding run dispatch_to on_accept start_accept
run-accepting [] c r = same_counts _ _ _ _ (omega arith) (omega arith)
run-accepting (e ∷ es) c r = elim (Bool-cases e.error) [
  | inl h ↦ rw h (run-accepting es c (r + 1) ∙ same_counts _ _ _ _ (omega arith) (omega arith))
  | inr h ↦ rw h (run-accepting es (c + 1) r ∙ same_counts _ _ _ _ (omega arith) (omega arith))
]

run_multi-run :
    (es : List Accept) (c r : ℕ)
    → run_multi es (accepting c r) ≡ (if all_open es then some (run es (accepting c r)) else none)
unfolding run run_multi dispatch_to dispatch_to_multi on_accept on_accept_multi start_accept
run_multi-run [] c r = refl
run_multi-run (e ∷ es) c r = elim (Bool-cases e.socket_is_open) [
  | inr shut ↦ rw shut refl
  | inl fine ↦ rw fine (elim (Bool-cases e.error) [
    | inl h ↦ rw h (run_multi-run es c (r + 1))
    | inr h ↦ rw h (run_multi-run es (c + 1) r)
  ])
]

-- A server whose acceptor is open, after any number of accepts that ended with an error or without:
-- just one accept waits, as many sessions were told of their socket as accepts ended without an
-- error, and the server was told of as many errors as there were. A server of several protocols is
-- in the same state, unless the socket of one of the sessions was not open, with an error or
-- without, where an assertion fails.
pub run-accepts :
    (es : List Accept)
    → (run es (start_accept opened) ≡ accepting (count false es) (count true es))
      × (run_multi es (start_accept opened)
          ≡ (if all_open es then some (accepting (count false es) (count true es)) else none))
unfolding start_accept
run-accepts es =
    let counts =
      run-accepting es 0 0
      ∙ same_counts (0 + count false es) (count false es) (0 + count true es) (count true es)
          (omega arith) (omega arith) in
    (counts, run_multi-run es 0 0 ∙ ap (λ a. if all_open es then some a else none) counts)

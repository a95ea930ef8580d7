-- ===== src/Serialization/Engine/Equivalence.antt =====
-- serialization_engine does what serialization_session does.
use splitsen.Base.{
  ℕ, Bool, true, false, List, [], ◌∷◌, Bytes, Option, length, leb, ◌==◌, if◌then◌else◌, Bool-cases,
  Option-cases, inl, inr, ◌≡◌, refl, ap, ◌∙◌,
}
use splitsen.Tcp.{on_error}
use splitsen.Serialization
use splitsen.Serialization.{
  Waiting, for_header, for_data, nothing, SerializationSession, ReadEvent, failed, arrived, Step,
  write, wrote, ask, transferred, vector_limit, format_header, read_size,
}
use splitsen.Serialization.Engine.{
  Awaited, a_header, bytes_of_data, no_read, SerializationEngine, async_write_struct,
  on_write_struct, async_read, on_read_header, on_read_data, read_ends, step, run,
}

abbrev pub to_waiting : Awaited → Waiting
to_waiting a_header = for_header
to_waiting (bytes_of_data n) = for_data n
to_waiting no_read = nothing

-- The same session, as serialization_session has it.
abbrev pub to_session : {Msg : Type 0} → SerializationEngine Msg → SerializationSession Msg
to_session s = record {
  tcp = s.tcp;
  waiting = to_waiting s.awaited;
  delivered = s.structs;
  written = s.written;
  is_aborted = s.is_stopped;
}

module _ {Msg : Type 0} (save : Msg → Bytes) (load : Bytes → Option Msg) where
  write-to_session :
      (msg : Msg) (s : SerializationEngine Msg)
      → to_session (async_write_struct save load msg s)
        ≡ Serialization.async_write save load msg (to_session s)
  unfolding async_write_struct Serialization.async_write
  write-to_session msg s = elim (Option-cases (format_header (length (save msg)))) [
    | inl e ↦ rw e refl
    | inr (header, e) ↦ rw e refl
  ]

  header-to_session :
      (bytes : Bytes) (s : SerializationEngine Msg)
      → to_session (on_read_header save load (arrived bytes) s)
        ≡ Serialization.on_read_header save load (arrived bytes) (to_session s)
  unfolding on_read_header Serialization.on_read_header
  header-to_session bytes s = elim (Bool-cases (length bytes == 8)) [
    | inr short ↦ rw short refl
    | inl whole ↦ rw whole (elim (Option-cases (read_size bytes)) [
      | inl e ↦ rw e refl
      | inr (n, e) ↦ elim (Bool-cases (leb vector_limit n)) [
        | inl large ↦ rw (e, large) refl
        | inr fits ↦ rw (e, fits) refl
      ]
    ])
  ]

  data-to_session :
      (n : ℕ) (bytes : Bytes) (s : SerializationEngine Msg)
      → to_session (on_read_data save load n (arrived bytes) s)
        ≡ Serialization.on_read_data save load n (arrived bytes) (to_session s)
  unfolding on_read_data Serialization.on_read_data
  data-to_session n bytes s = elim (Bool-cases (length bytes == n)) [
    | inr short ↦ rw short refl
    | inl whole ↦
        rw whole (elim (Option-cases (load bytes)) [ inl e ↦ rw e refl | inr (msg, e) ↦ rw e refl ])
  ]

  read_ends-to_session :
      (a : Awaited) (event : ReadEvent) (s : SerializationEngine Msg)
      → to_session (read_ends save load a event s)
        ≡ Serialization.dispatch_to save load (to_waiting a) event (to_session s)
  unfolding read_ends Serialization.dispatch_to on_read_header on_read_data
      Serialization.on_read_header Serialization.on_read_data on_error
  read_ends-to_session a_header failed s = refl
  read_ends-to_session a_header (arrived bytes) s = header-to_session bytes s
  read_ends-to_session (bytes_of_data n) failed s = refl
  read_ends-to_session (bytes_of_data n) (arrived bytes) s = data-to_session n bytes s
  read_ends-to_session no_read event s = refl

  step-to_session :
      (e : Step Msg) (s : SerializationEngine Msg)
      → to_session (step save load e s) ≡ Serialization.step save load e (to_session s)
  unfolding step Serialization.step on_write_struct Serialization.on_write_msg async_read
      Serialization.dispatch
  step-to_session (write msg) s = write-to_session msg s
  step-to_session (wrote true) s = refl
  step-to_session (wrote false) s = refl
  step-to_session ask s = refl
  step-to_session (transferred event) s = read_ends-to_session s.awaited event s

  to_session-if :
      (b : Bool) (s t : SerializationEngine Msg)
      → to_session (if b then s else t) ≡ (if b then to_session s else to_session t)
  to_session-if true s t = refl
  to_session-if false s t = refl

  -- Whatever both are asked to write and to read, and whatever their writes and reads end with, in
  -- whatever order: an engine and a session that begin alike write the same bytes, give the same messages
  -- to their derived classes, wait for the same, and treat the socket alike.
  pub run-to_session :
      (es : List (Step Msg)) (s : SerializationEngine Msg)
      → to_session (run save load es s) ≡ Serialization.run save load es (to_session s)
  unfolding run Serialization.run
  run-to_session [] s = refl
  run-to_session (e ∷ es) s =
      to_session-if s.is_stopped s (run save load es (step save load e s))
      ∙ ap (λ r. if s.is_stopped then to_session s else r)
          (run-to_session es (step save load e s)
            ∙ ap (Serialization.run save load es) (step-to_session e s))

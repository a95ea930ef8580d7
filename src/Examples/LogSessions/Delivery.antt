-- ===== src/Examples/LogSessions/Delivery.antt =====
-- What each log session is sent.
use splitsen.Base.{
  ℕ, ◌<◌, ◌≤◌, Bool, true, false, List, [], ◌∷◌, ◌++◌, append-nil, append_assoc, Bytes, codes, ◌==◌,
  if◌then◌else◌, ◌≡◌, refl, sym, ap, ◌∙◌, All, arith,
}
use splitsen.Logger.Track.{Severity}
use splitsen.WebSocket.Endian.{Endian}
use splitsen.WebSocket.Frame.{MaskingKey, text_frame}
use splitsen.WebSocket.FrameParser.Wire.{server_frame}
use splitsen.WebSocket.Session.{Session}
use splitsen.Examples.WsEcho.{frames, IsFramed, async_write-frame}
use splitsen.Examples.LogSessions.{
  insert_at, erase_at, LogServer, started, insert, sends, broadcast, on_logger, on_connect,
  shutdown_texts, on_log, on_handshake_success, on_shutdown, Event, connects, shuts_down, logs,
  step, run, send, run_posted,
}

-- The addresses rise along the set.
abbrev Above : ℕ → List ℕ → Type 0
Above n [] = Unit {0}
Above n (it ∷ its) = (n < it) × Above it its

abbrev pub IsRising : List ℕ → Type 0
IsRising [] = Unit {0}
IsRising (it ∷ its) = Above it its

abbrev pub member : ℕ → List ℕ → Bool
member obj [] = false
member obj (it ∷ its) = if obj == it then true else member obj its

Above-lower : (m n : ℕ) (its : List ℕ) → m ≤ n → Above n its → Above m its
Above-lower m n [] h above = tt
Above-lower m n (it ∷ its) h (less, above) = (omega (arith, less, h), above)

Above-IsRising : (n : ℕ) (its : List ℕ) → Above n its → IsRising its
Above-IsRising n [] above = tt
Above-IsRising n (it ∷ its) (less, above) = above

insert_at-Above : (n obj : ℕ) (its : List ℕ) → n < obj → Above n its → Above n (insert_at obj its)
unfolding insert_at
insert_at-Above n obj [] less above = (less, tt)
insert_at-Above n obj (it ∷ its) less above = ground (arith, insert_at-Above it obj its)

insert_at-IsRising : (obj : ℕ) (its : List ℕ) → IsRising its → IsRising (insert_at obj its)
unfolding insert_at
insert_at-IsRising obj [] rising = tt
insert_at-IsRising obj (it ∷ its) rising = ground (arith, insert_at-Above it obj its)

erase_at-Above : (n obj : ℕ) (its : List ℕ) → Above n its → Above n (erase_at obj its)
unfolding erase_at
erase_at-Above n obj [] above = tt
erase_at-Above n obj (it ∷ its) (less, above) =
    ground (arith, erase_at-Above it obj its above, Above-lower n it its)

erase_at-IsRising : (obj : ℕ) (its : List ℕ) → IsRising its → IsRising (erase_at obj its)
unfolding erase_at
erase_at-IsRising obj [] rising = tt
erase_at-IsRising obj (it ∷ its) rising =
    ground (arith, erase_at-Above it obj its rising, Above-IsRising it its rising)

member-insert_at :
    (a obj : ℕ) (its : List ℕ)
    → member a (insert_at obj its) ≡ (if a == obj then true else member a its)
unfolding insert_at
member-insert_at a obj [] = refl
member-insert_at a obj (it ∷ its) = ground (arith, member-insert_at a obj its)

member-Above : (n a : ℕ) (its : List ℕ) → Above n its → a ≤ n → member a its ≡ false
member-Above n a [] above h = refl
member-Above n a (it ∷ its) (less, above) h = ground (arith, member-Above it a its above)

member-erase_at :
    (a obj : ℕ) (its : List ℕ)
    → IsRising its
    → member a (erase_at obj its) ≡ (if a == obj then false else member a its)
unfolding erase_at
member-erase_at a obj [] rising = ground arith
member-erase_at a obj (it ∷ its) rising =
    ground (
      arith,
      member-erase_at a obj its (Above-IsRising it its rising),
      member-Above it a its rising,
    )

-- The messages of the posted calls for one session
abbrev pub addressed : ℕ → List (ℕ × Bytes) → List Bytes
addressed obj [] = []
addressed obj ((it, msg) ∷ posts) =
    if obj == it then msg ∷ addressed obj posts else addressed obj posts

addressed-append :
    (obj : ℕ) (posts more : List (ℕ × Bytes))
    → addressed obj (posts ++ more) ≡ addressed obj posts ++ addressed obj more
addressed-append obj [] more = refl
addressed-append obj ((it, msg) ∷ posts) more = ground (arith, addressed-append obj posts more)

-- A message, for a session that is there.
abbrev pub if_here : Bool → List Bytes → List Bytes
if_here here msgs = if here then msgs else []

addressed-Above :
    (n obj : ℕ) (msg : Bytes) (its : List ℕ)
    → Above n its
    → obj ≤ n
    → addressed obj (sends msg its) ≡ []
addressed-Above n obj msg [] above h = refl
addressed-Above n obj msg (it ∷ its) (less, above) h =
    ground (arith, addressed-Above it obj msg its above)

addressed-sends :
    (obj : ℕ) (msg : Bytes) (its : List ℕ)
    → IsRising its
    → addressed obj (sends msg its) ≡ if_here (member obj its) (msg ∷ [])
addressed-sends obj msg [] rising = refl
addressed-sends obj msg (it ∷ its) rising = ground (
  arith,
  addressed-sends obj msg its (Above-IsRising it its rising),
  addressed-Above it obj msg its rising,
)

if_here_nil : (here : Bool) → if_here here [] ≡ []
if_here_nil true = refl
if_here_nil false = refl

if_here_append :
    (here : Bool) (msgs more : List Bytes)
    → if_here here msgs ++ if_here here more ≡ if_here here (msgs ++ more)
if_here_append true msgs more = refl
if_here_append false msgs more = refl

on_logger-set :
    (msg : Bytes) (s : LogServer) → (on_logger msg s).log_session_set ≡ s.log_session_set
unfolding on_logger broadcast
on_logger-set msg s = refl

on_logger-IsRising :
    (msg : Bytes) (s : LogServer)
    → IsRising s.log_session_set
    → IsRising (on_logger msg s).log_session_set
unfolding on_logger broadcast
on_logger-IsRising msg s rising = rising

on_logger-addressed :
    (obj : ℕ) (msg : Bytes) (s : LogServer)
    → IsRising s.log_session_set
    → addressed obj (on_logger msg s).posted
      ≡ addressed obj s.posted ++ if_here (member obj s.log_session_set) (msg ∷ [])
unfolding on_logger broadcast
on_logger-addressed obj msg s rising =
    addressed-append obj s.posted (sends msg s.log_session_set)
    ∙ ap (λ l. addressed obj s.posted ++ l) (addressed-sends obj msg s.log_session_set rising)

module _ (line : ℕ → Severity → Bytes → Bytes) where
  abbrev pub lines : ℕ → List (Severity × Bytes) → List Bytes
  lines it [] = []
  lines it ((severity, msg) ∷ msgs) = line it severity msg ∷ lines it msgs

  -- What one event gives a session to hear, and whether the session is connected after it: all that is
  -- signalled while it is connected, the last of it what its own shutdown logs.
  abbrev pub told : Bool → Event → List Bytes
  told here (connects it) = []
  told here (shuts_down it shut_down_ec close_ec) =
      if_here here (lines it (shutdown_texts shut_down_ec close_ec))
  told here (logs msg) = if_here here (msg ∷ [])

  abbrev pub is_here : ℕ → Event → Bool → Bool
  is_here obj (connects it) here = if obj == it then true else here
  is_here obj (shuts_down it shut_down_ec close_ec) here = if obj == it then false else here
  is_here obj (logs msg) here = here

  abbrev pub hears : ℕ → Bool → List Event → List Bytes
  hears obj here [] = []
  hears obj here (e ∷ es) = told here e ++ hears obj (is_here obj e here) es

  on_log-addressed :
      (obj it : ℕ) (msgs : List (Severity × Bytes)) (s : LogServer)
      → IsRising s.log_session_set
      → addressed obj (on_log line it msgs s).posted
        ≡ addressed obj s.posted ++ if_here (member obj s.log_session_set) (lines it msgs)
  unfolding on_log
  on_log-addressed obj it [] s rising = rw if_here_nil (sym (append-nil (addressed obj s.posted)))
  on_log-addressed obj it ((severity, msg) ∷ msgs) s rising =
      on_log-addressed obj it msgs (on_logger (line it severity msg) s)
        (on_logger-IsRising (line it severity msg) s rising)
      ∙ rw
          (
            on_logger-addressed obj (line it severity msg) s rising,
            on_logger-set (line it severity msg) s,
          )
          (append_assoc (addressed obj s.posted) _ _)
      ∙ ap (λ l. addressed obj s.posted ++ l)
          (if_here_append (member obj s.log_session_set) (line it severity msg ∷ [])
            (lines it msgs))

  on_log-set :
      (it : ℕ) (msgs : List (Severity × Bytes)) (s : LogServer)
      → (on_log line it msgs s).log_session_set ≡ s.log_session_set
  unfolding on_log on_logger broadcast
  on_log-set it [] s = refl
  on_log-set it ((severity, msg) ∷ msgs) s = on_log-set it msgs (on_logger (line it severity msg) s)

  -- Whatever happens, the addresses in the set rise.
  step-IsRising :
      (e : Event) (s : LogServer)
      → IsRising s.log_session_set
      → IsRising (step line e s).log_session_set
  unfolding step on_handshake_success on_shutdown on_connect on_logger broadcast insert
  step-IsRising (connects it) s rising = insert_at-IsRising it s.log_session_set rising
  step-IsRising (shuts_down it shut_down_ec close_ec) s rising =
      rw (on_log-set it (shutdown_texts shut_down_ec close_ec) s)
        (erase_at-IsRising it s.log_session_set rising)
  step-IsRising (logs msg) s rising = rising

  step-member :
      (obj : ℕ) (e : Event) (s : LogServer)
      → IsRising s.log_session_set
      → member obj (step line e s).log_session_set ≡ is_here obj e (member obj s.log_session_set)
  unfolding step on_handshake_success on_shutdown on_connect on_logger broadcast insert
  step-member obj (connects it) s rising = member-insert_at obj it s.log_session_set
  step-member obj (shuts_down it shut_down_ec close_ec) s rising =
      rw (on_log-set it (shutdown_texts shut_down_ec close_ec) s)
        (member-erase_at obj it s.log_session_set rising)
  step-member obj (logs msg) s rising = refl

  step-addressed :
      (obj : ℕ) (e : Event) (s : LogServer)
      → IsRising s.log_session_set
      → addressed obj (step line e s).posted
        ≡ addressed obj s.posted ++ told (member obj s.log_session_set) e
  unfolding step on_handshake_success on_shutdown on_connect insert
  step-addressed obj (connects it) s rising = sym (append-nil (addressed obj s.posted))
  step-addressed obj (shuts_down it shut_down_ec close_ec) s rising =
      on_log-addressed obj it (shutdown_texts shut_down_ec close_ec) s rising
  step-addressed obj (logs msg) s rising = on_logger-addressed obj msg s rising

  run-addressed :
      (obj : ℕ) (es : List Event) (s : LogServer)
      → IsRising s.log_session_set
      → addressed obj (run line es s).posted
        ≡ addressed obj s.posted ++ hears obj (member obj s.log_session_set) es
  unfolding run
  run-addressed obj [] s rising = sym (append-nil (addressed obj s.posted))
  run-addressed obj (e ∷ es) s rising =
      run-addressed obj es (step line e s) (step-IsRising e s rising)
      ∙ rw (step-addressed obj e s rising, step-member obj e s rising)
          (append_assoc (addressed obj s.posted) _ _)

-- Each text as `send` writes it.
abbrev pub broken : List Bytes → List Bytes
broken [] = []
broken (msg ∷ msgs) = (msg ++ codes "<br>") ∷ broken msgs

send_all : Endian → MaskingKey → List Bytes → Session → Session
send_all e held [] w = w
send_all e held (msg ∷ msgs) w = send_all e held msgs (send e held msg w)

run_posted-send_all :
    (e : Endian) (held : MaskingKey) (obj : ℕ) (posts : List (ℕ × Bytes)) (w : Session)
    → run_posted e held obj posts w ≡ send_all e held (addressed obj posts) w
unfolding run_posted send_all
run_posted-send_all e held obj [] w = refl
run_posted-send_all e held obj ((it, msg) ∷ posts) w = ground (
  arith,
  run_posted-send_all e held obj posts w,
  run_posted-send_all e held obj posts (send e held msg w),
)

send_all-frames :
    (e : Endian) (held : MaskingKey) (msgs : List Bytes) (w : Session)
    → All IsFramed (broken msgs)
    → send_all e held msgs w ≡ record w { written = w.written ++ frames (broken msgs) }
unfolding send_all send
send_all-frames e held [] w h = rw append-nil
send_all-frames e held (msg ∷ msgs) w (framed, h) =
    let text = msg ++ codes "<br>" in
    ap (send_all e held msgs) (async_write-frame e held text w framed)
    ∙ send_all-frames e held msgs
        (record w { written = w.written ++ server_frame true text_frame text }) h
    ∙ ap (λ bytes. record w { written = bytes }) (append_assoc w.written _ (frames (broken msgs)))

module _ (line : ℕ → Severity → Bytes → Bytes) where
  -- Log sessions connect and are shut down, and lines are logged, in any order: a session is sent, once
  -- each and in order, the lines that are signalled while it is connected, those that its own shutdown
  -- logs the last of them, and no others; each is a frame of its own, as RFC 6455 lays it out, with
  -- "<br>" behind the text, if none of them has just 65536 bytes with that, or 2^64 or more.
  pub run-heard :
      (e : Endian) (held : MaskingKey) (obj : ℕ) (es : List Event) (w : Session)
      → All IsFramed (broken (hears line obj false es))
      → run_posted e held obj (run line es started).posted w
        ≡ record w { written = w.written ++ frames (broken (hears line obj false es)) }
  run-heard e held obj es w framed =
      let heard = run-addressed line obj es started tt in
      run_posted-send_all e held obj (run line es started).posted w
      ∙ ap (λ msgs. send_all e held msgs w) heard
      ∙ send_all-frames e held (hears line obj false es) w framed

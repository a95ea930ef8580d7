-- ===== src/Http/Session/Reads.antt =====
-- http_session reads a request in as many reads as it takes.
use splitsen.Base.{ℕ, false, List, [], ◌∷◌, ◌++◌, Bytes, Option, ◌≡◌, ◌≢◌, refl, ap, ◌∙◌}
use splitsen.Stream.{is_true, indeterminate, parsed}
use splitsen.Stream.Laws.{parse-Resumes, append-ne}
use splitsen.Handshake.{contains}
use splitsen.Http.Request.{Header, new_request}
use splitsen.Http.Parser.{RequestParser, reset, consume, parse_request, expecting_newline_3}
use splitsen.Http.Parser.Grammar.{request_text, decimal}
use splitsen.Http.Parser.RoundTrip.{IsRequestText, parse-request_text}
use splitsen.Http.RequestHandler.{handle_request}
use splitsen.Http.Session.{
  HttpSession, first_read, next_read, success, Event, read, websocket_key, write_reply, answer,
  on_first_parsed, on_parsed, on_first_read, handle_read, dispatch_to, dispatch, run,
}

-- The bytes of some reads and of the last one, in order; the events; the first read.
abbrev pub joined : List Bytes → Bytes → Bytes
joined [] last = last
joined (r ∷ rs) last = r ++ joined rs last

abbrev pub reads : List Bytes → Bytes → List Event
reads [] last = read success last ∷ []
reads (r ∷ rs) last = read success r ∷ reads rs last

abbrev pub first_of : List Bytes → Bytes → Bytes
first_of [] last = last
first_of (r ∷ rs) last = r

joined-ne : (rs : List Bytes) (last : Bytes) → last ≢ [] → joined rs last ≢ []
joined-ne [] last h = h
joined-ne (r ∷ rs) last h = append-ne r (joined rs last) (joined-ne rs last h)

module _ (lexical_cast : ℕ → Bytes) (open_file : Bytes → Option Bytes) (doc_root : Bytes)
    (q : RequestParser) (last : Bytes) (more : last ≢ []) where
  abbrev answered : HttpSession → HttpSession
  answered s = answer lexical_cast open_file doc_root (record s { parser = q })

  -- A session that has read a part of a request, and its parser.
  abbrev waiting : RequestParser → HttpSession → HttpSession
  waiting p s = record s { pending = next_read; parser = p }

  -- Nothing of `waiting` is left in the answer.
  answered-waiting : (p : RequestParser) (s : HttpSession) → answered (waiting p s) ≡ answered s
  unfolding answer write_reply
  answered-waiting p s = refl

  module _ (r : Bytes) (p : RequestParser) (s : HttpSession)
      (before : parse_request s.parser r ≡ parsed indeterminate p []) where
    later_step :
        s.pending ≡ next_read
        → dispatch lexical_cast open_file doc_root (read success r) s ≡ waiting p s
    unfolding dispatch dispatch_to handle_read on_parsed
    later_step waits = rw (waits, before) refl

    first_step :
        s.pending ≡ first_read
        → contains websocket_key r ≡ false
        → dispatch lexical_cast open_file doc_root (read success r) s ≡ waiting p s
    unfolding dispatch dispatch_to on_first_read on_first_parsed
    first_step waits plain = rw (waits, plain, before) refl

  abbrev run_on : List Bytes → HttpSession → HttpSession
  unfolding run
  run_on rs s = run lexical_cast open_file doc_root (reads rs last) s

  cut :
      (r : Bytes) (rs : List Bytes) (p : RequestParser)
      → parse_request p (r ++ joined rs last) ≡ parsed is_true q []
      → (p' : RequestParser) × ((parse_request p r ≡ parsed indeterminate p' [])
          × (parse_request p' (joined rs last) ≡ parsed is_true q []))
  unfolding parse_request
  cut r rs p e = parse-Resumes consume q (joined rs last) (joined-ne rs last more) p r e

  -- The later reads.
  run-later :
      (rs : List Bytes) (s : HttpSession)
      → s.pending ≡ next_read
      → parse_request s.parser (joined rs last) ≡ parsed is_true q []
      → run_on rs s ≡ answered s
  unfolding run_on run dispatch dispatch_to handle_read on_parsed
  run-later [] s waits e = rw (waits, e) refl
  run-later (r ∷ rs) s waits e =
      let (p, (before, after)) = cut r rs s.parser e in
      ap (run_on rs) (later_step r p s before waits)
      ∙ run-later rs (waiting p s) refl after
      ∙ answered-waiting p s

  run-first :
      (rs : List Bytes) (s : HttpSession)
      → s.pending ≡ first_read
      → contains websocket_key (first_of rs last) ≡ false
      → parse_request s.parser (joined rs last) ≡ parsed is_true q []
      → run_on rs s ≡ answered s
  unfolding run_on run dispatch dispatch_to on_first_read on_first_parsed
  run-first [] s waits plain e = rw (waits, plain, e) refl
  run-first (r ∷ rs) s waits plain e =
      let (p, (before, after)) = cut r rs s.parser e in
      ap (run_on rs) (first_step r p s before waits plain)
      ∙ run-later rs (waiting p s) refl after
      ∙ answered-waiting p s

-- What the parser is left with behind the text of a request.
abbrev pub read_request : Bytes → Bytes → Bytes → Bytes → List Header → RequestParser
read_request m u major minor hs = record {
  state = expecting_newline_3;
  req = record {
    method = m;
    uri = u;
    http_version_major = decimal major;
    http_version_minor = decimal minor;
    headers = hs;
  };
}

-- The text of a well-formed request in any number of reads, the last of them not empty and the first
-- without "Sec-WebSocket-Key:", at a session that waits for its first read: when the last read is
-- done the session is writing the handler's reply to just that request, and nothing else is
-- different, however the text was cut.
pub run-request :
    (lexical_cast : ℕ → Bytes) (open_file : Bytes → Option Bytes) (doc_root : Bytes)
    (m u major minor : Bytes) (hs : List Header) (v w : ℕ) (rs : List Bytes) (last : Bytes)
    (s : HttpSession)
    → IsRequestText m u major minor hs
    → s.pending ≡ first_read
    → s.parser ≡ reset (new_request v w)
    → contains websocket_key (first_of rs last) ≡ false
    → last ≢ []
    → joined rs last ≡ request_text m u major minor hs []
    → let p = read_request m u major minor hs in
      run lexical_cast open_file doc_root (reads rs last) s
      ≡ write_reply
          (handle_request lexical_cast open_file doc_root p.req s.reply)
          (record s { parser = p })
unfolding run_on answer
run-request lexical_cast open_file doc_root m u major minor hs v w rs last s t waits fresh plain
      more e =
    run-first lexical_cast open_file doc_root (read_request m u major minor hs) last more rs s waits
      plain (rw (fresh, e) (parse-request_text m u major minor hs [] v w t))

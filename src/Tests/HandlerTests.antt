-- ===== src/Tests/HandlerTests.antt =====
-- The request handler and the HTTP session on concrete files and requests.
use splitsen.Base.{
  all_of, bytes_of, no_null, without, ℕ, zero, suc, ◌+◌, ◌/◌, ◌%◌, Bool, true, false, [], ◌∷◌, ◌++◌,
  Bytes, Option, none, some, codes, ltb, if◌then◌else◌, All-append, ◌≡◌, ◌≢◌, refl, arith,
}
use splitsen.Tcp.{connected}
use splitsen.Http.Request.{Request, new_request}
use splitsen.Http.Parser.{reset}
use splitsen.Http.Parser.RoundTrip.{IsRequestText}
use splitsen.Http.Reply.{Reply, ok, two_headers, to_buffers, status_number}
use splitsen.Http.Reply.Wire.{read_reply, gather}
use splitsen.Http.MimeTypes.{same_bytes, extension_to_type}
use splitsen.Http.Chars.{is_refused, is_ctl, is_digit}
use splitsen.Http.RequestHandler.{url_decode, has_dots, handle_request}
use splitsen.Http.RequestHandler.Confined.{handle_request-local}
use splitsen.Http.RequestHandler.Decode.{url_encode}
use splitsen.Http.RequestHandler.Framing.{handle_request-framed, IsLine}
use splitsen.Http.RequestHandler.Replies.{handle_request-file}
use splitsen.Http.Session.{HttpSession, first_read, success, read, write_reply, run, websocket_key}
use splitsen.Http.Session.Reads.{run-request, read_request, reads}
use splitsen.Http.Session.Handover.{run-IsUntouched, IsUntouched}
use splitsen.Handshake.{http, contains}

-- A number in decimal.
show_digits : ℕ → ℕ → Bytes
show_digits zero n = []
show_digits (suc fuel) n =
    let rest = show_digits fuel (n / 10) in (if ltb n 10 then [] else rest) ++ (b'0' + n % 10) ∷ []

show : ℕ → Bytes
unfolding show_digits
show n = show_digits (suc n) n

if-IsLine : (b : Bool) (cs : Bytes) → IsLine cs → IsLine (if b then [] else cs)
if-IsLine true cs h = tt
if-IsLine false cs h = h

show_digits-IsLine : (fuel n : ℕ) → IsLine (show_digits fuel n)
unfolding show_digits
show_digits-IsLine zero n = tt
show_digits-IsLine (suc fuel) n =
    let rest =
      if-IsLine (ltb n 10) (show_digits fuel (n / 10)) (show_digits-IsLine fuel (n / 10)) in
    All-append (λ c. c ≢ b'\r') (if ltb n 10 then [] else show_digits fuel (n / 10)) _ rest
      ((λ e. omega arith), tt)

show-IsLine : (n : ℕ) → IsLine (show n)
unfolding show
show-IsLine n = show_digits-IsLine (suc n) n

-- Tests that show a property of each char of a literal.
abbrev root : Bytes
root = codes "/srv"

-- One file, and beside it one that is not under the root.
abbrev disk : Bytes → Option Bytes
disk path = if same_bytes path (codes "/srv/a.d/b.html") then some (codes "hi") else none

abbrev larger_disk : Bytes → Option Bytes
larger_disk path = if same_bytes path (codes "/etc/x") then some (codes "no") else disk path

abbrev get : Bytes → Request
get uri = record (new_request 1 0) { method = codes "GET"; uri = uri }

abbrev blank : Reply
blank = record { status = ok; headers = []; content = [] }

abbrev page : Reply
page = record {
  status = ok;
  headers = two_headers show (codes "hi") (codes "text/html");
  content = codes "hi";
}

-- A percent sign, a folded sign and a single digit.
decode : url_decode (codes "/%61+b%5g") ≡ some (codes "/a b" ++ 5 ∷ [])
unfolding url_decode
decode = refl

handle_request-local_example :
    handle_request show disk root (get (codes "/../etc/x")) blank
    ≡ handle_request show larger_disk root (get (codes "/../etc/x")) blank
unfolding all_of
handle_request-local_example =
    handle_request-local show root (no_null root refl) disk larger_disk (λ path confined. refl)
      blank (get (codes "/../etc/x"))

handle_request-file_example : handle_request show disk root (get (codes "/a.d/b.html")) blank ≡ page
unfolding all_of url_encode extension_to_type has_dots
handle_request-file_example =
    handle_request-file show disk root (codes "/a.d") (codes "b") (codes "html") (codes "hi")
      (get (codes "/a.d/b.html")) blank
      (
        without b'/' (codes "b") refl,
        without b'/' (codes "html") refl,
        without b'.' (codes "html") refl,
      )
      (refl, refl) (bytes_of (codes "/a.d/b.html") refl, no_null (codes "/a.d/b.html") refl)
      (no_null root refl) refl refl

handle_request-framed_example :
    let reply = handle_request show disk root (get (codes "/none")) blank in
    (mime_type : Bytes) × (read_reply (gather (to_buffers reply))
      ≡ some (record {
        code = status_number reply.status;
        headers = two_headers show reply.content mime_type;
        body = reply.content;
      }))
handle_request-framed_example =
    handle_request-framed show disk root (get (codes "/none")) blank show-IsLine

abbrev session : HttpSession
session = record {
  tcp = connected;
  pending = first_read;
  parser = reset (new_request 7 7);
  reply = blank;
  written = [];
  is_shut_down = false;
  handed_on = none;
  fault = none;
}

slash-IsRequestText : IsRequestText (codes "GET") (codes "/") (codes "1") (codes "0") []
unfolding is_refused is_ctl is_digit
slash-IsRequestText = record {
  method_ne = λ e. cc;
  method_token = (refl, (refl, (refl, tt)));
  uri_bytes = ((refl, refl), tt);
  major_ne = λ e. cc;
  major_digits = (refl, tt);
  major_fits = omega arith;
  minor_ne = λ e. cc;
  minor_digits = (refl, tt);
  minor_fits = omega arith;
  fields = tt;
}

-- "GET / HTTP/1.0" in two reads.
run-request_example :
    run show disk root (reads (codes "GET / H" ∷ []) (codes "TTP/1.0\r\n\r\n")) session
    ≡ write_reply (handle_request show disk root (get (codes "/")) blank) (record session {
      parser = read_request (codes "GET") (codes "/") (codes "1") (codes "0") [];
    })
unfolding new_request contains
run-request_example =
    run-request show disk root (codes "GET") (codes "/") (codes "1") (codes "0") [] 7 7
      (codes "GET / H" ∷ []) (codes "TTP/1.0\r\n\r\n") session slash-IsRequestText refl refl refl
      (λ e. cc) refl

run-IsUntouched_example : IsUntouched (run show disk root (read success websocket_key ∷ []) session)
unfolding contains run
run-IsUntouched_example =
    run-IsUntouched show disk root (read success websocket_key ∷ []) session
      (record { tag = http; data_string = websocket_key }) refl refl (refl, (refl, refl)) refl

-- ===== src/Http/Parser.antt =====
-- http::server::request_parser (splice/http/request_parser.hpp and .hxx): a state machine over the
-- bytes of a request. `state_` and the request that `consume` is handed are one state here; the
-- loop around it is Stream.
pub mod Safety
pub mod Grammar
mod Runs
pub mod RoundTrip
use splitsen.Base.{
  ℕ, ◌+◌, ◌-◌, ◌*◌, Bool, true, false, not, ◌&&◌, ◌||◌, List, [], ◌∷◌, ◌++◌, Bytes, Option, none,
  some, if◌then◌else◌, ◌==◌, ltb,
}
use splitsen.Stream.{
  Tribool, is_true, is_false, indeterminate, Fault, back_of_empty, int_overflow, Outcome, ret,
  undefined, Parsed,
}
use splitsen.Stream
use splitsen.Http.Chars.{is_refused, is_ctl, is_digit}
use splitsen.Http.Request.{Header, Request, update_back, push_name, push_value}

pub data State : Type 0 where
  method_start method uri http_version_h http_version_t_1 http_version_t_2 : State
  http_version_p http_version_slash http_version_major_start http_version_major : State
  http_version_minor_start http_version_minor expecting_newline_1 header_line_start : State
  header_lws header_name space_before_header_value header_value : State
  expecting_newline_2 expecting_newline_3 : State

pub record RequestParser : Type 0 where
  pub state : State
  pub req : Request

-- The constructor and `reset`, with the request at hand.
abbrev pub reset : Request → RequestParser
reset req = record { state = method_start; req = req }

abbrev pub int_max : ℕ
int_max = 2147483647

abbrev pub goto : State → Request → Outcome RequestParser
goto s req = ret indeterminate (record { state = s; req = req })

abbrev pub refuse : State → Request → Outcome RequestParser
refuse s req = ret is_false (record { state = s; req = req })

-- `version * 10 + input - '0'`, in int; the sum before the subtraction must fit.
unfoldable pub push_digit : ℕ → ℕ → Option ℕ
push_digit version c =
    if ltb int_max (version * 10 + c) then none else some (version * 10 + c - b'0')

abbrev pub or_overflow : Option ℕ → (ℕ → Outcome RequestParser) → Outcome RequestParser
or_overflow none k = undefined int_overflow
or_overflow (some v) k = k v

abbrev pub or_empty :
    Option (List Header) → (List Header → Outcome RequestParser) → Outcome RequestParser
or_empty none k = undefined back_of_empty
or_empty (some hs) k = k hs

-- `case method_start`
unfoldable pub consume_method_start : Request → ℕ → Outcome RequestParser
consume_method_start req c =
    if is_refused c
    then refuse method_start req
    else goto method (record req { method = req.method ++ c ∷ [] })

-- `case method`
unfoldable pub consume_method : Request → ℕ → Outcome RequestParser
consume_method req c =
    if c == b' '
    then goto uri req
    else if is_refused c
    then refuse method req
    else goto method (record req { method = req.method ++ c ∷ [] })

-- `case uri`
unfoldable pub consume_uri : Request → ℕ → Outcome RequestParser
consume_uri req c =
    if c == b' '
    then goto http_version_h req
    else if is_ctl c
    then refuse uri req
    else goto uri (record req { uri = req.uri ++ c ∷ [] })

-- The states that wait for one byte: in `s`, go to `next` on `want`.
unfoldable pub expect : ℕ → State → State → Request → ℕ → Outcome RequestParser
expect want s next req c = if c == want then goto next req else refuse s req

-- `case http_version_slash`
unfoldable pub consume_slash : Request → ℕ → Outcome RequestParser
consume_slash req c =
    if c == b'/'
    then goto http_version_major_start
        (record req { http_version_major = 0; http_version_minor = 0 })
    else refuse http_version_slash req

-- A digit of the major version, read in `s`: `case http_version_major_start`.
unfoldable pub consume_major_digit : State → Request → ℕ → Outcome RequestParser
unfolding push_digit
consume_major_digit s req c =
    if is_digit c
    then or_overflow (push_digit req.http_version_major c)
        (λ v. goto http_version_major (record req { http_version_major = v }))
    else refuse s req

-- `case http_version_major`
unfoldable pub consume_major : Request → ℕ → Outcome RequestParser
unfolding consume_major_digit
consume_major req c =
    if c == b'.'
    then goto http_version_minor_start req
    else consume_major_digit http_version_major req c

-- A digit of the minor version, read in `s`: `case http_version_minor_start`.
unfoldable pub consume_minor_digit : State → Request → ℕ → Outcome RequestParser
unfolding push_digit
consume_minor_digit s req c =
    if is_digit c
    then or_overflow (push_digit req.http_version_minor c)
        (λ v. goto http_version_minor (record req { http_version_minor = v }))
    else refuse s req

-- `case http_version_minor`
unfoldable pub consume_minor : Request → ℕ → Outcome RequestParser
unfolding consume_minor_digit
consume_minor req c =
    if c == b'\r'
    then goto expecting_newline_1 req
    else consume_minor_digit http_version_minor req c

abbrev pub is_empty : List Header → Bool
is_empty [] = true
is_empty (h ∷ hs) = false

abbrev pub is_blank : ℕ → Bool
is_blank c = c == b' ' || c == b'\t'

-- `case header_line_start`
unfoldable pub consume_line_start : Request → ℕ → Outcome RequestParser
consume_line_start req c =
    if c == b'\r'
    then goto expecting_newline_3 req
    else if not (is_empty req.headers) && is_blank c
    then goto header_lws req
    else if is_refused c
    then refuse header_line_start req
    else goto header_name
        (record req { headers = req.headers ++ record { name = c ∷ []; value = [] } ∷ [] })

-- `req.headers.back().value.push_back(input)`, then on in `header_value`.
abbrev pub push_header_value : Request → ℕ → Outcome RequestParser
push_header_value req c =
    or_empty (update_back (push_value c) req.headers)
      (λ hs. goto header_value (record req { headers = hs }))

-- `case header_lws`
unfoldable pub consume_lws : Request → ℕ → Outcome RequestParser
consume_lws req c =
    if c == b'\r'
    then goto expecting_newline_2 req
    else if is_blank c
    then goto header_lws req
    else if is_ctl c
    then refuse header_lws req
    else push_header_value req c

-- `case header_name`
unfoldable pub consume_name : Request → ℕ → Outcome RequestParser
consume_name req c =
    if c == b':'
    then goto space_before_header_value req
    else if is_refused c
    then refuse header_name req
    else or_empty (update_back (push_name c) req.headers)
        (λ hs. goto header_name (record req { headers = hs }))

-- `case header_value`
unfoldable pub consume_value : Request → ℕ → Outcome RequestParser
consume_value req c =
    if c == b'\r'
    then goto expecting_newline_2 req
    else if is_ctl c
    then refuse header_value req
    else push_header_value req c

-- `case expecting_newline_3`: the answer is the test, and the state stays.
unfoldable pub consume_end : Request → ℕ → Outcome RequestParser
consume_end req c =
    if c == b'\n'
    then ret is_true (record { state = expecting_newline_3; req = req })
    else refuse expecting_newline_3 req

-- The switch of `request_parser::consume`.
unfoldable pub consume_in : State → Request → ℕ → Outcome RequestParser
unfolding consume_method_start consume_method consume_uri expect consume_slash consume_major_digit
    consume_major consume_minor_digit consume_minor consume_line_start consume_lws consume_name
    consume_value consume_end
consume_in method_start req c = consume_method_start req c
consume_in method req c = consume_method req c
consume_in uri req c = consume_uri req c
consume_in http_version_h req c = expect b'H' http_version_h http_version_t_1 req c
consume_in http_version_t_1 req c = expect b'T' http_version_t_1 http_version_t_2 req c
consume_in http_version_t_2 req c = expect b'T' http_version_t_2 http_version_p req c
consume_in http_version_p req c = expect b'P' http_version_p http_version_slash req c
consume_in http_version_slash req c = consume_slash req c
consume_in http_version_major_start req c = consume_major_digit http_version_major_start req c
consume_in http_version_major req c = consume_major req c
consume_in http_version_minor_start req c = consume_minor_digit http_version_minor_start req c
consume_in http_version_minor req c = consume_minor req c
consume_in expecting_newline_1 req c = expect b'\n' expecting_newline_1 header_line_start req c
consume_in header_line_start req c = consume_line_start req c
consume_in header_lws req c = consume_lws req c
consume_in header_name req c = consume_name req c
consume_in space_before_header_value req c =
    expect b' ' space_before_header_value header_value req c
consume_in header_value req c = consume_value req c
consume_in expecting_newline_2 req c = expect b'\n' expecting_newline_2 header_line_start req c
consume_in expecting_newline_3 req c = consume_end req c

unfoldable pub consume : RequestParser → ℕ → Outcome RequestParser
unfolding consume_in
consume p c = consume_in p.state p.req c

unfoldable pub parse_request : RequestParser → Bytes → Parsed RequestParser
unfolding Stream.parse
parse_request p bytes = Stream.parse consume p bytes

-- ===== src/WebSocket/RequestParser.antt =====
-- rfc6455_engine::request_parser (splice/web_socket/rfc6455_engine.hpp), which reads the request for
-- an upgrade: a second text of the state machine of splice/http/request_parser.hxx, with the tests on
-- chars as static members and the whole switch in `consume`. The request that it fills has the fields
-- of the other one.
pub mod Equivalence
use splitsen.Base.{
  ℕ, ◌+◌, ◌-◌, ◌*◌, Bool, true, false, not, ◌&&◌, ◌||◌, List, [], ◌∷◌, ◌++◌, Bytes, Option, none,
  some, if◌then◌else◌, ◌==◌, ltb, leb,
}
use splitsen.Stream.{
  is_true, is_false, indeterminate, back_of_empty, int_overflow, Outcome, ret, undefined, Parsed,
}
use splitsen.Stream
use splitsen.Http.Request.{Header, Request, update_back, push_name, push_value}

pub data State : Type 0 where
  method_start method uri http_version_h http_version_t_1 http_version_t_2 : State
  http_version_p http_version_slash http_version_major_start http_version_major : State
  http_version_minor_start http_version_minor expecting_newline_1 header_line_start : State
  header_lws header_name space_before_header_value header_value : State
  expecting_newline_2 expecting_newline_3 : State

-- `state_`, and the request that `parse` is handed.
pub record UpgradeParser : Type 0 where
  pub state : State
  pub req : Request

-- The constructor, for a request.
abbrev pub start : Request → UpgradeParser
start req = record { state = method_start; req = req }

unfoldable pub is_char : ℕ → Bool
is_char c = leb c 127

unfoldable pub is_ctl : ℕ → Bool
is_ctl c = leb c 31 || c == 127

unfoldable pub is_tspecial : ℕ → Bool
is_tspecial c =
    c == b'('
    || c == b')'
    || c == b'<'
    || c == b'>'
    || c == b'@'
    || c == b','
    || c == b';'
    || c == b':'
    || c == b'\\'
    || c == b'"'
    || c == b'/'
    || c == b'['
    || c == b']'
    || c == b'?'
    || c == b'='
    || c == b'{'
    || c == b'}'
    || c == b' '
    || c == b'\t'

unfoldable pub is_digit : ℕ → Bool
is_digit c = leb b'0' c && leb c b'9'

abbrev pub no_token : ℕ → Bool
no_token c = not (is_char c) || is_ctl c || is_tspecial c

abbrev pub goto : State → Request → Outcome UpgradeParser
goto s req = ret indeterminate (record { state = s; req = req })

-- `return false`, in the state that the parser is in.
abbrev pub stop : State → Request → Outcome UpgradeParser
stop s req = ret is_false (record { state = s; req = req })

abbrev pub int_max : ℕ
int_max = 2147483647

-- `version * 10 + input - '0'` in an int: the sum in front of the subtraction must fit.
abbrev pub with_digit : ℕ → ℕ → (ℕ → Outcome UpgradeParser) → Outcome UpgradeParser
with_digit version c next =
    if ltb int_max (version * 10 + c)
    then undefined int_overflow
    else next (version * 10 + c - b'0')

-- `req.headers.back()` changed, and on in `s`.
abbrev pub with_back : State → Request → Option (List Header) → Outcome UpgradeParser
with_back s req none = undefined back_of_empty
with_back s req (some hs) = goto s (record req { headers = hs })

-- `case http_version_major_start` and the digits of the two numbers.
unfoldable pub major_digit : State → Request → ℕ → Outcome UpgradeParser
major_digit s req c =
    if is_digit c
    then with_digit req.http_version_major c
        (λ v. goto http_version_major (record req { http_version_major = v }))
    else stop s req

unfoldable pub minor_digit : State → Request → ℕ → Outcome UpgradeParser
minor_digit s req c =
    if is_digit c
    then with_digit req.http_version_minor c
        (λ v. goto http_version_minor (record req { http_version_minor = v }))
    else stop s req

abbrev pub no_headers : List Header → Bool
no_headers [] = true
no_headers (h ∷ hs) = false

-- `case method`
unfoldable pub consume_token : Request → ℕ → Outcome UpgradeParser
unfolding is_char is_ctl is_tspecial
consume_token req c =
    if c == b' '
    then goto uri req
    else if no_token c
    then stop method req
    else goto method (record req { method = req.method ++ c ∷ [] })

-- `case header_line_start`
unfoldable pub consume_start_of_line : Request → ℕ → Outcome UpgradeParser
unfolding is_char is_ctl is_tspecial
consume_start_of_line req c =
    if c == b'\r'
    then goto expecting_newline_3 req
    else if not (no_headers req.headers) && (c == b' ' || c == b'\t')
    then goto header_lws req
    else if no_token c
    then stop header_line_start req
    else goto header_name
        (record req { headers = req.headers ++ record { name = c ∷ []; value = [] } ∷ [] })

-- `case header_lws`
unfoldable pub consume_folded : Request → ℕ → Outcome UpgradeParser
unfolding is_char is_ctl is_tspecial
consume_folded req c =
    if c == b'\r'
    then goto expecting_newline_2 req
    else if c == b' ' || c == b'\t'
    then goto header_lws req
    else if is_ctl c
    then stop header_lws req
    else with_back header_value req (update_back (push_value c) req.headers)

-- `case header_name`
unfoldable pub consume_header_name : Request → ℕ → Outcome UpgradeParser
unfolding is_char is_ctl is_tspecial
consume_header_name req c =
    if c == b':'
    then goto space_before_header_value req
    else if no_token c
    then stop header_name req
    else with_back header_name req (update_back (push_name c) req.headers)

-- `case header_value`
unfoldable pub consume_header_value : Request → ℕ → Outcome UpgradeParser
unfolding is_char is_ctl is_tspecial
consume_header_value req c =
    if c == b'\r'
    then goto expecting_newline_2 req
    else if is_ctl c
    then stop header_value req
    else with_back header_value req (update_back (push_value c) req.headers)

-- The switch of `consume`.
unfoldable pub consume_in : State → Request → ℕ → Outcome UpgradeParser
unfolding is_char is_ctl is_tspecial is_digit major_digit minor_digit consume_token
    consume_start_of_line consume_folded consume_header_name consume_header_value
consume_in method_start req c =
    if no_token c
    then stop method_start req
    else goto method (record req { method = req.method ++ c ∷ [] })
consume_in method req c = consume_token req c
consume_in uri req c =
    if c == b' '
    then goto http_version_h req
    else if is_ctl c
    then stop uri req
    else goto uri (record req { uri = req.uri ++ c ∷ [] })
consume_in http_version_h req c =
    if c == b'H' then goto http_version_t_1 req else stop http_version_h req
consume_in http_version_t_1 req c =
    if c == b'T' then goto http_version_t_2 req else stop http_version_t_1 req
consume_in http_version_t_2 req c =
    if c == b'T' then goto http_version_p req else stop http_version_t_2 req
consume_in http_version_p req c =
    if c == b'P' then goto http_version_slash req else stop http_version_p req
consume_in http_version_slash req c =
    if c == b'/'
    then goto http_version_major_start
        (record req { http_version_major = 0; http_version_minor = 0 })
    else stop http_version_slash req
consume_in http_version_major_start req c = major_digit http_version_major_start req c
consume_in http_version_major req c =
    if c == b'.' then goto http_version_minor_start req else major_digit http_version_major req c
consume_in http_version_minor_start req c = minor_digit http_version_minor_start req c
consume_in http_version_minor req c =
    if c == b'\r' then goto expecting_newline_1 req else minor_digit http_version_minor req c
consume_in expecting_newline_1 req c =
    if c == b'\n' then goto header_line_start req else stop expecting_newline_1 req
consume_in header_line_start req c = consume_start_of_line req c
consume_in header_lws req c = consume_folded req c
consume_in header_name req c = consume_header_name req c
consume_in space_before_header_value req c =
    if c == b' ' then goto header_value req else stop space_before_header_value req
consume_in header_value req c = consume_header_value req c
consume_in expecting_newline_2 req c =
    if c == b'\n' then goto header_line_start req else stop expecting_newline_2 req
consume_in expecting_newline_3 req c =
    if c == b'\n'
    then ret is_true (record { state = expecting_newline_3; req = req })
    else stop expecting_newline_3 req

unfoldable pub consume : UpgradeParser → ℕ → Outcome UpgradeParser
unfolding consume_in
consume p c = consume_in p.state p.req c

unfoldable pub parse_upgrade : UpgradeParser → Bytes → Parsed UpgradeParser
parse_upgrade p bytes = Stream.parse consume p bytes

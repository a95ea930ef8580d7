-- ===== src/WebSocket/RequestParser/Equivalence.antt =====
-- The two request parsers answer alike.
use splitsen.Base.{ℕ, Bytes, ◌≡◌, arith, Option-cases, inl, inr}
use splitsen.Stream.{map_outcome, map_parsed}
use splitsen.Stream.Laws.{parse-map}
use splitsen.Http.Chars
use splitsen.Http.Request.{Request, update_back, push_name, push_value}
use splitsen.Http.Parser
use splitsen.Http.Parser.{
  RequestParser, parse_request, push_digit, consume_method_start, consume_method, consume_uri,
  expect, consume_slash, consume_major_digit, consume_major, consume_minor_digit, consume_minor,
  consume_line_start, consume_lws, consume_name, consume_value, consume_end,
}
use splitsen.WebSocket.RequestParser.{
  State, method_start, method, uri, http_version_h, http_version_t_1, http_version_t_2,
  http_version_p, http_version_slash, http_version_major_start, http_version_major,
  http_version_minor_start, http_version_minor, expecting_newline_1, header_line_start, header_lws,
  header_name, space_before_header_value, header_value, expecting_newline_2, expecting_newline_3,
  UpgradeParser, consume_in, consume, consume_token, consume_start_of_line, consume_folded,
  consume_header_name, consume_header_value, parse_upgrade,
}

abbrev pub to_http_state : State → Parser.State
to_http_state method_start = Parser.method_start
to_http_state method = Parser.method
to_http_state uri = Parser.uri
to_http_state http_version_h = Parser.http_version_h
to_http_state http_version_t_1 = Parser.http_version_t_1
to_http_state http_version_t_2 = Parser.http_version_t_2
to_http_state http_version_p = Parser.http_version_p
to_http_state http_version_slash = Parser.http_version_slash
to_http_state http_version_major_start = Parser.http_version_major_start
to_http_state http_version_major = Parser.http_version_major
to_http_state http_version_minor_start = Parser.http_version_minor_start
to_http_state http_version_minor = Parser.http_version_minor
to_http_state expecting_newline_1 = Parser.expecting_newline_1
to_http_state header_line_start = Parser.header_line_start
to_http_state header_lws = Parser.header_lws
to_http_state header_name = Parser.header_name
to_http_state space_before_header_value = Parser.space_before_header_value
to_http_state header_value = Parser.header_value
to_http_state expecting_newline_2 = Parser.expecting_newline_2
to_http_state expecting_newline_3 = Parser.expecting_newline_3

-- The same parser, as the HTTP part has it.
abbrev pub to_http : UpgradeParser → RequestParser
to_http p = record { state = to_http_state p.state; req = p.req }

consume_in-to_http :
    (s : State) (req : Request) (c : ℕ)
    → map_outcome to_http (consume_in s req c) ≡ Parser.consume_in (to_http_state s) req c
unfolding consume_in consume_token consume_start_of_line consume_folded consume_header_name
    consume_header_value Parser.consume_in Chars.is_refused Chars.is_digit
consume_in-to_http method_start req c = ground arith
consume_in-to_http method req c = ground arith
consume_in-to_http uri req c = ground arith
consume_in-to_http http_version_h req c = ground arith
consume_in-to_http http_version_t_1 req c = ground arith
consume_in-to_http http_version_t_2 req c = ground arith
consume_in-to_http http_version_p req c = ground arith
consume_in-to_http http_version_slash req c = ground arith
consume_in-to_http http_version_major_start req c = ground arith
consume_in-to_http http_version_major req c = ground arith
consume_in-to_http http_version_minor_start req c = ground arith
consume_in-to_http http_version_minor req c = ground arith
consume_in-to_http expecting_newline_1 req c = ground arith
consume_in-to_http header_line_start req c = ground arith
consume_in-to_http header_lws req c = elim (Option-cases (update_back (push_value c) req.headers)) [
  | inl e ↦ rw e (ground arith)
  | inr (hs, e) ↦ rw e (ground arith)
]
consume_in-to_http header_name req c = elim (Option-cases (update_back (push_name c) req.headers)) [
  | inl e ↦ rw e (ground arith)
  | inr (hs, e) ↦ rw e (ground arith)
]
consume_in-to_http space_before_header_value req c = ground arith
consume_in-to_http header_value req c =
    elim (Option-cases (update_back (push_value c) req.headers)) [
      | inl e ↦ rw e (ground arith)
      | inr (hs, e) ↦ rw e (ground arith)
    ]
consume_in-to_http expecting_newline_2 req c = ground arith
consume_in-to_http expecting_newline_3 req c = ground arith

consume-to_http :
    (p : UpgradeParser) (c : ℕ) → map_outcome to_http (consume p c) ≡ Parser.consume (to_http p) c
unfolding consume Parser.consume
consume-to_http p c = consume_in-to_http p.state p.req c

-- From any state and on any bytes the request parser of the WebSocket part answers as that of the
-- HTTP part does: the same answer or fault, the same bytes left, the same state and request.
pub parse_upgrade-to_http :
    (p : UpgradeParser) (bytes : Bytes)
    → map_parsed to_http (parse_upgrade p bytes) ≡ parse_request (to_http p) bytes
unfolding parse_upgrade parse_request
parse_upgrade-to_http p bytes = parse-map to_http consume Parser.consume consume-to_http p bytes

-- ===== src/Tests/HttpTests.antt =====
-- The HTTP part on concrete requests.
use splitsen.Base.{◌≡◌, refl, [], ◌∷◌, Bytes, codes, arith}
use splitsen.Stream.{is_true, int_overflow, parsed, crashed}
use splitsen.Stream.Laws.{Ends}
use splitsen.Http.Chars.{is_refused, is_ctl, is_digit}
use splitsen.Http.Request.{Header, new_request, update_back}
use splitsen.Http.Parser.{expecting_newline_3, RequestParser, reset, consume, parse_request}
use splitsen.Http.Parser.Safety.{OnlyOverflow, Answer, parse_request-IsRequest}
use splitsen.Http.Parser.Grammar.{request_text}
use splitsen.Http.Parser.RoundTrip.{IsRequestText, parse-request_text, parse_overflow}

abbrev host : Header
host = record { name = codes "Host"; value = codes "a b" }

abbrev accept : Header
accept = record { name = codes "Accept"; value = [] }

abbrev text : Bytes
text =
    request_text (codes "GET") (codes "/x") (codes "1") (codes "10") (host ∷ accept ∷ [])
      (codes "z")

abbrev answer : RequestParser
answer = record {
  state = expecting_newline_3;
  req = record {
    method = codes "GET";
    uri = codes "/x";
    http_version_major = 1;
    http_version_minor = 10;
    headers = host ∷ accept ∷ [];
  };
}

parse-text : parse_request (reset (new_request 7 7)) text ≡ parsed is_true answer (codes "z")
unfolding parse_request consume new_request is_refused is_ctl is_digit update_back
parse-text = refl

text-IsRequestText :
    IsRequestText (codes "GET") (codes "/x") (codes "1") (codes "10") (host ∷ accept ∷ [])
unfolding is_refused is_ctl is_digit
text-IsRequestText = record {
  method_ne = λ e. cc;
  method_token = (refl, (refl, (refl, tt)));
  uri_bytes = ((refl, refl), ((refl, refl), tt));
  major_ne = λ e. cc;
  major_digits = (refl, tt);
  major_fits = omega arith;
  minor_ne = λ e. cc;
  minor_digits = (refl, (refl, tt));
  minor_fits = omega arith;
  fields = (
    ((λ e. cc), (refl, (refl, (refl, (refl, tt)))), (refl, (refl, (refl, tt)))),
    (((λ e. cc), (refl, (refl, (refl, (refl, (refl, (refl, tt)))))), tt), tt),
  );
}

parse-request_text_example :
    parse_request (reset (new_request 7 7)) text ≡ parsed is_true answer (codes "z")
parse-request_text_example =
    parse-request_text (codes "GET") (codes "/x") (codes "1") (codes "10") (host ∷ accept ∷ [])
      (codes "z") 7 7 text-IsRequestText

parse_request-IsRequest_example :
    Ends OnlyOverflow Answer (parse_request (reset (new_request 0 0)) (codes "GET / HTTP/1.0"))
parse_request-IsRequest_example = parse_request-IsRequest 0 0 (codes "GET / HTTP/1.0")

parse_overflow_example :
    parse_request (reset (new_request 0 0)) (codes "GET / HTTP/2147483648.0") ≡ crashed int_overflow
unfolding is_refused is_ctl is_digit
parse_overflow_example =
    parse_overflow (codes "GET") (codes "/") (codes "2147483648") (codes ".0") 0 0 (λ e. cc)
      (refl, (refl, (refl, tt))) ((refl, refl), tt)
      (refl, (refl, (refl, (refl, (refl, (refl, (refl, (refl, (refl, (refl, tt))))))))))
      (omega arith)

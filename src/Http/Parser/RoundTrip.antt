-- ===== src/Http/Parser/RoundTrip.antt =====
-- The parser reads back every request text of the grammar.
use splitsen.Base.{
  ℕ, ◌<◌, List, [], ◌∷◌, ◌++◌, Bytes, ◌≡◌, ◌≢◌, refl, ◌∙◌, arith, All, append-nil, append_assoc,
}
use splitsen.Stream.{is_true, int_overflow, parsed, crashed}
use splitsen.Stream.Laws.{parse-cons, parse-cons_stop}
use splitsen.Http.Chars.{token-ne_space, token-ne_colon, token-ne_tab, token-ne_cr, is_ctl-ne_cr}
use splitsen.Http.Request.{Header, Request, new_request, push_name, push_value, update_back-append}
use splitsen.Http.Parser.{
  header_line_start, header_name, header_value, expecting_newline_3, reset, int_max, consume,
  parse_request,
}
use splitsen.Http.Parser.Safety.{Token, UriByte, ValueByte, IsHeader}
use splitsen.Http.Parser.Grammar.{decimal, field_text, fields_text, request_text}
use splitsen.Http.Parser.Runs.{
  at, run, Digit, Fits, run_first, run-uri, run_http, run_major_start, run_minor_start,
  run_major_start-overflow,
}

-- The request with one more header, as far as it has been read.
abbrev opened : Request → List Header → Bytes → Bytes → Request
opened req hs name value = record req { headers = hs ++ record { name = name; value = value } ∷ [] }

run-name :
    (n : Bytes) (req : Request) (hs : List Header) (before rest : Bytes)
    → All Token n
    → run header_name (opened req hs before []) (n ++ (b':' ∷ b' ' ∷ rest))
      ≡ run header_value (opened req hs (before ++ n) []) rest
unfolding consume
run-name [] req hs before rest h = rw append-nil (parse-cons _ _ _ _ refl ∙ parse-cons _ _ _ _ refl)
run-name (c ∷ cs) req hs before rest h =
    parse-cons consume (at header_name (opened req hs before [])) c _ (
      ground (
        arith,
        token-ne_colon c h.0,
        update_back-append (push_name c) hs (record { name = before; value = [] }),
      ))
    ∙ run-name cs req hs (before ++ c ∷ []) rest h.1
    ∙ rw append_assoc

run-value :
    (v : Bytes) (req : Request) (hs : List Header) (name before rest : Bytes)
    → All ValueByte v
    → run header_value (opened req hs name before) (v ++ (b'\r' ∷ b'\n' ∷ rest))
      ≡ run header_line_start (opened req hs name (before ++ v)) rest
unfolding consume
run-value [] req hs name before rest h =
    rw append-nil (parse-cons _ _ _ _ refl ∙ parse-cons _ _ _ _ refl)
run-value (c ∷ cs) req hs name before rest h =
    parse-cons consume (at header_value (opened req hs name before)) c _ (
      ground (
        arith,
        is_ctl-ne_cr c h.0,
        update_back-append (push_value c) hs (record { name = name; value = before }),
      ))
    ∙ run-value cs req hs name (before ++ c ∷ []) rest h.1
    ∙ rw append_assoc

line_start_name :
    (c : ℕ) (req : Request) (rest : Bytes)
    → Token c
    → run header_line_start req (c ∷ rest)
      ≡ run header_name (opened req req.headers (c ∷ []) []) rest
unfolding consume
line_start_name c req rest h =
    parse-cons consume (at header_line_start req) c rest
      (ground (arith, token-ne_cr c h, token-ne_space c h, token-ne_tab c h))

run-field_text :
    (n v : Bytes) (req : Request) (rest : Bytes)
    → n ≢ []
    → All Token n
    → All ValueByte v
    → run header_line_start req (field_text (record { name = n; value = v }) rest)
      ≡ run header_line_start
          (record req { headers = req.headers ++ record { name = n; value = v } ∷ [] })
          rest
run-field_text [] v req rest ne n h = absurd (ne refl)
run-field_text (c ∷ cs) v req rest ne n h =
    line_start_name c req _ n.0
    ∙ run-name cs req req.headers (c ∷ []) _ n.1
    ∙ run-value v req req.headers (c ∷ cs) [] rest h

run-fields_text :
    (hs : List Header) (req : Request) (rest : Bytes)
    → All IsHeader hs
    → run header_line_start req (fields_text hs rest)
      ≡ parsed is_true (at expecting_newline_3 (record req { headers = req.headers ++ hs })) rest
unfolding consume
run-fields_text [] req rest h =
    rw append-nil (parse-cons _ _ _ _ refl ∙ parse-cons_stop _ _ _ _ refl)
run-fields_text (h ∷ hs) req rest (ok, oks) =
    run-field_text h.name h.value req _ ok.0 ok.1 ok.2
    ∙ run-fields_text hs (record req { headers = req.headers ++ h ∷ [] }) rest oks
    ∙ rw append_assoc

-- The parts of a request text: a method and header names of token bytes, none of them empty, a URI
-- without spaces and control bytes, version numbers of digits that fit an int, and values without
-- control bytes.
pub record IsRequestText (m u major minor : Bytes) (hs : List Header) : Type 0 where
  pub method_ne : m ≢ []
  pub method_token : All Token m
  pub uri_bytes : All UriByte u
  pub major_ne : major ≢ []
  pub major_digits : All Digit major
  pub major_fits : Fits major
  pub minor_ne : minor ≢ []
  pub minor_digits : All Digit minor
  pub minor_fits : Fits minor
  pub fields : All IsHeader hs

-- A fresh parser reads the text of any request, answers true at its last byte, leaves what follows,
-- and has filled in just that request, whatever the version fields of the request held before.
pub parse-request_text :
    (m u major minor : Bytes) (hs : List Header) (rest : Bytes) (v w : ℕ)
    → IsRequestText m u major minor hs
    → parse_request (reset (new_request v w)) (request_text m u major minor hs rest)
      ≡ parsed is_true
          (record {
            state = expecting_newline_3;
            req = record {
              method = m;
              uri = u;
              http_version_major = decimal major;
              http_version_minor = decimal minor;
              headers = hs;
            };
          })
          rest
unfolding parse_request new_request
parse-request_text m u major minor hs rest v w t =
    run_first m (new_request v w) _ t.method_token t.method_ne refl
    ∙ run-uri u _ _ t.uri_bytes
    ∙ run_http _ _
    ∙ run_major_start major _ _ t.major_digits t.major_ne refl t.major_fits
    ∙ run_minor_start minor _ _ t.minor_digits t.minor_ne refl t.minor_fits
    ∙ run-fields_text hs _ rest t.fields

-- A major version too large for an int is undefined behaviour, whatever the method and the URI are
-- and whatever follows the digits: a client can bring it about with one line.
pub parse_overflow :
    (m u major rest : Bytes) (v w : ℕ)
    → m ≢ []
    → All Token m
    → All UriByte u
    → All Digit major
    → int_max < decimal major
    → parse_request
        (reset (new_request v w))
        (m ++ (b' ' ∷ (u ++ (b' ' ∷ b'H' ∷ b'T' ∷ b'T' ∷ b'P' ∷ b'/' ∷ (major ++ rest)))))
      ≡ crashed int_overflow
unfolding parse_request new_request
parse_overflow m u major rest v w ne t b d big =
    run_first m (new_request v w) _ t ne refl
    ∙ run-uri u _ _ b
    ∙ run_http _ _
    ∙ run_major_start-overflow major _ rest d refl big

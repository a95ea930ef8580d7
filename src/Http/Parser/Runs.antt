-- ===== src/Http/Parser/Runs.antt =====
-- The parser on the request line. Each lemma runs it over one piece of the text, with any `rest`
-- behind it.
use splitsen.Base.{
  ℕ, ◌+◌, ◌*◌, ◌-◌, ◌≤◌, ◌<◌, true, false, [], ◌∷◌, ◌++◌, Bytes, ◌≡◌, ◌≢◌, refl, ◌∙◌, arith, All,
  append-nil, append_assoc, none, some, ◌==◌, inl, inr, ◌⊎◌,
}
use splitsen.Stream.{is_true, int_overflow, parsed, crashed}
use splitsen.Stream
use splitsen.Stream.Laws.{parse-cons}
use splitsen.Http.Chars.{is_digit, token-ne_space}
use splitsen.Http.Request.{Request}
use splitsen.Http.Parser.{
  State, method_start, method, uri, http_version_h, http_version_major_start, http_version_major,
  http_version_minor_start, http_version_minor, header_line_start, RequestParser, int_max,
  push_digit, consume,
}
use splitsen.Http.Parser.Safety.{Token, UriByte}
use splitsen.Http.Parser.Grammar.{decimal_from, decimal}

abbrev pub at : State → Request → RequestParser
at s req = record { state = s; req = req }

abbrev pub run : State → Request → Bytes → Stream.Parsed RequestParser
run s req = Stream.parse consume (at s req)

run-method :
    (m : Bytes) (req : Request) (rest : Bytes)
    → All Token m
    → run method req (m ++ (b' ' ∷ rest)) ≡ run uri (record req { method = req.method ++ m }) rest
unfolding consume
run-method [] req rest h = rw append-nil (parse-cons _ _ _ _ refl)
run-method (c ∷ cs) req rest h =
    parse-cons consume (at method req) c _ (ground (arith, token-ne_space c h.0))
    ∙ run-method cs (record req { method = req.method ++ c ∷ [] }) rest h.1
    ∙ rw append_assoc

pub run_first :
    (m : Bytes) (req : Request) (rest : Bytes)
    → All Token m
    → m ≢ []
    → req.method ≡ []
    → run method_start req (m ++ (b' ' ∷ rest)) ≡ run uri (record req { method = m }) rest
unfolding consume
run_first [] req rest h ne e = absurd (ne refl)
run_first (c ∷ cs) req rest h ne e =
    parse-cons consume (at method_start req) c _ (ground arith)
    ∙ run-method cs (record req { method = c ∷ [] }) rest h.1

pub run-uri :
    (u : Bytes) (req : Request) (rest : Bytes)
    → All UriByte u
    → run uri req (u ++ (b' ' ∷ rest)) ≡ run http_version_h (record req { uri = req.uri ++ u }) rest
unfolding consume
run-uri [] req rest h = rw append-nil (parse-cons _ _ _ _ refl)
run-uri (c ∷ cs) req rest h =
    parse-cons consume (at uri req) c _ (ground arith)
    ∙ run-uri cs (record req { uri = req.uri ++ c ∷ [] }) rest h.1
    ∙ rw append_assoc

abbrev pub Digit : ℕ → Type 0
Digit c = is_digit c ≡ true

-- A version number with room for the sum that `consume` forms before it takes '0' off.
abbrev pub Fits : Bytes → Type 0
Fits ds = decimal ds + b'0' ≤ int_max

decimal_from-le : (v : ℕ) (ds : Bytes) → v ≤ decimal_from v ds
decimal_from-le v [] = omega arith
decimal_from-le v (d ∷ ds) = omega (arith, decimal_from-le (v * 10 + (d - b'0')) ds)

push_digit-fits :
    (v c : ℕ)
    → Digit c
    → v * 10 + (c - b'0') + b'0' ≤ int_max
    → push_digit v c ≡ some (v * 10 + (c - b'0'))
unfolding push_digit is_digit
push_digit-fits v c d h = ground arith

push_digit_cases :
    (v c : ℕ)
    → Digit c
    → (push_digit v c ≡ none)
      ⊎ ((push_digit v c ≡ some (v * 10 + (c - b'0'))) × (v * 10 + (c - b'0') ≤ int_max))
unfolding push_digit is_digit
push_digit_cases v c d = ground arith

Digit-small : (c : ℕ) → Digit c → c ≤ 57
unfolding is_digit
Digit-small c h = ground arith

pub Digit-ne_dot : (c : ℕ) → Digit c → (c == b'.') ≡ false
unfolding is_digit
Digit-ne_dot c h = ground arith

pub Digit-ne_cr : (c : ℕ) → Digit c → (c == b'\r') ≡ false
unfolding is_digit
Digit-ne_cr c h = ground arith

pub run-major :
    (ds : Bytes) (req : Request) (rest : Bytes)
    → All Digit ds
    → decimal_from req.http_version_major ds + b'0' ≤ int_max
    → run http_version_major req (ds ++ (b'.' ∷ rest))
      ≡ run http_version_minor_start
          (record req { http_version_major = decimal_from req.http_version_major ds })
          rest
unfolding consume
run-major [] req rest h k = parse-cons _ _ _ _ refl
run-major (d ∷ ds) req rest h k =
    let v = req.http_version_major * 10 + (d - b'0') in
    parse-cons consume (at http_version_major req) d _ (
      ground
        (arith, push_digit-fits req.http_version_major d h.0, decimal_from-le v ds, Digit-ne_dot d))
    ∙ run-major ds (record req { http_version_major = v }) rest h.1 k

pub run_major_start :
    (ds : Bytes) (req : Request) (rest : Bytes)
    → All Digit ds
    → ds ≢ []
    → req.http_version_major ≡ 0
    → Fits ds
    → run http_version_major_start req (ds ++ (b'.' ∷ rest))
      ≡ run http_version_minor_start (record req { http_version_major = decimal ds }) rest
unfolding consume
run_major_start [] req rest h ne z k = absurd (ne refl)
run_major_start (d ∷ ds) req rest h ne z k =
    let v : ℕ = 0 * 10 + (d - b'0') in
    parse-cons consume (at http_version_major_start req) d _
      (ground (arith, push_digit-fits 0 d h.0, decimal_from-le v ds))
    ∙ run-major ds (record req { http_version_major = v }) rest h.1 k

pub run-minor :
    (ds : Bytes) (req : Request) (rest : Bytes)
    → All Digit ds
    → decimal_from req.http_version_minor ds + b'0' ≤ int_max
    → run http_version_minor req (ds ++ (b'\r' ∷ b'\n' ∷ rest))
      ≡ run header_line_start
          (record req { http_version_minor = decimal_from req.http_version_minor ds })
          rest
unfolding consume
run-minor [] req rest h k = parse-cons _ _ _ _ refl ∙ parse-cons _ _ _ _ refl
run-minor (d ∷ ds) req rest h k =
    let v = req.http_version_minor * 10 + (d - b'0') in
    parse-cons consume (at http_version_minor req) d _ (
      ground
        (arith, push_digit-fits req.http_version_minor d h.0, decimal_from-le v ds, Digit-ne_cr d))
    ∙ run-minor ds (record req { http_version_minor = v }) rest h.1 k

pub run_minor_start :
    (ds : Bytes) (req : Request) (rest : Bytes)
    → All Digit ds
    → ds ≢ []
    → req.http_version_minor ≡ 0
    → Fits ds
    → run http_version_minor_start req (ds ++ (b'\r' ∷ b'\n' ∷ rest))
      ≡ run header_line_start (record req { http_version_minor = decimal ds }) rest
unfolding consume
run_minor_start [] req rest h ne z k = absurd (ne refl)
run_minor_start (d ∷ ds) req rest h ne z k =
    let v : ℕ = 0 * 10 + (d - b'0') in
    parse-cons consume (at http_version_minor_start req) d _
      (ground (arith, push_digit-fits 0 d h.0, decimal_from-le v ds))
    ∙ run-minor ds (record req { http_version_minor = v }) rest h.1 k

-- "HTTP/" sets both numbers to 0.
pub run_http :
    (req : Request) (rest : Bytes)
    → run http_version_h req (b'H' ∷ b'T' ∷ b'T' ∷ b'P' ∷ b'/' ∷ rest)
      ≡ run http_version_major_start
          (record req { http_version_major = 0; http_version_minor = 0 })
          rest
unfolding consume Stream.parse
run_http req rest = refl

-- The digits of a number that an int cannot hold: the sum overflows on the way.
pub run-major_overflow :
    (ds : Bytes) (req : Request) (rest : Bytes)
    → All Digit ds
    → req.http_version_major ≤ int_max
    → int_max < decimal_from req.http_version_major ds
    → run http_version_major req (ds ++ rest) ≡ crashed int_overflow
unfolding consume Stream.parse
run-major_overflow [] req rest h fits big = absurd (omega arith)
run-major_overflow (d ∷ ds) req rest h fits big =
    let v = req.http_version_major * 10 + (d - b'0') in
    let dot = Digit-ne_dot d h.0 in
    elim (push_digit_cases req.http_version_major d h.0) [
      | inl none_left ↦ ground (arith, none_left, dot)
      | inr (pushed, fits') ↦
          parse-cons consume (at http_version_major req) d _ (ground (arith, dot))
          ∙ run-major_overflow ds (record req { http_version_major = v }) rest h.1 fits' big
    ]

pub run_major_start-overflow :
    (ds : Bytes) (req : Request) (rest : Bytes)
    → All Digit ds
    → req.http_version_major ≡ 0
    → int_max < decimal ds
    → run http_version_major_start req (ds ++ rest) ≡ crashed int_overflow
unfolding consume
run_major_start-overflow [] req rest h z big = absurd (omega arith)
run_major_start-overflow (d ∷ ds) req rest h z big =
    let v : ℕ = 0 * 10 + (d - b'0') in
    let small = Digit-small d h.0 in
    parse-cons consume (at http_version_major_start req) d _
      (ground (arith, push_digit-fits 0 d h.0))
    ∙ run-major_overflow ds (record req { http_version_major = v }) rest h.1 (omega arith) big

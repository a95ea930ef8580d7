-- ===== src/Http/Parser/Safety.antt =====
-- What `consume` keeps true of the request it fills, and that it never reads the back of an empty
-- vector of headers.
use splitsen.Base.{
  ℕ, ◌≤◌, false, List, [], ◌∷◌, ◌++◌, Bytes, some, ◌==◌, ◌≡◌, ◌≢◌, refl, arith, All, All-append,
  All-concat, concat-ne,
}
use splitsen.Stream.{Tribool, is_true, Fault, int_overflow}
use splitsen.Stream.Laws.{Keeps, Ends, parse-Ends}
use splitsen.Http.Chars.{is_refused, is_ctl}
use splitsen.Http.Request.{Header, Request, new_request, update_back, push_name, push_value}
use splitsen.Http.Parser.{
  State, method_start, method, uri, http_version_h, http_version_t_1, http_version_t_2,
  http_version_p, http_version_slash, http_version_major_start, http_version_major,
  http_version_minor_start, http_version_minor, header_line_start, header_lws, header_name,
  space_before_header_value, header_value, expecting_newline_3, RequestParser, reset, int_max,
  consume_in, consume, parse_request,
}

-- The bytes that may stand in a method or a header's name, in a URI, and in a header's value.
abbrev pub Token : ℕ → Type 0
Token c = is_refused c ≡ false

abbrev pub UriByte : ℕ → Type 0
UriByte c = (is_ctl c ≡ false) × ((c == b' ') ≡ false)

abbrev pub ValueByte : ℕ → Type 0
ValueByte c = is_ctl c ≡ false

abbrev pub IsHeader : Header → Type 0
IsHeader h = (h.name ≢ []) × All Token h.name × All ValueByte h.value

pub record IsRequest (req : Request) : Type 0 where
  pub method_token : All Token req.method
  pub uri_bytes : All UriByte req.uri
  pub headers_lem : All IsHeader req.headers

abbrev pub VersionFits : Request → Type 0
VersionFits req = (req.http_version_major ≤ int_max) × (req.http_version_minor ≤ int_max)

-- What each state adds: a method was read, the version's numbers are set, a header is open.
abbrev pub StateInv : State → Request → Type 0
StateInv method_start req = Unit
StateInv method req = req.method ≢ []
StateInv uri req = req.method ≢ []
StateInv http_version_h req = req.method ≢ []
StateInv http_version_t_1 req = req.method ≢ []
StateInv http_version_t_2 req = req.method ≢ []
StateInv http_version_p req = req.method ≢ []
StateInv http_version_slash req = req.method ≢ []
StateInv header_lws req = (req.method ≢ []) × VersionFits req × (req.headers ≢ [])
StateInv header_name req = (req.method ≢ []) × VersionFits req × (req.headers ≢ [])
StateInv space_before_header_value req = (req.method ≢ []) × VersionFits req × (req.headers ≢ [])
StateInv header_value req = (req.method ≢ []) × VersionFits req × (req.headers ≢ [])
StateInv _ req = (req.method ≢ []) × VersionFits req

abbrev pub Inv : State → Request → Type 0
Inv s req = IsRequest req × StateInv s req

-- An answer of true comes in the last state only.
abbrev pub Answer : Tribool → RequestParser → Type 0
Answer is_true p = Inv p.state p.req × (p.state ≡ expecting_newline_3)
Answer _ p = Inv p.state p.req

abbrev pub OnlyOverflow : Fault → Type 0
OnlyOverflow f = f ≡ int_overflow

module _ (P : Header → Type 0) (f : Header → Header) (keep : (h : Header) → P h → P (f h)) where
  update_back-All :
      (hs : List Header)
      → hs ≢ []
      → All P hs
      → (gs : List Header) × (update_back f hs ≡ some gs) × All P gs × (gs ≢ [])
  unfolding update_back
  update_back-All [] ne a = absurd (ne refl)
  update_back-All (h ∷ []) ne a = (f h ∷ [], refl, (keep h a.0, tt), λ e. cc)
  update_back-All (h ∷ g ∷ hs) ne a =
      let (gs, e, b, n) = update_back-All (g ∷ hs) (λ e. cc) a.1 in
      (h ∷ gs, rw (e, update_back), (a.0, b), λ e'. cc)

push_name-IsHeader : (c : ℕ) → Token c → (h : Header) → IsHeader h → IsHeader (push_name c h)
push_name-IsHeader c t h (ne, n, v) = (concat-ne h.name c, All-concat Token h.name c n t, v)

push_value-IsHeader : (c : ℕ) → ValueByte c → (h : Header) → IsHeader h → IsHeader (push_value c h)
push_value-IsHeader c t h (ne, n, v) = (ne, n, All-concat ValueByte h.value c v t)

-- What the two lemmas below say of the headers that come out.
abbrev Pushed : (Header → Header) → List Header → Type 0
Pushed f hs = (gs : List Header) × (update_back f hs ≡ some gs) × All IsHeader gs × (gs ≢ [])

push_name-All :
    (c : ℕ) → Token c → (hs : List Header) → hs ≢ [] → All IsHeader hs → Pushed (push_name c) hs
push_name-All c t = update_back-All IsHeader (push_name c) (push_name-IsHeader c t)

push_value-All :
    (c : ℕ)
    → ValueByte c
    → (hs : List Header) → hs ≢ []
    → All IsHeader hs
    → Pushed (push_value c) hs
push_value-All c t = update_back-All IsHeader (push_value c) (push_value-IsHeader c t)

line_start-All :
    (c : ℕ)
    → Token c
    → (hs : List Header) → All IsHeader hs
    → All IsHeader (hs ++ record { name = c ∷ []; value = [] } ∷ [])
line_start-All c t hs a =
    All-append IsHeader hs (record { name = c ∷ []; value = [] } ∷ []) a
      (((λ e. cc), (t, tt), tt), tt)

consume_in-Keeps :
    (s : State) (req : Request) (c : ℕ) → Inv s req → Keeps OnlyOverflow Answer (consume_in s req c)
unfolding consume_in
consume_in-Keeps method_start req c (r, i) =
    ground (
      arith,
      λ (t : Token c). All-concat Token req.method c r.method_token t,
      concat-ne req.method c,
    )
consume_in-Keeps method req c (r, i) =
    ground (
      arith,
      λ (t : Token c). All-concat Token req.method c r.method_token t,
      concat-ne req.method c,
    )
consume_in-Keeps uri req c (r, i) =
    ground (arith, λ (t : UriByte c). All-concat UriByte req.uri c r.uri_bytes t)
consume_in-Keeps header_lws req c (r, i) =
    ground (arith, λ (t : ValueByte c). push_value-All c t req.headers i.2 r.headers_lem)
consume_in-Keeps header_name req c (r, i) =
    ground (arith, λ (t : Token c). push_name-All c t req.headers i.2 r.headers_lem)
consume_in-Keeps header_value req c (r, i) =
    ground (arith, λ (t : ValueByte c). push_value-All c t req.headers i.2 r.headers_lem)
consume_in-Keeps header_line_start req c (r, i) = ground (
  arith,
  λ (t : Token c). line_start-All c t req.headers r.headers_lem,
  concat-ne req.headers (record { name = c ∷ []; value = [] }),
)
consume_in-Keeps http_version_major_start req c (r, i) = ground arith
consume_in-Keeps http_version_major req c (r, i) = ground arith
consume_in-Keeps http_version_minor_start req c (r, i) = ground arith
consume_in-Keeps http_version_minor req c (r, i) = ground arith
consume_in-Keeps _ req c (r, i) = ground arith

-- From a fresh parser and request, whatever bytes come: the header vector's back is never read while
-- it is empty (the one fault possible is the overflow of a version number), and what was read is
-- well formed: bytes of the right class everywhere, no header with an empty name, and, once the
-- answer is true, a method, version numbers that fit an int, and the parser in its last state.
pub parse_request-IsRequest :
    (major minor : ℕ) (bytes : Bytes)
    → Ends OnlyOverflow Answer (parse_request (reset (new_request major minor)) bytes)
unfolding parse_request new_request
parse_request-IsRequest major minor bytes =
    parse-Ends consume OnlyOverflow Answer
      (λ p c i. unfold consume in consume_in-Keeps p.state p.req c i)
      (reset (new_request major minor)) bytes
      (record { method_token = tt; uri_bytes = tt; headers_lem = tt }, tt)

-- ===== src/Http/Reply/Wire.antt =====
-- What a client reads in the buffers of a reply (splice/http/reply.hxx): a reader of HTTP/1.0
-- responses, on its own, and the round trip through it.
use splitsen.Base.{
  ℕ, ◌+◌, ◌-◌, ◌*◌, true, false, List, [], ◌∷◌, ◌++◌, append-nil, append_assoc, Bytes, Option, none,
  some, if◌then◌else◌, ◌==◌, drop, All, ◌≡◌, ◌≢◌, refl, sym, ap, ◌∙◌, arith,
}
use splitsen.Http.Request.{Header}
use splitsen.Http.Reply.{
  StatusType, ok, created, accepted, no_content, multiple_choices, moved_permanently,
  moved_temporarily, not_modified, bad_request, unauthorized, forbidden, not_found,
  internal_server_error, not_implemented, bad_gateway, service_unavailable, Reply, status_number,
  status_line, header_buffers, to_buffers, name_value_separator, crlf,
}

pub record Response : Type 0 where
  pub code : ℕ
  pub headers : List Header
  pub body : Bytes

-- What follows the first line feed.
unfoldable pub skip_line : Bytes → Option Bytes
skip_line [] = none
skip_line (c ∷ cs) = let rest = skip_line cs in if c == b'\n' then some cs else rest

-- The three digits behind the version, and what follows the line.
unfoldable pub read_code : Bytes → Option (ℕ × Bytes)
unfolding skip_line
read_code [] = none
read_code (a ∷ []) = none
read_code (a ∷ b ∷ []) = none
read_code (a ∷ b ∷ c ∷ cs) = elim (skip_line cs) [
  | none ↦ none
  | some rest ↦ some ((a - b'0') * 100 + (b - b'0') * 10 + (c - b'0'), rest)
]

data Place : Type 0 where
  at_line at_name at_blank at_value at_feed at_end : Place

abbrev add : Bytes → Bytes → Option (List Header × Bytes) → Option (List Header × Bytes)
add n v none = none
add n v (some (hs, rest)) = some (record { name = n; value = v } ∷ hs, rest)

-- The lines up to the empty one, and what follows it.
read_headers : Place → Bytes → Bytes → Bytes → Option (List Header × Bytes)
read_headers at_line n v [] = none
read_headers p n v [] = none
read_headers at_line n v (c ∷ cs) = elim (c == b'\r') [
  | true ↦ read_headers at_end [] [] cs
  | false ↦ elim (c == b':') [
    | true ↦ read_headers at_blank [] [] cs
    | false ↦ read_headers at_name (c ∷ []) [] cs
  ]
]
read_headers at_name n v (c ∷ cs) = elim (c == b'\r') [
  | true ↦ none
  | false ↦ elim (c == b':') [
    | true ↦ read_headers at_blank n [] cs
    | false ↦ read_headers at_name (n ++ c ∷ []) [] cs
  ]
]
read_headers at_blank n v (c ∷ cs) =
    let next = read_headers at_value n [] cs in if c == b' ' then next else none
read_headers at_value n v (c ∷ cs) = elim (c == b'\r') [
  | true ↦ read_headers at_feed n v cs
  | false ↦ read_headers at_value n (v ++ c ∷ []) cs
]
read_headers at_feed n v (c ∷ cs) =
    let next = read_headers at_line [] [] cs in if c == b'\n' then add n v next else none
read_headers at_end n v (c ∷ cs) = if c == b'\n' then some ([], cs) else none

abbrev read_from : ℕ → Option (List Header × Bytes) → Option Response
read_from k none = none
read_from k (some (hs, rest)) = some (record { code = k; headers = hs; body = rest })

abbrev read_rest : Option (ℕ × Bytes) → Option Response
unfolding read_headers
read_rest none = none
read_rest (some (k, rest)) = read_from k (read_headers at_line [] [] rest)

-- A response: the nine chars of the version, the code, the headers, and the body.
pub read_reply : Bytes → Option Response
read_reply text = read_rest (read_code (drop 9 text))

-- What a gathered write of the buffers puts on the connection.
unfoldable pub gather : List Bytes → Bytes
gather [] = []
gather (b ∷ bs) = b ++ gather bs

-- A header that the wire can carry: no colon in the name, and no carriage return.
abbrev pub IsField : Header → Type 0
IsField h = All (λ c. (c ≢ b':') × (c ≢ b'\r')) h.name × All (λ c. c ≢ b'\r') h.value

read_code-status_line :
    (s : StatusType) (rest : Bytes)
    → read_code (drop 9 (status_line s ++ rest)) ≡ some (status_number s, rest)
unfolding status_line status_number skip_line read_code
read_code-status_line ok rest = refl
read_code-status_line created rest = refl
read_code-status_line accepted rest = refl
read_code-status_line no_content rest = refl
read_code-status_line multiple_choices rest = refl
read_code-status_line moved_permanently rest = refl
read_code-status_line moved_temporarily rest = refl
read_code-status_line not_modified rest = refl
read_code-status_line bad_request rest = refl
read_code-status_line unauthorized rest = refl
read_code-status_line forbidden rest = refl
read_code-status_line not_found rest = refl
read_code-status_line internal_server_error rest = refl
read_code-status_line not_implemented rest = refl
read_code-status_line bad_gateway rest = refl
read_code-status_line service_unavailable rest = refl

module _ (n v : Bytes) (c : ℕ) (cs : Bytes) (plain : c ≢ b'\r') where
  value_step : read_headers at_value n v (c ∷ cs) ≡ read_headers at_value n (v ++ c ∷ []) cs
  unfolding read_headers
  value_step = ground arith

  name_step :
      c ≢ b':' → read_headers at_name n v (c ∷ cs) ≡ read_headers at_name (n ++ c ∷ []) [] cs
  unfolding read_headers
  name_step inside = ground arith

  line_step : c ≢ b':' → read_headers at_line n v (c ∷ cs) ≡ read_headers at_name (c ∷ []) [] cs
  unfolding read_headers
  line_step inside = ground arith

read_headers-value :
    (n v w rest : Bytes)
    → All (λ c. c ≢ b'\r') w
    → read_headers at_value n v (w ++ (crlf ++ rest))
      ≡ add n (v ++ w) (read_headers at_line [] [] rest)
unfolding read_headers
read_headers-value n v [] rest h =
    ap (λ (l : Bytes). add n l (read_headers at_line [] [] rest)) (sym (append-nil v))
read_headers-value n v (c ∷ w) rest (plain, h) =
    value_step n v c (w ++ (crlf ++ rest)) plain
    ∙ read_headers-value n (v ++ c ∷ []) w rest h
    ∙ ap (λ (l : Bytes). add n l (read_headers at_line [] [] rest)) (append_assoc v (c ∷ []) w)

read_headers-name :
    (n m rest : Bytes)
    → All (λ c. (c ≢ b':') × (c ≢ b'\r')) m
    → read_headers at_name n [] (m ++ (name_value_separator ++ rest))
      ≡ read_headers at_value (n ++ m) [] rest
unfolding read_headers
read_headers-name n [] rest h =
    ap (λ (l : Bytes). read_headers at_value l [] rest) (sym (append-nil n))
read_headers-name n (c ∷ m) rest (plain, h) =
    name_step n [] c (m ++ (name_value_separator ++ rest)) plain.1 plain.0
    ∙ read_headers-name (n ++ c ∷ []) m rest h
    ∙ ap (λ (l : Bytes). read_headers at_value l [] rest) (append_assoc n (c ∷ []) m)

read_headers-line :
    (m rest : Bytes)
    → All (λ c. (c ≢ b':') × (c ≢ b'\r')) m
    → read_headers at_line [] [] (m ++ (name_value_separator ++ rest))
      ≡ read_headers at_value m [] rest
unfolding read_headers
read_headers-line [] rest h = refl
read_headers-line (c ∷ m) rest (plain, h) =
    line_step [] [] c (m ++ (name_value_separator ++ rest)) plain.1 plain.0
    ∙ read_headers-name (c ∷ []) m rest h

-- The buffers behind the status line.
behind_status : List Header → Bytes → Bytes
unfolding header_buffers gather
behind_status hs content = gather (header_buffers hs ++ crlf ∷ content ∷ [])

read_headers-end :
    (content : Bytes) → read_headers at_line [] [] (crlf ++ (content ++ [])) ≡ some ([], content)
unfolding read_headers
read_headers-end content = λ i. some ([], append-nil content i)

read_headers-fields :
    (hs : List Header) (content : Bytes)
    → All IsField hs
    → read_headers at_line [] [] (behind_status hs content) ≡ some (hs, content)
unfolding behind_status header_buffers gather
read_headers-fields [] content fields = read_headers-end content
read_headers-fields (h ∷ hs) content (field, fields) =
    let rest = behind_status hs content in
    read_headers-line h.name (h.value ++ (crlf ++ rest)) field.0
    ∙ read_headers-value h.name [] h.value rest field.1
    ∙ ap (λ (o : Option (List Header × Bytes)). add h.name h.value o)
        (read_headers-fields hs content fields)

-- Any status line that gives a number, before some headers and a body.
pub read_reply-buffers :
    (line : Bytes) (hs : List Header) (content : Bytes) (k : ℕ)
    → ((rest : Bytes) → read_code (drop 9 (line ++ rest)) ≡ some (k, rest))
    → All IsField hs
    → read_reply (gather (line ∷ (header_buffers hs ++ crlf ∷ content ∷ [])))
      ≡ some (record { code = k; headers = hs; body = content })
unfolding read_reply gather read_rest behind_status
read_reply-buffers line hs content k starts fields =
    ap read_rest (starts (behind_status hs content))
    ∙ ap (read_from k) (read_headers-fields hs content fields)

-- A client reads in the gathered buffers of a reply its number, its headers and its content, if no
-- header has a carriage return, or a colon in its name.
pub read_reply-to_buffers :
    (r : Reply)
    → All IsField r.headers
    → read_reply (gather (to_buffers r))
      ≡ some (record { code = status_number r.status; headers = r.headers; body = r.content })
unfolding to_buffers
read_reply-to_buffers r fields =
    read_reply-buffers (status_line r.status) r.headers r.content (status_number r.status)
      (read_code-status_line r.status) fields

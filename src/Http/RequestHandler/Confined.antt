-- ===== src/Http/RequestHandler/Confined.antt =====
-- Which files http::server::request_handler can reach.
use splitsen.Base.{
  ℕ, true, false, [], ◌∷◌, ◌++◌, Bytes, Option, none, some, codes, ==_ne, All, ◌≡◌, ◌≢◌, refl, ap,
  arith, Bool-cases, inl, inr,
}
use splitsen.Http.Request.{Request}
use splitsen.Http.Reply.{Reply}
use splitsen.Http.RequestHandler.{
  url_decode, has_dots, is_absolute, ends_in_slash, add_index, c_str, fill_out, send_file, serve,
  handle_request,
}

-- A path under the root: from a slash on, and without two dots in a row.
abbrev pub IsConfined : Bytes → Type 0
IsConfined path = (is_absolute path ≡ true) × (has_dots path ≡ false)

slash-has_dots :
    (xs ys : Bytes)
    → ends_in_slash xs ≡ true
    → has_dots xs ≡ false
    → has_dots (xs ++ ys) ≡ has_dots ys
unfolding has_dots
slash-has_dots [] ys slash h = absurd cc
slash-has_dots (c ∷ []) [] slash h = refl
slash-has_dots (c ∷ []) (d ∷ ys) slash h = ground arith
slash-has_dots (c ∷ d ∷ xs) ys slash h = ground (arith, slash-has_dots (d ∷ xs) ys)

is_absolute-append : (xs ys : Bytes) → is_absolute xs ≡ true → is_absolute (xs ++ ys) ≡ true
is_absolute-append [] ys h = absurd cc
is_absolute-append (c ∷ xs) ys h = h

pub add_index-IsConfined : (path : Bytes) → IsConfined path → IsConfined (add_index path)
unfolding has_dots
add_index-IsConfined path h = elim (Bool-cases (ends_in_slash path)) [
  | inr file ↦ rw file h
  | inl dir ↦
      rw dir (is_absolute-append path _ h.0, slash-has_dots path (codes "index.html") dir h.1)
]

c_str-has_dots : (xs : Bytes) → has_dots xs ≡ false → has_dots (c_str xs) ≡ false
unfolding has_dots c_str
c_str-has_dots [] h = refl
c_str-has_dots (c ∷ []) h = ground arith
c_str-has_dots (c ∷ d ∷ xs) h = ground (arith, c_str-has_dots (d ∷ xs))

c_str-IsConfined : (path : Bytes) → IsConfined path → IsConfined (c_str path)
unfolding c_str
c_str-IsConfined [] h = absurd cc
c_str-IsConfined (c ∷ path) h = (ground arith, c_str-has_dots (c ∷ path) h.1)

-- A root without null chars stays whole.
pub c_str-append : (xs ys : Bytes) → All (λ c. c ≢ 0) xs → c_str (xs ++ ys) ≡ xs ++ c_str ys
unfolding c_str
c_str-append [] ys h = refl
c_str-append (c ∷ xs) ys (nz, h) = rw (==_ne c 0 nz, c_str-append xs ys h)

module _ (lexical_cast : ℕ → Bytes) (doc_root : Bytes) (whole : All (λ c. c ≢ 0) doc_root)
    (one other : Bytes → Option Bytes)
    (agree : (path : Bytes) → IsConfined path → one (doc_root ++ path) ≡ other (doc_root ++ path))
    (rep : Reply) where
  send_file-local :
      (path : Bytes)
      → IsConfined path
      → send_file lexical_cast one doc_root path rep
        ≡ send_file lexical_cast other doc_root path rep
  unfolding send_file
  send_file-local path h =
      let root = c_str-append doc_root path whole in
      ap (λ (o : Option Bytes). fill_out lexical_cast one doc_root path rep o)
        (rw root (agree (c_str path) (c_str-IsConfined path h)))

  serve-local :
      (decoded : Option Bytes)
      → serve lexical_cast one doc_root decoded rep ≡ serve lexical_cast other doc_root decoded rep
  unfolding serve
  serve-local none = refl
  serve-local (some path) = elim (Bool-cases (is_absolute path)) [
    | inr relative ↦ rw relative
    | inl absolute ↦ elim (Bool-cases (has_dots path)) [
      | inl dots ↦ rw (absolute, dots)
      | inr none_found ↦
          let confined = add_index-IsConfined path (absolute, none_found) in
          rw (absolute, none_found) (send_file-local (add_index path) confined)
    ]
  ]

  -- The handler reads only files under the root: with a root that holds no null char, two file
  -- systems that agree on each path made of the root, a slash and more without two dots in a row
  -- give the same reply to every request.
  pub handle_request-local :
      (req : Request)
      → handle_request lexical_cast one doc_root req rep
        ≡ handle_request lexical_cast other doc_root req rep
  unfolding handle_request
  handle_request-local req = serve-local (url_decode req.uri)

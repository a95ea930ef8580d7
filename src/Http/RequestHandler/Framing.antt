-- ===== src/Http/RequestHandler/Framing.antt =====
-- Every reply of http::server::request_handler is one that a client can take apart.
use splitsen.Base.{
  ℕ, Bool, true, not, ◌&&◌, List, [], ◌∷◌, Bytes, Option, none, some, codes, ◌==◌, length, All,
  Bool-cases, inl, inr, ◌≡◌, ◌≢◌, refl, ◌∙◌, arith,
}
use splitsen.Http.Request.{Request}
use splitsen.Http.Reply.{
  StatusType, Reply, status_number, stock_reply, to_buffers, two_headers, content_length,
  content_type,
}
use splitsen.Http.Reply.Wire.{read_reply, gather, IsField, read_reply-to_buffers}
use splitsen.Http.MimeTypes.{Mapping, mappings, look_up, extension_to_type, same_bytes}
use splitsen.Http.RequestHandler.{
  url_decode, has_dots, is_absolute, add_index, fill_out, send_file, serve, handle_request,
}

abbrev pub IsLine : Bytes → Type 0
IsLine = All (λ c. c ≢ b'\r')

-- Tests by which a literal shows that it fits a line or a name.
abbrev pub is_line : Bytes → Bool
is_line [] = true
is_line (c ∷ cs) = not (c == b'\r') && is_line cs

abbrev pub is_name : Bytes → Bool
is_name [] = true
is_name (c ∷ cs) = not (c == b':') && not (c == b'\r') && is_name cs

pub is_line-IsLine : (cs : Bytes) → is_line cs ≡ true → IsLine cs
is_line-IsLine [] h = tt
is_line-IsLine (c ∷ cs) h = ((λ e. ground arith), is_line-IsLine cs (ground arith))

pub is_name-All : (cs : Bytes) → is_name cs ≡ true → All (λ c. (c ≢ b':') × (c ≢ b'\r')) cs
is_name-All [] h = tt
is_name-All (c ∷ cs) h = (((λ e. ground arith), (λ e. ground arith)), is_name-All cs (ground arith))

look_up-IsLine :
    (ms : List Mapping) (extension : Bytes)
    → All (λ m. is_line m.mime_type ≡ true) ms
    → IsLine (look_up ms extension)
unfolding look_up
look_up-IsLine [] extension h = is_line-IsLine (codes "text/plain") refl
look_up-IsLine (m ∷ ms) extension (line, h) = elim (Bool-cases (same_bytes m.extension extension)) [
  | inl same ↦ rw same (is_line-IsLine m.mime_type line)
  | inr other ↦ rw other (look_up-IsLine ms extension h)
]

extension_to_type-IsLine : (extension : Bytes) → IsLine (extension_to_type extension)
unfolding extension_to_type
extension_to_type-IsLine extension =
    look_up-IsLine mappings extension (refl, (refl, (refl, (refl, (refl, tt)))))

module _ (lexical_cast : ℕ → Bytes) where
  -- Two headers: the length of the content, and a type.
  IsFramed : Reply → Type 0
  IsFramed r =
      (mime_type : Bytes) × (IsLine mime_type
        × (r.headers ≡ two_headers lexical_cast r.content mime_type))

  stock_reply-IsFramed : (s : StatusType) → IsFramed (stock_reply lexical_cast s)
  unfolding IsFramed stock_reply
  stock_reply-IsFramed s = (codes "text/html", (is_line-IsLine (codes "text/html") refl, refl))

  module _ (open_file : Bytes → Option Bytes) (doc_root : Bytes) (rep : Reply) where
    fill_out-IsFramed :
        (path : Bytes) (file : Option Bytes)
        → IsFramed (fill_out lexical_cast open_file doc_root path rep file)
    unfolding IsFramed fill_out
    fill_out-IsFramed path none = stock_reply-IsFramed _
    fill_out-IsFramed path (some file) = (_, (extension_to_type-IsLine _, refl))

    serve-IsFramed :
        (decoded : Option Bytes) → IsFramed (serve lexical_cast open_file doc_root decoded rep)
    unfolding serve send_file
    serve-IsFramed none = stock_reply-IsFramed _
    serve-IsFramed (some path) = elim (Bool-cases (is_absolute path)) [
      | inr relative ↦ rw relative (stock_reply-IsFramed _)
      | inl absolute ↦ elim (Bool-cases (has_dots path)) [
        | inl dots ↦ rw (absolute, dots) (stock_reply-IsFramed _)
        | inr none_found ↦ rw (absolute, none_found) (fill_out-IsFramed (add_index path) _)
      ]
    ]

  two_headers-IsField :
      (digits : (n : ℕ) → IsLine (lexical_cast n)) (content mime_type : Bytes)
      → IsLine mime_type
      → All IsField (two_headers lexical_cast content mime_type)
  two_headers-IsField digits content mime_type line = (
    (is_name-All content_length refl, digits (length content)),
    ((is_name-All content_type refl, line), tt),
  )

  -- Whatever the request, the files and the reply object are: what goes on the connection is a
  -- response that a client reads as the reply's number, two headers, Content-Length and
  -- Content-Type, and the reply's content as the body, and the first header gives the length of
  -- that body. `lexical_cast` is only required to write a number without a carriage return.
  pub handle_request-framed :
      (open_file : Bytes → Option Bytes) (doc_root : Bytes) (req : Request) (rep : Reply)
      → ((n : ℕ) → IsLine (lexical_cast n))
      → let reply = handle_request lexical_cast open_file doc_root req rep in
        (mime_type : Bytes) × (read_reply (gather (to_buffers reply))
          ≡ some (record {
            code = status_number reply.status;
            headers = two_headers lexical_cast reply.content mime_type;
            body = reply.content;
          }))
  unfolding handle_request IsFramed
  handle_request-framed open_file doc_root req rep digits =
      let reply = serve lexical_cast open_file doc_root (url_decode req.uri) rep in
      let (mime_type, (line, headers)) =
        serve-IsFramed open_file doc_root rep (url_decode req.uri) in
      let fields = two_headers-IsField digits reply.content mime_type line in
      (mime_type, read_reply-to_buffers reply (rw headers fields) ∙ rw headers refl)

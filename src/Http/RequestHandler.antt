-- ===== src/Http/RequestHandler.antt =====
-- http::server::request_handler (splice/http/request_handler.hxx). The files are a parameter: a path,
-- as `std::ifstream` gets it, has a content or cannot be opened for reading.
pub mod Confined
pub mod Decode
pub mod Framing
pub mod Replies
use splitsen.Base.{
  ℕ, zero, suc, ◌+◌, ◌-◌, ◌*◌, ◌%◌, Bool, true, false, not, ◌&&◌, ◌||◌, List, [], ◌∷◌, ◌++◌, Bytes,
  Option, none, some, ltb, leb, ◌==◌, if◌then◌else◌, take, drop, length, codes,
}
use splitsen.Hex.{is_space, hex_value}
use splitsen.Http.Request.{Request}
use splitsen.Http.Reply.{Reply, ok, bad_request, not_found, stock_reply, two_headers}
use splitsen.Http.MimeTypes.{extension_to_type}

-- What `is >> std::hex >> value` reads from a stream of two chars, as the char that `value` is cast
-- to: blanks are skipped, then there may be a sign, then digits up to the first other char. A 0x
-- with no digit behind it is refused.
unfoldable pub read_hex : ℕ → ℕ → Option ℕ
unfolding is_space hex_value
read_hex a b =
    if is_space a || a == b'+'
    then hex_value b
    else if a == b'-'
    then elim (hex_value b) [ none ↦ none | some v ↦ some ((256 - v) % 256) ]
    else if a == b'0' && (b == b'x' || b == b'X')
    then none
    else elim (hex_value a) [
      | none ↦ none
      | some v ↦ elim (hex_value b) [ none ↦ some v | some w ↦ some (v * 16 + w) ]
    ]

abbrev pub push : Option ℕ → Option Bytes → Option Bytes
push (some c) (some out) = some (c ∷ out)
push (some c) none = none
push none out = none

-- `url_decode`; `none` where it returns false.
unfoldable pub url_decode : Bytes → Option Bytes
unfolding read_hex
url_decode [] = some []
url_decode (c ∷ []) =
    if c == b'%' then none else if c == b'+' then some (b' ' ∷ []) else some (c ∷ [])
url_decode (c ∷ a ∷ []) =
    let rest = url_decode (a ∷ []) in
    if c == b'%' then none else push (some (if c == b'+' then b' ' else c)) rest
url_decode (c ∷ a ∷ b ∷ cs) = elim (c == b'%') [
  | true ↦ push (read_hex a b) (url_decode cs)
  | false ↦ push (some (if c == b'+' then b' ' else c)) (url_decode (a ∷ b ∷ cs))
]

-- `find("..") != npos`
unfoldable pub has_dots : Bytes → Bool
has_dots [] = false
has_dots (c ∷ []) = false
has_dots (c ∷ d ∷ cs) = c == b'.' && d == b'.' || has_dots (d ∷ cs)

-- `!request_path.empty() && request_path[0] == '/'`
abbrev pub is_absolute : Bytes → Bool
is_absolute [] = false
is_absolute (c ∷ cs) = c == b'/'

-- `request_path[request_path.size() - 1] == '/'`; the path is not empty where it is asked.
abbrev pub ends_in_slash : Bytes → Bool
ends_in_slash [] = false
ends_in_slash (c ∷ []) = c == b'/'
ends_in_slash (c ∷ d ∷ cs) = ends_in_slash (d ∷ cs)

abbrev pub add_index : Bytes → Bytes
add_index path = if ends_in_slash path then path ++ codes "index.html" else path

-- `find_last_of` of one char; `none` for npos.
unfoldable pub find_last : ℕ → Bytes → Option ℕ
find_last c [] = none
find_last c (d ∷ ds) = elim (find_last c ds) [
  | some i ↦ some (suc i)
  | none ↦ if c == d then some 0 else none
]

-- The extension of a path from the positions of its last dot and its last slash; npos is larger than
-- every position, so without a slash no dot is behind it.
abbrev pub extension_at : Option ℕ → Option ℕ → Bytes → Bytes
extension_at none slash path = []
extension_at (some dot) none path = []
extension_at (some dot) (some slash) path = if ltb slash dot then drop (suc dot) path else []

unfoldable pub extension_of : Bytes → Bytes
unfolding find_last
extension_of path = extension_at (find_last b'.' path) (find_last b'/' path) path

-- `full_path.c_str()`: what is in front of the first null char.
unfoldable pub c_str : Bytes → Bytes
c_str [] = []
c_str (c ∷ cs) = let rest = c_str cs in if c == 0 then [] else c ∷ rest

-- The loop over `is.read(buf, sizeof(buf))`, from a content read so far and the bytes not yet read.
unfoldable pub append_chunks : ℕ → Bytes → Bytes → Bytes
append_chunks zero content unread = content
append_chunks (suc fuel) content [] = content
append_chunks (suc fuel) content (c ∷ cs) =
    append_chunks fuel (content ++ take 512 (c ∷ cs)) (drop 512 (c ∷ cs))

module _ (lexical_cast : ℕ → Bytes) (open_file : Bytes → Option Bytes) (doc_root : Bytes) where
  -- `if (!is)` and what follows, for the file that was opened.
  unfoldable pub fill_out : Bytes → Reply → Option Bytes → Reply
  unfolding append_chunks extension_of
  fill_out path rep none = stock_reply lexical_cast not_found
  fill_out path rep (some file) =
      let content = append_chunks (length file) rep.content file in
      record {
        status = ok;
        headers = two_headers lexical_cast content (extension_to_type (extension_of path));
        content = content;
      }

  -- From `std::ifstream is(full_path.c_str(), ...)` on.
  unfoldable pub send_file : Bytes → Reply → Reply
  unfolding c_str fill_out
  send_file path rep = fill_out path rep (open_file (c_str (doc_root ++ path)))

  -- What follows the decoding: its failure, the guard, the index file, and the reply.
  unfoldable pub serve : Option Bytes → Reply → Reply
  unfolding has_dots send_file
  serve none rep = stock_reply lexical_cast bad_request
  serve (some path) rep =
      if not (is_absolute path) || has_dots path
      then stock_reply lexical_cast bad_request
      else send_file (add_index path) rep

  unfoldable pub handle_request : Request → Reply → Reply
  unfolding url_decode serve
  handle_request req rep = serve (url_decode req.uri) rep

-- ===== src/Http/RequestHandler/Replies.antt =====
-- What http::server::request_handler answers with: the loop that reads a file, the file's extension,
-- and the reply to a request for a file.
use splitsen.Base.{
  ℕ, zero, suc, ◌<◌, ◌≤◌, false, [], ◌∷◌, ◌++◌, append-nil, append_assoc, Bytes, Option, none, some,
  lt→ltb, ==_ne, length, length-append, take, drop, All, ◌≡◌, ◌≢◌, refl, sym, ap, ◌∙◌, arith,
}
use splitsen.Http.Request.{Request}
use splitsen.Http.Reply.{Reply, ok, two_headers}
use splitsen.Http.MimeTypes.{extension_to_type}
use splitsen.Http.RequestHandler.{
  append_chunks, find_last, extension_of, ends_in_slash, add_index, c_str, fill_out, send_file,
  serve, handle_request, url_decode,
}
use splitsen.Http.RequestHandler.Confined.{IsConfined, c_str-append}
use splitsen.Http.RequestHandler.Decode.{url_encode, url_decode-url_encode}

take-drop : (n : ℕ) (xs : Bytes) → take n xs ++ drop n xs ≡ xs
take-drop zero xs = refl
take-drop (suc n) [] = refl
take-drop (suc n) (x ∷ xs) = ap (λ (l : Bytes). x ∷ l) (take-drop n xs)

length-drop : (n : ℕ) (xs : Bytes) → length (drop n xs) ≤ length xs
length-drop zero xs = omega arith
length-drop (suc n) [] = omega arith
length-drop (suc n) (x ∷ xs) = omega (arith, length-drop n xs)

-- Chunk by chunk, the whole file is appended: fuel for one round for each byte is enough.
pub append_chunks-append :
    (fuel : ℕ) (content unread : Bytes)
    → length unread ≤ fuel
    → append_chunks fuel content unread ≡ content ++ unread
unfolding append_chunks
append_chunks-append zero content [] h = sym (append-nil content)
append_chunks-append zero content (c ∷ cs) h = absurd (omega arith)
append_chunks-append (suc fuel) content [] h = sym (append-nil content)
append_chunks-append (suc fuel) content (c ∷ cs) h =
    let left : length (drop 511 cs) ≤ fuel = omega (arith, length-drop 511 cs) in
    append_chunks-append fuel (content ++ c ∷ take 511 cs) (drop 511 cs) left
    ∙ append_assoc content (c ∷ take 511 cs) (drop 511 cs)
    ∙ ap (λ (l : Bytes). content ++ c ∷ l) (take-drop 511 cs)

find_last-none : (c : ℕ) (xs : Bytes) → All (λ d. c ≢ d) xs → find_last c xs ≡ none
unfolding find_last
find_last-none c [] h = refl
find_last-none c (d ∷ xs) (other, h) = rw (find_last-none c xs h, ==_ne c d other)

-- The last `c` is the one behind which there is none.
find_last-append :
    (c : ℕ) (xs ys : Bytes) → All (λ d. c ≢ d) ys → find_last c (xs ++ ys) ≡ find_last c xs
unfolding find_last
find_last-append c [] ys h = find_last-none c ys h
find_last-append c (d ∷ xs) ys h = rw (find_last-append c xs ys h)

find_last-found :
    (c : ℕ) (xs ys : Bytes) → All (λ d. c ≢ d) ys → find_last c (xs ++ c ∷ ys) ≡ some (length xs)
unfolding find_last
find_last-found c [] ys h = rw (find_last-none c ys h) (ground arith)
find_last-found c (d ∷ xs) ys h = rw (find_last-found c xs ys h)

drop-length : (xs ys : Bytes) (c : ℕ) → drop (suc (length xs)) (xs ++ c ∷ ys) ≡ ys
drop-length [] ys c = refl
drop-length (x ∷ xs) ys c = drop-length xs ys c

-- The path of a file with an extension, in a directory whose path ends in front of a slash.
abbrev pub file_path : Bytes → Bytes → Bytes → Bytes
file_path dir name extension = (dir ++ b'/' ∷ name) ++ b'.' ∷ extension

abbrev pub IsFileName : Bytes → Bytes → Type 0
IsFileName name extension =
    All (λ c. b'/' ≢ c) name × All (λ c. b'/' ≢ c) extension × All (λ c. b'.' ≢ c) extension

-- The extension of a file is what follows its last dot, whatever dots its directory has.
pub extension_of-file :
    (dir name extension : Bytes)
    → IsFileName name extension
    → extension_of (file_path dir name extension) ≡ extension
unfolding extension_of
extension_of-file dir name extension (in_name, in_extension, no_dot) =
    let stem = dir ++ b'/' ∷ name in
    let dot = find_last-found b'.' stem extension no_dot in
    let slash =
      find_last-append b'/' stem (b'.' ∷ extension) ((λ e. omega arith), in_extension)
      ∙ find_last-found b'/' dir name in_name in
    let behind : length dir < length stem = omega (arith, length-append dir (b'/' ∷ name)) in
    rw (extension_of, dot, slash, lt→ltb (length dir) (length stem) behind)
      (drop-length stem extension b'.')

ends_in_slash-append :
    (xs ys : Bytes) (c : ℕ) → ends_in_slash (xs ++ c ∷ ys) ≡ ends_in_slash (c ∷ ys)
ends_in_slash-append [] ys c = refl
ends_in_slash-append (x ∷ []) ys c = refl
ends_in_slash-append (x ∷ y ∷ xs) ys c = ends_in_slash-append (y ∷ xs) ys c

ends_in_slash-none :
    (c : ℕ) (cs : Bytes) → All (λ d. b'/' ≢ d) (c ∷ cs) → ends_in_slash (c ∷ cs) ≡ false
ends_in_slash-none c [] (h, hs) = ==_ne c b'/' (λ e. h (sym e))
ends_in_slash-none c (d ∷ cs) (h, hs) = ends_in_slash-none d cs hs

pub c_str-whole : (xs : Bytes) → All (λ c. c ≢ 0) xs → c_str xs ≡ xs
unfolding c_str
c_str-whole [] h = refl
c_str-whole (c ∷ xs) (nz, h) = rw (==_ne c 0 nz, c_str-whole xs h)

file_path-add_index :
    (dir name extension : Bytes)
    → IsFileName name extension
    → add_index (file_path dir name extension) ≡ file_path dir name extension
file_path-add_index dir name extension named =
    let file =
      ends_in_slash-append (dir ++ b'/' ∷ name) extension b'.'
      ∙ ends_in_slash-none b'.' extension ((λ e. omega arith), named.1) in
    rw file refl

-- A path that `url_decode` gives back and that `std::ifstream` sees whole.
abbrev pub IsPlain : Bytes → Type 0
IsPlain path = All (λ c. c < 256) path × All (λ c. c ≢ 0) path

module _ (lexical_cast : ℕ → Bytes) (open_file : Bytes → Option Bytes) (doc_root : Bytes) where
  -- A request for a path that is a file's, or has an index file's name added to it.
  pub handle_request-asked :
      (asked dir name extension file : Bytes) (req : Request) (rep : Reply)
      → IsFileName name extension
      → IsConfined asked
      → add_index asked ≡ file_path dir name extension
      → All (λ c. c ≢ 0) (file_path dir name extension)
      → All (λ c. c ≢ 0) doc_root
      → url_decode req.uri ≡ some asked
      → open_file (doc_root ++ file_path dir name extension) ≡ some file
      → handle_request lexical_cast open_file doc_root req rep ≡ record {
        status = ok;
        headers = two_headers lexical_cast (rep.content ++ file) (extension_to_type extension);
        content = rep.content ++ file;
      }
  unfolding handle_request serve send_file fill_out
  handle_request-asked asked dir name extension file req rep named confined indexed whole root
        decoded there =
      let path = file_path dir name extension in
      let opened =
        ap open_file (
          c_str-append doc_root path root
          ∙ ap (λ (l : Bytes). doc_root ++ l) (c_str-whole path whole))
        ∙ there in
      let read = append_chunks-append (length file) rep.content file (omega arith) in
      rw
        (
          decoded,
          confined.0,
          confined.1,
          indexed,
          opened,
          read,
          extension_of-file dir name extension named,
        )
        refl

  -- A request for the percent-encoded path of a file under the root: confined, of bytes other than
  -- null, in a root without null chars, with an extension. The reply is 200 with the file's bytes
  -- behind what the reply held, their length, and the type of the extension.
  pub handle_request-file :
      (dir name extension file : Bytes) (req : Request) (rep : Reply)
      → IsFileName name extension
      → IsConfined (file_path dir name extension)
      → IsPlain (file_path dir name extension)
      → All (λ c. c ≢ 0) doc_root
      → req.uri ≡ url_encode (file_path dir name extension)
      → open_file (doc_root ++ file_path dir name extension) ≡ some file
      → handle_request lexical_cast open_file doc_root req rep ≡ record {
        status = ok;
        headers = two_headers lexical_cast (rep.content ++ file) (extension_to_type extension);
        content = rep.content ++ file;
      }
  handle_request-file dir name extension file req rep named confined plain root uri there =
      let path = file_path dir name extension in
      handle_request-asked path dir name extension file req rep named confined
        (file_path-add_index dir name extension named) plain.1 root
        (ap url_decode uri ∙ url_decode-url_encode path plain.0) there

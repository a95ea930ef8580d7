-- ===== src/Tests/FilesTests.antt =====
-- The files of the echo server, prepared on a disk made up.
use splitsen.Base.{
  all_of, no_null, ℕ, ◌≡◌, ◌≢◌, refl, ap, true, false, [], ◌∷◌, ◌++◌, Bytes, Option, none, some,
  codes, length, take, drop, if◌then◌else◌, arith, Bool-cases, inl, inr,
}
use splitsen.Handshake.{starts_with}
use splitsen.Http.Request.{Request, new_request}
use splitsen.Http.Reply.{Reply, ok, two_headers}
use splitsen.Http.RequestHandler.{handle_request}
use splitsen.Examples.HtmlPreprocess.Filled.{IsFilled}
use splitsen.Examples.MultiEcho.Start.{Settings, settings, preprocess, handle_request-preprocess}
use splitsen.Http.MimeTypes.{same_bytes}
use splitsen.Examples.MultiEcho.Raw.{same_bytes-≡}
use splitsen.Examples.HtmlPreprocess.{FileSystem, required, prepare, html_preprocess}
use splitsen.Examples.HtmlPreprocess.Disk.{
  IsDisk, AreApart, AreMade, AreUntouched, same_bytes_self, same_bytes-≢,
}
use splitsen.Examples.HtmlPreprocess.Prepared.{IsRequired, html_preprocess-AreMade}

-- What is in each file.
abbrev Disk : Type 0
Disk = Bytes → Option Bytes

abbrev put : Bytes → Option Bytes → Disk → Disk
put to held disk path = if same_bytes path to then held else disk path

abbrev size_of : Option Bytes → ℕ × ℕ
size_of none = (1, 0)
size_of (some text) = (0, length text)

abbrev text_of : Option Bytes → Bytes
text_of none = []
text_of (some text) = text

abbrev file_system : FileSystem Disk
file_system = record {
  path_of = λ folder it. folder ++ b'/' ∷ it;
  extension =
      λ it. if same_bytes it (codes "splice_top_horz.png") then codes ".png" else codes ".html";
  exists = λ path disk. (0, true);
  is_directory = λ path disk. (0, true);
  is_regular_file = λ path disk. (0, true);
  equivalent = λ one other disk. (0, false);
  copy_file = λ from to disk. (0, put to (disk from) disk);
  file_size = λ path disk. size_of (disk path);
  read = λ path size disk. (true, take size (text_of (disk path)));
  write = λ path bytes disk. (true, put path (some bytes) disk);
}

abbrev content : Bytes → Disk → Option Bytes
content path disk = disk path

same_bytes_ne : (xs ys : Bytes) → xs ≢ ys → same_bytes xs ys ≡ false
same_bytes_ne xs ys ne = elim (Bool-cases (same_bytes xs ys)) [
  | inl same ↦ absurd (ne (same_bytes-≡ xs ys same))
  | inr other ↦ other
]

put_other :
    (to : Bytes) (held : Option Bytes) (disk : Disk) (path : Bytes)
    → path ≢ to
    → put to held disk path ≡ disk path
put_other to held disk path ne = rw (same_bytes_ne path to ne) refl

put_self : (to : Bytes) (held : Option Bytes) (disk : Disk) → put to held disk to ≡ held
put_self to held disk = rw (same_bytes_self to) refl

take_whole : (xs : Bytes) → take (length xs) xs ≡ xs
take_whole [] = refl
take_whole (x ∷ xs) = ap (λ (l : Bytes). x ∷ l) (take_whole xs)

file_system-IsDisk : IsDisk file_system content
file_system-IsDisk = record {
  copied = λ from to files h. put_self to (files from) files;
  copied_else = λ from to path files h ne. put_other to (files from) files path ne;
  sized = λ path text files h held. rw held refl;
  read_whole = λ path text files held good. rw held (take_whole text);
  written = λ path bytes files good. put_self path (some bytes) files;
  written_else = λ path bytes other files ne. put_other path (some bytes) files other ne;
}

folders-AreApart :
    AreApart file_system content (codes "s") (codes "d") (codes "me") (codes "7777") IsRequired
folders-AreApart =
    ((λ it that named names e. same_bytes-≢ _ _ refl e), (λ it that named names e. ap (drop 2) e))

-- Each file of the source folder has both placeholders.
abbrev disk : Disk
disk path =
    if starts_with (codes "s/") path
    then some (codes "a=value_of_hostName;b=value_of_portNumber;")
    else none

html_preprocess-AreMade_example :
    AreMade file_system content
      (codes "s")
      (codes "d")
      (codes "me")
      (codes "7777")
      required
      disk
      disk
      (html_preprocess file_system (codes "s") (codes "d") (codes "me") (codes "7777") disk).files
    × AreUntouched file_system content
        (codes "s")
        (codes "d")
        (codes "me")
        (codes "7777")
        required
        disk
        (html_preprocess file_system (codes "s") (codes "d") (codes "me") (codes "7777") disk).files
unfolding html_preprocess prepare
html_preprocess-AreMade_example =
    html_preprocess-AreMade file_system content (codes "s") (codes "d") (codes "me") (codes "7777")
      disk file_system-IsDisk folders-AreApart
      ((λ e. omega (arith, e)), ((λ e. omega (arith, e)), tt))
      (
        (λ e. omega (arith, e)),
        ((λ e. omega (arith, e)), ((λ e. omega (arith, e)), ((λ e. omega (arith, e)), tt))),
      )
      refl

-- What the client's page becomes.
index_is :
    (html_preprocess file_system (codes "s") (codes "d") (codes "me") (codes "7777") disk).files
      (codes "d/index.html")
    ≡ some (codes "a=\"me\";b=7777;")
unfolding html_preprocess
index_is = refl

-- The same on a full disk: no file is written back, the placeholders stay, and all is said to be done.
abbrev full_disk : FileSystem Disk
full_disk = record file_system { write = λ path bytes disk. (false, disk) }

full_disk_is :
    let p = html_preprocess full_disk (codes "s") (codes "d") (codes "me") (codes "7777") disk in
    (p.is_done ≡ true)
    × (p.files (codes "d/index.html") ≡ some (codes "a=value_of_hostName;b=value_of_portNumber;"))
unfolding html_preprocess
full_disk_is = (refl, refl)

abbrev from_arguments : Settings
from_arguments = record { server_name = codes "me"; server_port = codes "7777"; src = codes "s" }

settings_is : settings (codes "me" ∷ codes "7777" ∷ codes "s" ∷ []) none ≡ some from_arguments
unfolding settings
settings_is = refl

abbrev root_request : Request
root_request = record (new_request 1 1) { method = codes "GET"; uri = codes "/" }

abbrev empty_reply : Reply
empty_reply = record { status = ok; headers = []; content = [] }

handle_request-preprocess_example :
    (page : Bytes) × IsFilled
      (codes "me")
      (codes "7777")
      (codes "a=value_of_hostName;b=value_of_portNumber;")
      page
    × (handle_request
          (λ n. b'0' ∷ [])
          (λ path. content path (preprocess file_system from_arguments (codes "d") disk).files)
          (codes "d")
          root_request
          empty_reply
        ≡ record {
          status = ok;
          headers = two_headers (λ n. b'0' ∷ []) page (codes "text/html");
          content = page;
        })
unfolding preprocess html_preprocess prepare all_of
handle_request-preprocess_example =
    handle_request-preprocess file_system content from_arguments (codes "d") disk (λ n. b'0' ∷ [])
      (codes "a=value_of_hostName;b=value_of_portNumber;") root_request empty_reply
      file_system-IsDisk folders-AreApart (no_null (codes "me") refl) (no_null (codes "7777") refl)
      (no_null (codes "d") refl) refl refl refl refl refl refl

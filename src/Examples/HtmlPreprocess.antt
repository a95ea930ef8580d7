-- ===== src/Examples/HtmlPreprocess.antt =====
-- What the echo server of several protocols does to its html files when it starts (`html_preprocess` of
-- examples/multi_protocol_echo/server/my_http_session.hpp). Boost.Filesystem and the files are
-- parameters; an error code is its number, and 0 is none.
pub mod Filled
pub mod Disk
pub mod Rounds
pub mod Prepared
use splitsen.Base.{
  ℕ, zero, suc, Bool, true, false, not, ◌||◌, List, [], ◌∷◌, ◌++◌, Bytes, Option, none, some, codes,
  length, drop, ◌==◌, if◌then◌else◌,
}
use splitsen.Handshake.{starts_with}
use splitsen.Http.MimeTypes.{same_bytes}
use splitsen.Http.RequestHandler.{c_str}

-- The calls, on what the disk holds. `path_of` is `operator/`. `read` is the `read` of an ifstream for
-- a number of chars, with what it gives, and `write` that of an ofstream, with the disk once it is
-- closed; their flags say whether the stream is then good, which the program does not look at.
pub record FileSystem (Files : Type 0) : Type 0 where
  pub path_of : Bytes → Bytes → Bytes
  pub extension : Bytes → Bytes
  pub exists : Bytes → Files → ℕ × Bool
  pub is_directory : Bytes → Files → ℕ × Bool
  pub is_regular_file : Bytes → Files → ℕ × Bool
  pub equivalent : Bytes → Bytes → Files → ℕ × Bool
  pub copy_file : Bytes → Bytes → Files → ℕ × Files
  pub file_size : Bytes → Files → ℕ × ℕ
  pub read : Bytes → ℕ → Files → Bool × Bytes
  pub write : Bytes → Bytes → Files → Bool × Files

-- The error code and the flag that are returned, and the disk after it.
pub record Preprocessed (Files : Type 0) : Type 0 where
  pub ec : ℕ
  pub is_done : Bool
  pub files : Files

-- `required`, in the order of a std::set.
abbrev pub required : List Bytes
required =
    codes "admin_dashboard.html"
    ∷ codes "index.html"
    ∷ codes "json_client_multiprotocol.html"
    ∷ codes "splice_top_horz.png"
    ∷ []

-- `std::string(size, 0)` with what `read` puts in front.
abbrev pub read_into : ℕ → Bytes → Bytes
read_into zero bytes = []
read_into (suc n) [] = 0 ∷ read_into n []
read_into (suc n) (c ∷ cs) = c ∷ read_into n cs

-- `find` and `replace`, for a key that is not empty.
abbrev pub in_front : ℕ → Option Bytes → Option Bytes
in_front c none = none
in_front c (some bytes) = some (c ∷ bytes)

unfoldable pub replace_first : Bytes → Bytes → Bytes → Option Bytes
unfolding starts_with
replace_first key value [] = none
replace_first key value (c ∷ cs) =
    let rest = replace_first key value cs in
    if starts_with key (c ∷ cs) then some (value ++ drop (length key) (c ∷ cs)) else in_front c rest

-- The loop over `fr`
unfoldable pub replace_all : List (Bytes × Bytes) → Bytes → Option Bytes
unfolding replace_first c_str
replace_all [] buffer = some buffer
replace_all ((key, value) ∷ fr) buffer = elim (replace_first key (c_str value) buffer) [
  | none ↦ none
  | some replaced ↦ replace_all fr replaced
]

-- `fr`
abbrev pub placeholders : Bytes → Bytes → List (Bytes × Bytes)
placeholders host port =
    (codes "value_of_hostName", codes "\"" ++ (host ++ codes "\""))
    ∷ (codes "value_of_portNumber", port)
    ∷ []

abbrev pub failed : {Files : Type 0} → ℕ → Files → Preprocessed Files
failed ec files = record { ec = ec; is_done = false; files = files }

abbrev pub when : {Files : Type 0} → ℕ × Bool → Files → Preprocessed Files → Preprocessed Files
when (ec, test) files next = if test then next else failed ec files

abbrev pub unless_same :
    {Files : Type 0} → ℕ × Bool → Files → Preprocessed Files → Preprocessed Files
unless_same (ec, same) files next = if same then failed ec files else next

abbrev pub when_regular :
    {Files : Type 0} → ℕ × Bool → Files → Preprocessed Files → Preprocessed Files
when_regular (ec, regular) files next =
    if not regular || not (ec == 0) then failed ec files else next

-- The second loop, with the error code of what was called last.
abbrev pub or_stop :
    {Files : Type 0} → (ℕ → Files → Preprocessed Files) → Preprocessed Files → Preprocessed Files
or_stop next p = if p.is_done then next p.ec p.files else p

module _ {Files : Type 0} (fs : FileSystem Files) (src dest host port : Bytes) where
  -- Both tests of a folder
  abbrev pub when_folder : Bytes → Files → Preprocessed Files → Preprocessed Files
  when_folder path files next =
      when (fs.exists path files) files (when (fs.is_directory path files) files next)

  -- The first loop
  unfoldable pub when_all_regular : List Bytes → Files → Preprocessed Files → Preprocessed Files
  when_all_regular [] files next = next
  when_all_regular (it ∷ its) files next =
      let rest = when_all_regular its files next in
      when_regular (fs.is_regular_file (fs.path_of src it) files) files rest

  -- One round of the second loop: the error code, whether it goes on, and the disk.
  abbrev pub fill : ℕ → Bytes → Option Bytes → Files → Preprocessed Files
  fill ec to none files = failed ec files
  fill ec to (some buffer) files = record {
    ec = ec;
    is_done = true;
    files = (fs.write to buffer files).1;
  }

  abbrev pub fill_sized : Bytes → ℕ × ℕ → Files → Preprocessed Files
  fill_sized to (ec, size) files =
      if ec == 0
      then fill ec to
          (replace_all (placeholders host port) (read_into size (fs.read to size files).1)) files
      else failed ec files

  abbrev pub after_copy : Bytes → ℕ × Files → Preprocessed Files
  after_copy it (ec, files) =
      if ec == 0
      then (if same_bytes (fs.extension it) (codes ".html")
          then fill_sized (fs.path_of dest it) (fs.file_size (fs.path_of dest it) files) files
          else record { ec = ec; is_done = true; files = files })
      else failed ec files

  unfoldable pub prepare : Bytes → Files → Preprocessed Files
  unfolding replace_all
  prepare it files = after_copy it (fs.copy_file (fs.path_of src it) (fs.path_of dest it) files)

  unfoldable pub prepare_each : List Bytes → ℕ → Files → Preprocessed Files
  unfolding prepare
  prepare_each [] ec files = record { ec = ec; is_done = true; files = files }
  prepare_each (it ∷ its) ec files = or_stop (prepare_each its) (prepare it files)

  unfoldable pub html_preprocess : Files → Preprocessed Files
  unfolding when_all_regular prepare_each
  html_preprocess files = when_folder src files (
      when_folder dest files (
        unless_same (fs.equivalent src dest files) files
          (when_all_regular required files (prepare_each required 0 files))))

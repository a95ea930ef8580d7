-- ===== src/Examples/HtmlPreprocess/Disk.antt =====
-- What is said of the disk: what the calls of Boost.Filesystem do to it, and what is on it when files are
-- prepared.
use splitsen.Base.{
  Bool, true, false, ◌&&◌, List, [], ◌∷◌, Bytes, Option, none, some, codes, length, All, ◌⊎◌, ◌≡◌,
  ◌≢◌, refl, ap, arith,
}
use splitsen.Http.MimeTypes.{same_bytes}
use splitsen.Examples.HtmlPreprocess.{FileSystem, read_into, replace_all, placeholders, prepare}
use splitsen.Examples.HtmlPreprocess.Filled.{IsFilled}

-- How the calls are documented, with `content` for what is in a file, on a host whose streams do not
-- convert text: a copy that gives no error has the bytes of the original, a size that is given without
-- one is the number of bytes, a stream that is good after it was to read as many has read them, one that
-- is good after it was written to and closed has written them, and no other file is touched. A stream
-- may fail, and then nothing is said of what it has read, nor of what is in its own file.
pub record IsDisk {Files : Type 0} (fs : FileSystem Files) (content : Bytes → Files → Option Bytes)
    : Type 0 where
  pub copied :
      (from to : Bytes) (files : Files)
      → (fs.copy_file from to files).0 ≡ 0
      → content to (fs.copy_file from to files).1 ≡ content from files
  pub copied_else :
      (from to path : Bytes) (files : Files)
      → (fs.copy_file from to files).0 ≡ 0
      → path ≢ to
      → content path (fs.copy_file from to files).1 ≡ content path files
  pub sized :
      (path text : Bytes) (files : Files)
      → (fs.file_size path files).0 ≡ 0
      → content path files ≡ some text
      → (fs.file_size path files).1 ≡ length text
  pub read_whole :
      (path text : Bytes) (files : Files)
      → content path files ≡ some text
      → (fs.read path (length text) files).0 ≡ true
      → (fs.read path (length text) files).1 ≡ text
  pub written :
      (path bytes : Bytes) (files : Files)
      → (fs.write path bytes files).0 ≡ true
      → content path (fs.write path bytes files).1 ≡ some bytes
  pub written_else :
      (path bytes other : Bytes) (files : Files)
      → other ≢ path
      → content other (fs.write path bytes files).1 ≡ content other files

abbrev pub AreDistinct : List Bytes → Type 0
AreDistinct [] = Unit
AreDistinct (it ∷ its) = All (λ (that : Bytes). it ≢ that) its × AreDistinct its

abbrev pub IsIn : Bytes → List Bytes → Type 0
IsIn it [] = ⊥
IsIn it (x ∷ xs) = (it ≡ x) ⊎ IsIn it xs

-- `same_bytes` is equality.
pub same_bytes_self : (xs : Bytes) → same_bytes xs xs ≡ true
same_bytes_self [] = refl
same_bytes_self (x ∷ xs) = ground (arith, same_bytes_self xs)

pub same_bytes-≢ : (xs ys : Bytes) → same_bytes xs ys ≡ false → xs ≢ ys
same_bytes-≢ xs ys differ e = ground (arith, differ, same_bytes_self xs, ap (same_bytes xs) e)

module _ {Files : Type 0} (fs : FileSystem Files) (content : Bytes → Files → Option Bytes)
    (src dest host port : Bytes) where
  -- Whether both streams of a file work, the one that reads its copy and the one that writes it back,
  -- on the disk that has the copy.
  abbrev pub write_works : Bytes → Option Bytes → Files → Bool
  write_works to none files = true
  write_works to (some buffer) files = (fs.write to buffer files).0

  abbrev pub streams_work : Bytes → Files → Bool
  streams_work it files =
      let to = fs.path_of dest it in
      let size = (fs.file_size to files).1 in
      (fs.read to size files).0
      && write_works to
          (replace_all (placeholders host port) (read_into size (fs.read to size files).1)) files

  -- The same, on the disk that the round of the file begins with.
  abbrev pub round_works : Bytes → Files → Bool
  round_works it files =
      streams_work it (fs.copy_file (fs.path_of src it) (fs.path_of dest it) files).1

  -- What a required file that held a text becomes in a round that begins with `current` on the disk:
  -- itself, or filled in if it is an html file and no stream fails.
  abbrev pub IsMade : Bytes → Files → Option Bytes → Option Bytes → Type 0
  IsMade it current before after =
      (text : Bytes)
      → before ≡ some text
      → (same_bytes (fs.extension it) (codes ".html") ≡ false → after ≡ some text)
        × (same_bytes (fs.extension it) (codes ".html") ≡ true
            → (round_works it current ≡ false)
              ⊎ ((out : Bytes) × (after ≡ some out) × IsFilled host port text out))

  abbrev pub IsUntouched : Bytes → Files → Files → Type 0
  IsUntouched it files after =
      (path : Bytes) → path ≢ fs.path_of dest it → content path after ≡ content path files

  -- No folder has a file that the other folder is written to, and no two names are the same file.
  abbrev pub AreApart : (Bytes → Type 0) → Type 0
  AreApart IsName =
      ((it that : Bytes) → IsName it → IsName that → fs.path_of src it ≢ fs.path_of dest that)
      × ((it that : Bytes)
          → IsName it
          → IsName that
          → fs.path_of dest it ≡ fs.path_of dest that
          → it ≡ that)

  -- What the rounds make of the files, one after the other.
  abbrev pub AreMade : List Bytes → Files → Files → Files → Type 0
  AreMade [] files current after = Unit
  AreMade (it ∷ its) files current after =
      IsMade it current (content (fs.path_of src it) files) (content (fs.path_of dest it) after)
      × AreMade its files (prepare fs src dest host port it current).files after

  abbrev pub AreUntouched : List Bytes → Files → Files → Type 0
  AreUntouched its files after =
      (path : Bytes)
      → All (λ it. path ≢ fs.path_of dest it) its
      → content path after ≡ content path files

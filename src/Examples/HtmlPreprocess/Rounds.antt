-- ===== src/Examples/HtmlPreprocess/Rounds.antt =====
-- What the rounds of the second loop leave on the disk.
use splitsen.Base.{
  ℕ, Bool, true, false, ◌&&◌, ◌⊎◌, List, [], ◌∷◌, Bytes, Option, none, some, codes, length, All,
  ◌==◌, ==_iff, Bool-cases, inl, inr, ◌≡◌, ◌≢◌, refl, sym, ap, subst, ◌∙◌, arith,
}
use splitsen.Http.MimeTypes.{same_bytes}
use splitsen.Examples.HtmlPreprocess.{
  FileSystem, Preprocessed, read_into, replace_all, placeholders, failed, fill, fill_sized, prepare,
  prepare_each,
}
use splitsen.Examples.HtmlPreprocess.Filled.{HasNoNull, IsFilled, replace_all-IsFilled}
use splitsen.Examples.HtmlPreprocess.Disk.{
  IsDisk, AreDistinct, IsMade, IsUntouched, AreApart, AreMade, AreUntouched, write_works,
  streams_work,
}

read_into_whole : (text : Bytes) → read_into (length text) text ≡ text
read_into_whole [] = refl
read_into_whole (c ∷ text) = ap (λ l. c ∷ l) (read_into_whole text)

both_true : (a b : Bool) → (a && b) ≡ true → (a ≡ true) × (b ≡ true)
both_true true b h = (refl, h)
both_true false b h = absurd cc

module _ {Files : Type 0} (fs : FileSystem Files) (content : Bytes → Files → Option Bytes)
    (disk : IsDisk fs content) (src dest host port : Bytes) (host_whole : HasNoNull host)
    (port_whole : HasNoNull port) where
  abbrev filled_from : Bytes → ℕ → Files → Option Bytes
  filled_from to size files =
      replace_all (placeholders host port) (read_into size (fs.read to size files).1)

  -- The round ends well only if the placeholders are found.
  fill-done :
      (it : Bytes) (files : Files) (ec : ℕ) (filled : Option Bytes)
      → (fill fs src dest host port ec (fs.path_of dest it) filled files).is_done ≡ true
      → (out : Bytes) × (filled ≡ some out)
        × ((fill fs src dest host port ec (fs.path_of dest it) filled files).files
            ≡ (fs.write (fs.path_of dest it) out files).1)
  fill-done it files ec none h = absurd cc
  fill-done it files ec (some out) h = (out, refl, refl)

  read-whole :
      (path text : Bytes) (files : Files)
      → (fs.file_size path files).0 ≡ 0
      → content path files ≡ some text
      → (fs.read path (fs.file_size path files).1 files).0 ≡ true
      → read_into (fs.file_size path files).1 (fs.read path (fs.file_size path files).1 files).1
        ≡ text
  read-whole path text files no_error held good =
      let size = disk.sized path text files no_error held in
      let still : (fs.read path (length text) files).0 ≡ true =
        subst (λ (n : ℕ). (fs.read path n files).0 ≡ true) size good in
      ap (λ (n : ℕ). read_into n (fs.read path n files).1) size
      ∙ ap (read_into (length text)) (disk.read_whole path text files held still)
      ∙ read_into_whole text

  abbrev sized_round : Bytes → Files → Preprocessed Files
  sized_round it files =
      fill_sized fs src dest host port (fs.path_of dest it)
        (fs.file_size (fs.path_of dest it) files) files

  sized_round-done :
      (it : Bytes) (files : Files)
      → (sized_round it files).is_done ≡ true
      → ((text : Bytes)
          → content (fs.path_of dest it) files ≡ some text
          → (streams_work fs content src dest host port it files ≡ false)
            ⊎ ((out : Bytes) × (content (fs.path_of dest it) (sized_round it files).files
                  ≡ some out)
                × IsFilled host port text out))
        × IsUntouched fs content src dest host port it files (sized_round it files).files
  sized_round-done it files h =
      let to = fs.path_of dest it in
      let size = fs.file_size to files in
      elim (Bool-cases (size.0 == 0)) [
        | inr error ↦
            let stopped : sized_round it files ≡ failed size.0 files = rw error refl in
            absurd (ground (arith, sym h ∙ ap (λ (p : Preprocessed Files). p.is_done) stopped))
        | inl sized ↦
            let filled = filled_from to size.1 files in
            let round : sized_round it files ≡ fill fs src dest host port size.0 to filled files =
              rw sized refl in
            let (out, is_out, made) =
              fill-done it files size.0 filled
                (ap (λ (p : Preprocessed Files). p.is_done) (sym round) ∙ h) in
            let after : (sized_round it files).files ≡ (fs.write to out files).1 =
              ap (λ (p : Preprocessed Files). p.files) round ∙ made in
            (
              (λ text held.
                  elim (Bool-cases (streams_work fs content src dest host port it files)) [
                    | inr broken ↦ inl broken
                    | inl work ↦
                        let (reads, writes) = both_true _ _ work in
                        (inr (
                          out,
                          ap (content to) after
                              ∙ disk.written to out files (
                                  ap (λ o. write_works fs content src dest host port to o files)
                                    (sym is_out)
                                  ∙ writes),
                          replace_all-IsFilled host port text out host_whole port_whole (
                              ap (replace_all (placeholders host port)) (
                                sym
                                  (read-whole to text files ((==_iff size.0 0).0 sized) held reads))
                              ∙ is_out),
                        ))
                  ]),
              (λ path other. ap (content path) after ∙ disk.written_else to out path files other),
            )
      ]

  prepare-done :
      (it : Bytes) (files : Files)
      → (prepare fs src dest host port it files).is_done ≡ true
      → IsMade fs content src dest host port it files
          (content (fs.path_of src it) files)
          (content (fs.path_of dest it) (prepare fs src dest host port it files).files)
        × IsUntouched fs content src dest host port it files
            (prepare fs src dest host port it files).files
  unfolding prepare
  prepare-done it files h =
      let to = fs.path_of dest it in
      let c = fs.copy_file (fs.path_of src it) to files in
      elim (Bool-cases (c.0 == 0)) [
        | inr error ↦
            let stopped : prepare fs src dest host port it files ≡ failed c.0 c.1 = rw error refl in
            absurd (ground (arith, sym h ∙ ap (λ (p : Preprocessed Files). p.is_done) stopped))
        | inl copied ↦
            let no_error : c.0 ≡ 0 = (==_iff c.0 0).0 copied in
            let is_copy = disk.copied (fs.path_of src it) to files no_error in
            let others : (path : Bytes) → path ≢ to → content path c.1 ≡ content path files =
              λ path other. disk.copied_else (fs.path_of src it) to path files no_error other in
            elim (Bool-cases (same_bytes (fs.extension it) (codes ".html"))) [
              | inr plain ↦
                  let after : (prepare fs src dest host port it files).files ≡ c.1 =
                    rw (copied, plain) refl in
                  (
                    (λ text held. (
                      (λ not_html. ap (content to) after ∙ is_copy ∙ held),
                      (λ html. absurd (ground (arith, html, plain))),
                    )),
                    (λ path other. ap (content path) after ∙ others path other),
                  )
              | inl html ↦
                  let round : prepare fs src dest host port it files ≡ sized_round it c.1 =
                    rw (copied, html) refl in
                  let (filled, untouched) =
                    sized_round-done it c.1
                      (ap (λ (p : Preprocessed Files). p.is_done) (sym round) ∙ h) in
                  let after = ap (λ (p : Preprocessed Files). p.files) round in
                  (
                    (λ text held. (
                      (λ not_html. absurd (ground (arith, html, not_html))),
                      (λ is_html. elim (filled text (is_copy ∙ held)) [
                        | inl broken ↦ inl broken
                        | inr (out, is_out, is_filled) ↦
                            inr (out, ap (content to) after ∙ is_out, is_filled)
                      ]),
                    )),
                    (λ path other.
                        ap (content path) after ∙ untouched path other ∙ others path other),
                  )
            ]
      ]

  module _ (IsName : Bytes → Type 0) (apart : AreApart fs content src dest host port IsName) where
    -- What is made from files that a round left as they were.
    AreMade-before :
        (it : Bytes) (its : List Bytes) (files between current after : Files)
        → IsName it
        → All IsName its
        → IsUntouched fs content src dest host port it files between
        → AreMade fs content src dest host port its between current after
        → AreMade fs content src dest host port its files current after
    AreMade-before it [] files between current after named names untouched made = tt
    AreMade-before it (that ∷ its) files between current after named (name, names) untouched
          (this, made) =
        (
          (λ text held.
              this text (untouched (fs.path_of src that) (apart.0 that it name named) ∙ held)),
          AreMade-before it its files between (prepare fs src dest host port that current).files
              after named names untouched made,
        )

    dest-AreDistinct :
        (it : Bytes) (its : List Bytes)
        → IsName it
        → All IsName its
        → All (λ (that : Bytes). it ≢ that) its
        → All (λ that. fs.path_of dest it ≢ fs.path_of dest that) its
    dest-AreDistinct it [] named names distinct = tt
    dest-AreDistinct it (that ∷ its) named (name, names) (ne, distinct) =
        ((λ e. ne (apart.1 it that named name e)), dest-AreDistinct it its named names distinct)

    abbrev run_all : List Bytes → ℕ → Files → Preprocessed Files
    run_all = prepare_each fs src dest host port

    pub prepare_each-AreMade :
        (its : List Bytes) (ec : ℕ) (files : Files)
        → All IsName its
        → AreDistinct its
        → (run_all its ec files).is_done ≡ true
        → AreMade fs content src dest host port its files files (run_all its ec files).files
          × AreUntouched fs content src dest host port its files (run_all its ec files).files
    unfolding prepare_each
    prepare_each-AreMade [] ec files names distinct h = (tt, (λ path others. refl))
    prepare_each-AreMade (it ∷ its) ec files (named, names) (distinct, rest) h =
        let p = prepare fs src dest host port it files in
        elim (Bool-cases p.is_done) [
          | inr stopped ↦
              let same : run_all (it ∷ its) ec files ≡ p = rw stopped refl in
              absurd
                (ground (arith, stopped, sym h ∙ ap (λ (q : Preprocessed Files). q.is_done) same))
          | inl done ↦
              let on : run_all (it ∷ its) ec files ≡ run_all its p.ec p.files = rw done refl in
              let after = (run_all its p.ec p.files).files in
              let (made, untouched) = prepare-done it files done in
              let (all_made, all_untouched) =
                prepare_each-AreMade its p.ec p.files names rest
                  (ap (λ (q : Preprocessed Files). q.is_done) (sym on) ∙ h) in
              let stays : content (fs.path_of dest it) after
                  ≡ content (fs.path_of dest it) p.files =
                all_untouched (fs.path_of dest it) (dest-AreDistinct it its named names distinct) in
              subst
                (λ (q : Preprocessed Files).
                  AreMade fs content src dest host port (it ∷ its) files files q.files
                  × AreUntouched fs content src dest host port (it ∷ its) files q.files)
                (sym on)
                (
                  (
                    subst
                        (IsMade fs content src dest host port it files
                          (content (fs.path_of src it) files))
                        (sym stays) made,
                    AreMade-before it its files p.files p.files after named names untouched
                        all_made,
                  ),
                  (λ path (other, others). all_untouched path others ∙ untouched path other),
                )
        ]

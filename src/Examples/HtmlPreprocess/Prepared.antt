-- ===== src/Examples/HtmlPreprocess/Prepared.antt =====
-- What is on the disk when the files are prepared.
use splitsen.Base.{
  ℕ, Bool, true, false, List, [], ◌∷◌, Bytes, Option, All, inl, inr, ◌≡◌, refl, sym, subst, ◌∙◌,
  arith,
}
use splitsen.Examples.HtmlPreprocess.{
  FileSystem, Preprocessed, required, when, when_folder, unless_same, when_regular,
  when_all_regular, prepare_each, html_preprocess,
}
use splitsen.Examples.HtmlPreprocess.Filled.{HasNoNull}
use splitsen.Examples.HtmlPreprocess.Disk.{
  IsDisk, IsIn, AreApart, AreDistinct, AreMade, AreUntouched, same_bytes-≢,
}
use splitsen.Examples.HtmlPreprocess.Rounds.{prepare_each-AreMade}

module _ {Files : Type 0} where
  abbrev IsDone : Preprocessed Files → Type 0
  IsDone p = p.is_done ≡ true

  -- A guard that was passed makes no difference.
  when-next :
      (c : ℕ × Bool) (files : Files) (next : Preprocessed Files)
      → IsDone (when c files next)
      → when c files next ≡ next
  when-next (ec, true) files next h = refl
  when-next (ec, false) files next h = absurd cc

  unless_same-next :
      (c : ℕ × Bool) (files : Files) (next : Preprocessed Files)
      → IsDone (unless_same c files next)
      → unless_same c files next ≡ next
  unless_same-next (ec, false) files next h = refl
  unless_same-next (ec, true) files next h = absurd cc

  when_regular-next :
      (c : ℕ × Bool) (files : Files) (next : Preprocessed Files)
      → IsDone (when_regular c files next)
      → when_regular c files next ≡ next
  when_regular-next (ec, regular) files next h = ground (arith, h)

  still-IsDone : (p q : Preprocessed Files) → p ≡ q → IsDone p → IsDone q
  still-IsDone p q e h = subst IsDone e h

module _ {Files : Type 0} (fs : FileSystem Files) (src dest host port : Bytes) where
  when_folder-next :
      (path : Bytes) (files : Files) (next : Preprocessed Files)
      → IsDone (when_folder fs src dest host port path files next)
      → when_folder fs src dest host port path files next ≡ next
  when_folder-next path files next h =
      let inner = when (fs.is_directory path files) files next in
      let outer = when-next (fs.exists path files) files inner h in
      outer
      ∙ when-next (fs.is_directory path files) files next
          (still-IsDone (when (fs.exists path files) files inner) inner outer h)

  when_all_regular-next :
      (its : List Bytes) (files : Files) (next : Preprocessed Files)
      → IsDone (when_all_regular fs src dest host port its files next)
      → when_all_regular fs src dest host port its files next ≡ next
  unfolding when_all_regular
  when_all_regular-next [] files next h = refl
  when_all_regular-next (it ∷ its) files next h =
      let rest = when_all_regular fs src dest host port its files next in
      let c = fs.is_regular_file (fs.path_of src it) files in
      let first = when_regular-next c files rest h in
      first
      ∙ when_all_regular-next its files next (still-IsDone (when_regular c files rest) rest first h)

  html_preprocess-prepare_each :
      (files : Files)
      → IsDone (html_preprocess fs src dest host port files)
      → html_preprocess fs src dest host port files
        ≡ prepare_each fs src dest host port required 0 files
  unfolding html_preprocess
  html_preprocess-prepare_each files h =
      let p3 = prepare_each fs src dest host port required 0 files in
      let p2 = when_all_regular fs src dest host port required files p3 in
      let p1 = unless_same (fs.equivalent src dest files) files p2 in
      let p0 = when_folder fs src dest host port dest files p1 in
      let e0 = when_folder-next src files p0 h in
      let h0 = still-IsDone _ p0 e0 h in
      let e1 = when_folder-next dest files p1 h0 in
      let h1 = still-IsDone p0 p1 e1 h0 in
      let e2 = unless_same-next (fs.equivalent src dest files) files p2 h1 in
      let h2 = still-IsDone p1 p2 e2 h1 in e0 ∙ e1 ∙ e2 ∙ when_all_regular-next required files p3 h2

abbrev pub IsRequired : Bytes → Type 0
IsRequired it = IsIn it required

required-IsRequired : All IsRequired required
required-IsRequired =
    (inl refl, (inr (inl refl), (inr (inr (inl refl)), (inr (inr (inr (inl refl))), tt))))

required-AreDistinct : AreDistinct required
required-AreDistinct =
    let differ = λ (xs ys : Bytes). same_bytes-≢ xs ys in
    (
      (differ _ _ refl, (differ _ _ refl, (differ _ _ refl, tt))),
      ((differ _ _ refl, (differ _ _ refl, tt)), ((differ _ _ refl, tt), (tt, tt))),
    )

module _ {Files : Type 0} (fs : FileSystem Files) (content : Bytes → Files → Option Bytes)
    (src dest host port : Bytes) where
  -- If `html_preprocess` says that it is done, every required file that there was in the source folder is
  -- in the other one: the picture as it was, and each html file with the quoted host name where
  -- "value_of_hostName" stood first and, after that, the port where "value_of_portNumber" stood first,
  -- both of which it had, unless the stream that reads its copy or the one that writes it back fails in
  -- its round, which nothing looks at; and all other files are as they were, in any case. The calls
  -- are taken to do as documented, no required file is in both folders or has two names, and the host
  -- name and the port hold no null char.
  pub html_preprocess-AreMade :
      (files : Files)
      → IsDisk fs content
      → AreApart fs content src dest host port IsRequired
      → HasNoNull host
      → HasNoNull port
      → (html_preprocess fs src dest host port files).is_done ≡ true
      → AreMade fs content src dest host port required files files
          (html_preprocess fs src dest host port files).files
        × AreUntouched fs content src dest host port required files
            (html_preprocess fs src dest host port files).files
  html_preprocess-AreMade files disk apart host_whole port_whole h =
      let same = html_preprocess-prepare_each fs src dest host port files h in
      subst
        (λ (p : Preprocessed Files).
          AreMade fs content src dest host port required files files p.files
          × AreUntouched fs content src dest host port required files p.files)
        (sym same)
        (prepare_each-AreMade fs content disk src dest host port host_whole port_whole IsRequired
          apart required 0 files required-IsRequired required-AreDistinct
          (still-IsDone (html_preprocess fs src dest host port files) _ same h))

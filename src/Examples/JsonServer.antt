-- ===== src/Examples/JsonServer.antt =====
-- The answer of the JSON server to msg_question_files_current_directory
-- (examples/json_server/my_session.cpp): the regular files of the current directory, a path that is too
-- long shortened. The directory is a parameter. An iterator that leaves the string is undefined: `none`.
pub mod Messages
pub mod Session
use splitsen.Base.{
  length-take, length-drop, ℕ, ◌+◌, ◌-◌, ◌/◌, ◌<◌, ◌≤◌, Bool, true, false, List, [], ◌∷◌, ◌++◌,
  Bytes, Option, none, some, length, length-append, take, drop, codes, ltb, lt→ltb, ge→ltb, All,
  if◌then◌else◌, Bool-cases, inl, inr, ◌≡◌, refl, ◌∙◌, arith,
}

-- `std::advance` of an iterator at `pos` by `plus - minus`, in a string of `size` chars.
unfoldable pub advance : ℕ → ℕ → ℕ → ℕ → Option ℕ
advance size pos plus minus =
    if ltb (pos + plus) minus
    then none
    else if ltb size (pos + plus - minus)
    then none
    else some (pos + plus - minus)

-- The strings [begin, mid_left) and [mid_right, end), with the dots.
abbrev pub join_ends : Bytes → Option ℕ → Option ℕ → Option Bytes
join_ends file (some mid_left) (some mid_right) =
    some (take mid_left file ++ (codes "..." ++ drop mid_right file))
join_ends file none right = none
join_ends file (some mid_left) none = none

unfoldable pub shorten : ℕ → Bytes → Option Bytes
unfolding advance
shorten max_length file =
    let size = length file in
    let middle = size / 2 in
    if ltb max_length size
    then join_ends file (advance size middle (max_length / 2) (middle + 2))
        (advance size middle (size - middle + 1) (max_length / 2))
    else some file

abbrev pub push_front : Option Bytes → Option (List Bytes) → Option (List Bytes)
push_front none files = none
push_front (some file) none = none
push_front (some file) (some files) = some (file ∷ files)

-- The loop over the directory's entries: whether each is a regular file, and its path.
unfoldable pub list_files : ℕ → List (Bool × Bytes) → Option (List Bytes)
unfolding shorten
list_files max_length [] = some []
list_files max_length ((is_regular, file) ∷ entries) =
    let rest = list_files max_length entries in
    if is_regular then push_front (shorten max_length file) rest else rest

advance-inside :
    (size pos plus minus to : ℕ)
    → pos + plus ≡ to + minus
    → to ≤ size
    → advance size pos plus minus ≡ some to
unfolding advance
advance-inside size pos plus minus to e h =
    let there : pos + plus - minus ≡ to = omega (arith, e) in
    rw (ge→ltb (pos + plus) minus (omega (arith, e)), there, ge→ltb size to h) refl

-- What a path that is too long becomes, if the limit is four or more.
abbrev pub shortened : ℕ → Bytes → Bytes
shortened max_length file =
    take (max_length / 2 - 2) file ++ (codes "..." ++ drop (length file + 1 - max_length / 2) file)

module _ (max_length : ℕ) (enough : 4 ≤ max_length) (file : Bytes)
    (long : max_length < length file) where
  shorten-long : shorten max_length file ≡ some (shortened max_length file)
  unfolding shorten
  shorten-long =
      let size = length file in
      let middle = size / 2 in
      rw
        (
          lt→ltb max_length size long,
          advance-inside size middle (max_length / 2) (middle + 2) (max_length / 2 - 2)
              (omega (arith, enough)) (omega (arith, long)),
          advance-inside size middle (size - middle + 1) (max_length / 2)
              (size + 1 - max_length / 2) (omega (arith, long)) (omega (arith, enough)),
        )
        refl

  length-shortened : length (shortened max_length file) ≤ max_length
  length-shortened =
      let n = length file + 1 - max_length / 2 in
      let left = length-take (max_length / 2 - 2) file (omega (arith, long)) in
      let right = length-drop n file (omega (arith, long, enough)) in
      let whole = length-append (take (max_length / 2 - 2) file) (codes "..." ++ drop n file) in
      omega (arith, left, right, whole, long, enough)

-- Below four the first iterator is moved in front of the string.
shorten-undefined :
    (max_length : ℕ) (file : Bytes)
    → max_length < 4
    → max_length < length file
    → shorten max_length file ≡ none
unfolding shorten advance
shorten-undefined max_length file small long =
    let size = length file in
    rw
      (
        lt→ltb max_length size long,
        lt→ltb (size / 2 + max_length / 2) (size / 2 + 2) (omega (arith, small)),
      )
      refl

-- A path in the answer, shortened if it has to be.
abbrev pub answered : ℕ → Bytes → Bytes
answered max_length file = if ltb max_length (length file) then shortened max_length file else file

abbrev pub regular : List (Bool × Bytes) → List Bytes
regular [] = []
regular ((is_regular, file) ∷ entries) =
    if is_regular then file ∷ regular entries else regular entries

abbrev pub answers : ℕ → List Bytes → List Bytes
answers max_length [] = []
answers max_length (file ∷ files) = answered max_length file ∷ answers max_length files

module _ (max_length : ℕ) (enough : 4 ≤ max_length) where
  shorten-answered : (file : Bytes) → shorten max_length file ≡ some (answered max_length file)
  unfolding shorten
  shorten-answered file = elim (Bool-cases (ltb max_length (length file))) [
    | inr short ↦ rw short refl
    | inl long ↦
        let less : max_length < length file = ground (arith, long) in
        shorten-long max_length enough file less ∙ rw long refl
  ]

  length-answered : (file : Bytes) → length (answered max_length file) ≤ max_length
  length-answered file = elim (Bool-cases (ltb max_length (length file))) [
    | inr short ↦ let fits : length file ≤ max_length = ground (arith, short) in rw short fits
    | inl long ↦
        let less : max_length < length file = ground (arith, long) in
        rw long (length-shortened max_length enough file less)
  ]

  answers-All :
      (files : List Bytes) → All (λ file. length file ≤ max_length) (answers max_length files)
  answers-All [] = tt
  answers-All (file ∷ files) = (length-answered file, answers-All files)

  pub list_files-regular :
      (entries : List (Bool × Bytes))
      → list_files max_length entries ≡ some (answers max_length (regular entries))
  unfolding list_files
  list_files-regular [] = refl
  list_files-regular ((true, file) ∷ entries) =
      rw (shorten-answered file, list_files-regular entries) refl
  list_files-regular ((false, file) ∷ entries) = list_files-regular entries

  -- With a limit of four or more no iterator leaves its string, whatever the directory holds: the answer
  -- has its regular files, in order, each whole if it is no longer than the limit, and else what it
  -- begins and ends with around three dots; and none of them is longer than the limit.
  pub list_files-fits :
      (entries : List (Bool × Bytes))
      → (list_files max_length entries ≡ some (answers max_length (regular entries)))
        × All (λ file. length file ≤ max_length) (answers max_length (regular entries))
  list_files-fits entries = (list_files-regular entries, answers-All (regular entries))

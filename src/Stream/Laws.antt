-- ===== src/Stream/Laws.antt =====
-- Laws of the parse loop, for any `consume`: where a read is cut does not matter while the state is
-- kept, an invariant of one step is one of the loop, and what is returned is a tail of the input.
use splitsen.Base.{ℕ, ◌+◌, ◌≤◌, [], ◌∷◌, ◌++◌, length, arith, ◌≡◌, ◌≢◌, refl, ap, ◌∙◌, Bytes}
use splitsen.Stream.{
  Tribool, is_true, is_false, indeterminate, Fault, Outcome, ret, undefined, Parsed, parsed,
  crashed, resume, parse, continue, map_outcome, map_parsed,
}

module _ {ℓ} {S : Type ℓ} (consume : S → ℕ → Outcome S) where
  resume-continue :
      (o : Outcome S) (cs more : Bytes) (k j : S → Parsed S)
      → ((s : S) → j s ≡ continue consume (k s) more)
      → resume o (cs ++ more) j ≡ continue consume (resume o cs k) more
  unfolding continue
  resume-continue (ret indeterminate s) cs more k j h = h s
  resume-continue (ret is_true s) cs more k j h = refl
  resume-continue (ret is_false s) cs more k j h = refl
  resume-continue (undefined f) cs more k j h = refl

  -- Parsing two reads one after the other, with the state kept, is parsing them as one.
  pub parse-append :
      (s : S) (xs ys : Bytes)
      → parse consume s (xs ++ ys) ≡ continue consume (parse consume s xs) ys
  unfolding parse
  parse-append s [] ys = unfold continue in refl
  parse-append s (c ∷ cs) ys =
      resume-continue (consume s c) cs ys (λ s'. parse consume s' cs)
        (λ s'. parse consume s' (cs ++ ys)) (λ s'. parse-append s' cs ys)

  -- A step that answers `indeterminate` can be taken off the front.
  pub parse-cons :
      (s : S) (c : ℕ) (cs : Bytes) {s' : S}
      → consume s c ≡ ret indeterminate s'
      → parse consume s (c ∷ cs) ≡ parse consume s' cs
  unfolding parse
  parse-cons s c cs e = rw e

  pub parse-cons_stop :
      (s : S) (c : ℕ) (cs : Bytes) {s' : S}
      → consume s c ≡ ret is_true s'
      → parse consume s (c ∷ cs) ≡ parsed is_true s' cs
  unfolding parse
  parse-cons_stop s c cs e = rw e

-- `P t s` holds of what a step returns, and no step of an allowed fault excepted by `F` crashes.
abbrev pub Keeps {ℓ κ} :
    {S : Type ℓ} → (Fault → Type κ) → (Tribool → S → Type κ) → Outcome S → Type κ
Keeps F P (ret t s) = P t s
Keeps F P (undefined f) = F f

abbrev pub Ends {ℓ κ} : {S : Type ℓ} → (Fault → Type κ) → (Tribool → S → Type κ) → Parsed S → Type κ
Ends F P (parsed t s rest) = P t s
Ends F P (crashed f) = F f

module _ {ℓ κ} {S : Type ℓ} (consume : S → ℕ → Outcome S) (F : Fault → Type κ)
    (P : Tribool → S → Type κ) where
  pub resume-Ends :
      (o : Outcome S) (cs : Bytes) (k : S → Parsed S)
      → Keeps F P o
      → ((s : S) → P indeterminate s → Ends F P (k s))
      → Ends F P (resume o cs k)
  resume-Ends (ret indeterminate s) cs k h j = j s h
  resume-Ends (ret is_true s) cs k h j = h
  resume-Ends (ret is_false s) cs k h j = h
  resume-Ends (undefined f) cs k h j = h

  -- What every step keeps holds at the end of the loop.
  pub parse-Ends :
      ((s : S) (c : ℕ) → P indeterminate s → Keeps F P (consume s c))
      → (s : S) (xs : Bytes) → P indeterminate s
      → Ends F P (parse consume s xs)
  unfolding parse
  parse-Ends keep s [] h = h
  parse-Ends keep s (c ∷ cs) h =
      resume-Ends (consume s c) cs (λ s'. parse consume s' cs) (keep s c h)
        (λ s' h'. parse-Ends keep s' cs h')

pub append-ne : (xs ys : Bytes) → ys ≢ [] → xs ++ ys ≢ []
append-ne [] ys h e = h e
append-ne (x ∷ xs) ys h e = cc

module _ {ℓ} {S : Type ℓ} (consume : S → ℕ → Outcome S) (q : S) (ys : Bytes) (more : ys ≢ []) where
  -- The state in which a cut parse goes on.
  abbrev pub Resumes : Parsed S → Type ℓ
  Resumes before =
      (s : S) × ((before ≡ parsed indeterminate s []) × (parse consume s ys ≡ parsed is_true q []))

  true-rest : (s : S) (rest : Bytes) → parsed is_true s rest ≡ parsed is_true q [] → rest ≡ []
  true-rest s rest e = cc

  resume-Resumes :
      (o : Outcome S) (cs : Bytes)
      → ((s : S) → parse consume s (cs ++ ys) ≡ parsed is_true q [] → Resumes (parse consume s cs))
      → resume o (cs ++ ys) (λ s. parse consume s (cs ++ ys)) ≡ parsed is_true q []
      → Resumes (resume o cs (λ s. parse consume s cs))
  resume-Resumes (ret indeterminate s) cs h e = h s e
  resume-Resumes (ret is_true s) cs h e = absurd (append-ne cs ys more (true-rest s (cs ++ ys) e))
  resume-Resumes (ret is_false s) cs h e = absurd cc
  resume-Resumes (undefined f) cs h e = absurd cc

  -- A parse that is done at its very last byte only asks for more before that.
  pub parse-Resumes :
      (s : S) (xs : Bytes)
      → parse consume s (xs ++ ys) ≡ parsed is_true q []
      → Resumes (parse consume s xs)
  unfolding parse
  parse-Resumes s [] e = (s, (refl, e))
  parse-Resumes s (c ∷ cs) e = resume-Resumes (consume s c) cs (λ s' e'. parse-Resumes s' cs e') e

-- Parsers whose steps answer alike answer alike.
module _ {ℓ κ} {S : Type ℓ} {T : Type κ} (f : S → T) (one : S → ℕ → Outcome S)
    (other : T → ℕ → Outcome T)
    (step : (s : S) (c : ℕ) → map_outcome f (one s c) ≡ other (f s) c) where
  resume-map :
      (o : Outcome S) (cs : Bytes) (k : S → Parsed S) (j : T → Parsed T)
      → ((s : S) → map_parsed f (k s) ≡ j (f s))
      → map_parsed f (resume o cs k) ≡ resume (map_outcome f o) cs j
  resume-map (ret indeterminate s) cs k j h = h s
  resume-map (ret is_true s) cs k j h = refl
  resume-map (ret is_false s) cs k j h = refl
  resume-map (undefined u) cs k j h = refl

  pub parse-map : (s : S) (cs : Bytes) → map_parsed f (parse one s cs) ≡ parse other (f s) cs
  unfolding parse
  parse-map s [] = refl
  parse-map s (c ∷ cs) =
      resume-map (one s c) cs (λ s'. parse one s' cs) (λ t. parse other t cs)
        (λ s'. parse-map s' cs)
      ∙ ap (λ (o : Outcome T). resume o cs (λ t. parse other t cs)) (step s c)

-- A size that grows by at most one with each byte.
module _ {ℓ} {S : Type ℓ} (size : S → ℕ) (consume : S → ℕ → Outcome S) where
  abbrev pub Grows : ℕ → Outcome S → Type 0
  Grows n (ret t s) = size s ≤ n
  Grows n (undefined f) = Unit

  -- What was read and what is left fit the number together.
  abbrev pub Fits : ℕ → Parsed S → Type 0
  Fits n (parsed t s rest) = size s + length rest ≤ n
  Fits n (crashed f) = Unit

  Fits-le : (m n : ℕ) (r : Parsed S) → m ≤ n → Fits m r → Fits n r
  Fits-le m n (parsed t s rest) h f = omega arith
  Fits-le m n (crashed u) h f = tt

  resume-Fits :
      (n : ℕ) (o : Outcome S) (cs : Bytes) (k : S → Parsed S)
      → Grows n o
      → ((s : S) → Fits (size s + length cs) (k s))
      → Fits (n + length cs) (resume o cs k)
  resume-Fits n (ret indeterminate s) cs k g h =
      Fits-le (size s + length cs) (n + length cs) (k s) (omega arith) (h s)
  resume-Fits n (ret is_true s) cs k g h = omega arith
  resume-Fits n (ret is_false s) cs k g h = omega arith
  resume-Fits n (undefined u) cs k g h = tt

  pub parse-Fits :
      ((s : S) (c : ℕ) → Grows (size s + 1) (consume s c))
      → (s : S) (cs : Bytes) → Fits (size s + length cs) (parse consume s cs)
  unfolding parse
  parse-Fits step s [] = omega arith
  parse-Fits step s (c ∷ cs) =
      let all =
        resume-Fits (size s + 1) (consume s c) cs (λ s'. parse consume s' cs) (step s c)
          (λ s'. parse-Fits step s' cs) in
      let same : size s + 1 + length cs ≡ size s + length (c ∷ cs) = omega arith in rw same at all

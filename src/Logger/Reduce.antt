-- ===== src/Logger/Reduce.antt =====
-- `reduce` shows both ends of what is long.
use splitsen.Base.{
  length-drop, ℕ, zero, suc, ◌+◌, ◌-◌, ◌<◌, ◌≤◌, Bool, true, [], ◌∷◌, ◌++◌, append_assoc, Bytes,
  codes, length, take, drop, ltb, ◌==◌, ==_ne, ==_iff, Bool-cases, inl, inr, if◌then◌else◌, ◌≡◌,
  refl, sym, ap, ◌∙◌, arith,
}
use splitsen.Logger.{shown, reduce_from, reduce}

module _ (isprint : ℕ → Bool) (int_text : ℕ → Bytes) where
  -- Each char that cannot be printed as a backslash and its number.
  abbrev pub escaped : Bytes → Bytes
  escaped [] = []
  escaped (c ∷ cs) = shown isprint int_text c ++ escaped cs

  -- Past the jump the rest is shown, with fuel for as many bytes.
  reduce_from-rest :
      (fuel : ℕ) (begin it : Bytes) (i : ℕ)
      → length it ≤ fuel
      → 9 < i
      → reduce_from isprint int_text fuel begin it i ≡ escaped it
  unfolding reduce_from
  reduce_from-rest zero begin [] i enough past = refl
  reduce_from-rest zero begin (c ∷ cs) i enough past = absurd (omega (arith, enough))
  reduce_from-rest (suc fuel) begin [] i enough past = refl
  reduce_from-rest (suc fuel) begin (c ∷ cs) i enough past =
      rw (==_ne i 9 (λ e. omega (arith, e, past))) (
        ap (λ l. shown isprint int_text c ++ l)
          (reduce_from-rest fuel begin cs (i + 1) (omega (arith, enough)) (omega (arith, past))))

  -- Up to it, with `k` steps to go.
  reduce_from-jump :
      (k fuel : ℕ) (begin it : Bytes) (i : ℕ)
      → k + i ≡ 9
      → k < length it
      → k + 11 ≤ fuel
      → 11 ≤ length begin
      → reduce_from isprint int_text fuel begin it i
        ≡ escaped (take (suc k) it) ++ (codes " ... " ++ escaped (drop (length begin - 10) begin))
  unfolding reduce_from
  reduce_from-jump k fuel begin [] i to_go more enough size = absurd (omega (arith, more))
  reduce_from-jump k zero begin (c ∷ cs) i to_go more enough size = absurd (omega (arith, enough))
  reduce_from-jump zero (suc fuel) begin (c ∷ cs) i to_go more enough size =
      let nine : (i == 9) ≡ true = (==_iff i 9).1 (omega (arith, to_go)) in
      let there : length begin - 11 + 1 ≡ length begin - 10 = omega (arith, size) in
      let left = length-drop (length begin - 10) begin (omega arith) in
      let rest =
        reduce_from-rest fuel begin (drop (length begin - 10) begin) (i + 1)
          (omega (arith, enough, left, size)) (omega (arith, to_go)) in
      rw (nine, there, rest) (sym (append_assoc (shown isprint int_text c) [] _))
  reduce_from-jump (suc k) (suc fuel) begin (c ∷ cs) i to_go more enough size =
      rw (==_ne i 9 (λ e. omega (arith, e, to_go))) (
        ap (λ l. shown isprint int_text c ++ l)
          (reduce_from-jump k fuel begin cs (i + 1) (omega (arith, to_go)) (omega (arith, more))
            (omega (arith, enough)) size)
        ∙ sym (append_assoc (shown isprint int_text c) (escaped (take (suc k) cs)) _))

  abbrev pub quoted : Bytes → Bytes
  quoted text = b'"' ∷ (text ++ b'"' ∷ [])

  -- What is logged of some bytes: all of them if they are less than 25, else the first ten and the last
  -- ten, each that cannot be printed as its number, with dots between them; in quotes.
  pub reduce-escaped :
      (bytes : Bytes)
      → reduce isprint int_text bytes
        ≡ quoted (
            if ltb (length bytes) 25
            then bytes
            else escaped (take 10 bytes)
              ++ (codes " ... " ++ escaped (drop (length bytes - 10) bytes)))
  unfolding reduce
  reduce-escaped bytes = elim (Bool-cases (ltb (length bytes) 25)) [
    | inl short ↦ rw short refl
    | inr long ↦
        let size : 25 ≤ length bytes = ground (arith, long) in
        rw long (
          ap quoted (
            reduce_from-jump 9 (length bytes) bytes bytes 0 (omega arith) (omega (arith, size))
              (omega (arith, size)) (omega (arith, size))))
  ]

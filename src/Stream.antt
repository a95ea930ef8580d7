-- ===== src/Stream.antt =====
-- The loop of the three `parse` member templates (splice/http/request_parser.hpp and
-- splice/web_socket/rfc6455_engine.hpp, twice): feed the bytes of [begin, end) to `consume` one at a
-- time until it answers, and return the answer with the iterator. The object that `consume` changes
-- (the parser with the request or frame that it fills) is the state `S`. The iterator that comes
-- back is modelled by the bytes from it up to `end`. Behaviour that C++ leaves undefined is an
-- outcome of its own.
pub mod Laws
use splitsen.Base.{List, [], ◌∷◌, ◌++◌, ℕ, Bytes}

-- boost::tribool
pub data Tribool : Type 0 where
  is_true is_false indeterminate : Tribool

-- What C++ leaves undefined: `back()` of an empty vector, and overflow of a signed int.
pub data Fault : Type 0 where
  back_of_empty int_overflow : Fault

pub data Outcome {ℓ} (S : Type ℓ) : Type ℓ where
  ret : Tribool → S → Outcome S
  undefined : Fault → Outcome S

pub data Parsed {ℓ} (S : Type ℓ) : Type ℓ where
  parsed : Tribool → S → Bytes → Parsed S
  crashed : Fault → Parsed S

-- The same answer about another state, for parsers that keep theirs differently.
abbrev pub map_outcome {ℓ κ} : {S : Type ℓ} {T : Type κ} → (S → T) → Outcome S → Outcome T
map_outcome f (ret t s) = ret t (f s)
map_outcome f (undefined u) = undefined u

abbrev pub map_parsed {ℓ κ} : {S : Type ℓ} {T : Type κ} → (S → T) → Parsed S → Parsed T
map_parsed f (parsed t s rest) = parsed t (f s) rest
map_parsed f (crashed u) = crashed u

-- `if (result || !result) return`, with the rest of the loop as `k`.
abbrev pub resume {ℓ} : {S : Type ℓ} → Outcome S → Bytes → (S → Parsed S) → Parsed S
resume (ret indeterminate s) cs k = k s
resume (ret is_true s) cs k = parsed is_true s cs
resume (ret is_false s) cs k = parsed is_false s cs
resume (undefined f) cs k = crashed f

unfoldable pub parse {ℓ} : {S : Type ℓ} → (S → ℕ → Outcome S) → S → Bytes → Parsed S
parse consume s [] = parsed indeterminate s []
parse consume s (c ∷ cs) = resume (consume s c) cs (λ s'. parse consume s' cs)

-- What a caller does that keeps the parser and its target, and parses the next read.
unfoldable pub continue {ℓ} : {S : Type ℓ} → (S → ℕ → Outcome S) → Parsed S → Bytes → Parsed S
continue consume (parsed indeterminate s rest) more = parse consume s (rest ++ more)
continue consume (parsed is_true s rest) more = parsed is_true s (rest ++ more)
continue consume (parsed is_false s rest) more = parsed is_false s (rest ++ more)
continue consume (crashed f) more = crashed f

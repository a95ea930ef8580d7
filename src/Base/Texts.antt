-- ===== src/Base/Texts.antt =====
-- What is decided of every byte of a text.
use Prim.Native.Nat.{ℕ, ◌<◌}
use mathlib.Core.Path.{◌≡◌}
use mathlib.Core.Logic.{◌≢◌}
use mathlib.Core.Bool.{Bool, true, not, ◌&&◌}
use mathlib.Core.List.{[], ◌∷◌}
use native.Mathlib.Omega.{arith}
use splitsen.Base.Lists.{Bytes, All}
use splitsen.Base.Tests.{ltb, ◌==◌}

unfoldable pub all_of : (ℕ → Bool) → Bytes → Bool
all_of p [] = true
all_of p (c ∷ cs) = p c && all_of p cs

pub bytes_of : (cs : Bytes) → all_of (λ c. ltb c 256) cs ≡ true → All (λ c. c < 256) cs
unfolding all_of
bytes_of [] h = tt
bytes_of (c ∷ cs) h = (ground arith, bytes_of cs (ground arith))

pub no_null : (cs : Bytes) → all_of (λ c. not (c == 0)) cs ≡ true → All (λ c. c ≢ 0) cs
unfolding all_of
no_null [] h = tt
no_null (c ∷ cs) h = ((λ e. ground arith), no_null cs (ground arith))

pub without : (d : ℕ) (cs : Bytes) → all_of (λ c. not (d == c)) cs ≡ true → All (λ c. d ≢ c) cs
unfolding all_of
without d [] h = tt
without d (c ∷ cs) h = ((λ e. ground arith), without d cs (ground arith))

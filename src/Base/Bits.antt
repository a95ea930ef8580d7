-- ===== src/Base/Bits.antt =====
-- `|`, `&` and `^` on native numbers: one equation each for the lowest digit, and what follows from
-- it by induction: `|` of disjoint fields is a sum, `&` with a mask of eight ones takes a byte out,
-- and `^` twice by one number changes nothing.
use Prim.Native.Nat.{
  ℕ, zero, suc, ◌+◌, ◌*◌, ◌/◌, ◌%◌, ◌^◌, ◌≤◌, ◌<◌, min, max, digits, differ, bit_and, bit_or,
  bit_xor, bit_and-bitwise, bit_or-bitwise, bit_xor-bitwise,
}
use mathlib.Core.Path.{◌≡◌, refl, ap, ◌∙◌}
use native.Mathlib.Nat.{pow-suc}
use native.Mathlib.Omega.{arith}
use native.Mathlib.Decide.{dec_lt}

-- The fuel of the digit recursion does not matter once it covers the first number.
module _ (z : ℕ → ℕ) (f : ℕ → ℕ → ℕ) where
  enough_fuel : (n m a b : ℕ) → a ≤ n → a ≤ m → digits z f n a b ≡ digits z f m a b
  enough_fuel zero zero a b p q = refl
  enough_fuel (suc n) zero zero b p q = refl
  enough_fuel zero (suc m) zero b p q = refl
  enough_fuel (suc n) zero (suc a) b p q = absurd (omega arith)
  enough_fuel zero (suc m) (suc a) b p q = absurd (omega arith)
  enough_fuel (suc n) (suc m) zero b p q = refl
  enough_fuel (suc n) (suc m) (suc a) b p q =
      let half = enough_fuel n m (suc a / 2) (b / 2) (omega arith) (omega arith) in rw half

  lowest_digit :
      (a b : ℕ)
      → digits z f (suc a) (suc a) b
        ≡ digits z f (suc a / 2) (suc a / 2) (b / 2) * 2 + f (suc a % 2) (b % 2)
  lowest_digit a b =
      let half = enough_fuel a (suc a / 2) (suc a / 2) (b / 2) (omega arith) (omega arith) in
      omega (arith, half)

pub bit_or-halves : (x y : ℕ) → bit_or x y ≡ bit_or (x / 2) (y / 2) * 2 + max (x % 2) (y % 2)
bit_or-halves zero y = simp bit_or-bitwise (omega arith)
bit_or-halves (suc x) y = simp bit_or-bitwise (lowest_digit (λ d. d) max x y)

pub bit_and-halves : (x y : ℕ) → bit_and x y ≡ bit_and (x / 2) (y / 2) * 2 + min (x % 2) (y % 2)
bit_and-halves zero y = simp bit_and-bitwise (omega arith)
bit_and-halves (suc x) y = simp bit_and-bitwise (lowest_digit (λ _. 0) min x y)

differ-mod : (x y : ℕ) → x < 2 → y < 2 → differ x y ≡ (x + y) % 2
differ-mod zero y p q = omega arith
differ-mod (suc zero) zero p q = omega arith
differ-mod (suc zero) (suc zero) p q = omega arith
differ-mod (suc zero) (suc (suc y)) p q = absurd (omega arith)
differ-mod (suc (suc x)) y p q = absurd (omega arith)

xor_step : (a b : ℕ) → bit_xor a b ≡ bit_xor (a / 2) (b / 2) * 2 + differ (a % 2) (b % 2)
xor_step zero b = simp bit_xor-bitwise (omega arith)
xor_step (suc a) b = simp bit_xor-bitwise (lowest_digit (λ y. y) differ a b)

pub bit_xor-halves : (a b : ℕ) → bit_xor a b ≡ bit_xor (a / 2) (b / 2) * 2 + (a + b) % 2
bit_xor-halves a b =
    omega (arith, xor_step a b, differ-mod (a % 2) (b % 2) (omega arith) (omega arith))

bit_xor_twice_fuel : (n a m : ℕ) → a + m ≤ n → bit_xor (bit_xor a m) m ≡ a
bit_xor_twice_fuel zero zero zero h = refl
bit_xor_twice_fuel zero (suc a) m h = absurd (omega arith)
bit_xor_twice_fuel zero zero (suc m) h = absurd (omega arith)
bit_xor_twice_fuel (suc n) a m h = elim (dec_lt 0 (a + m)) [
  | no none_left ↦
      let left : a ≡ 0 = omega arith in let mask : m ≡ 0 = omega arith in rw (left, mask)
  | yes some_left ↦
      let half : bit_xor a m / 2 ≡ bit_xor (a / 2) (m / 2) = omega (arith, bit_xor-halves a m) in
      let ih = bit_xor_twice_fuel n (a / 2) (m / 2) (omega arith) in
      let again = rw (← half) at ih in
      omega (arith, bit_xor-halves a m, bit_xor-halves (bit_xor a m) m, again)
]

pub bit_xor_twice : (a m : ℕ) → bit_xor (bit_xor a m) m ≡ a
bit_xor_twice a m = bit_xor_twice_fuel (a + m) a m (omega arith)

-- An operation that keeps a digit beside a zero keeps a number beside a zero.
module _ (op digit : ℕ → ℕ → ℕ)
    (halves : (x y : ℕ) → op x y ≡ op (x / 2) (y / 2) * 2 + digit (x % 2) (y % 2))
    (start : op 0 0 ≡ 0) where
  keeps_below : ((d : ℕ) → digit d 0 ≡ d) → (fuel x : ℕ) → x ≤ fuel → op x 0 ≡ x
  keeps_below keep fuel zero bound = start
  keeps_below keep zero (suc x) bound = absurd (omega arith)
  keeps_below keep (suc fuel) (suc x) bound =
      let rest = keeps_below keep fuel (suc x / 2) (omega arith) in
      omega (arith, halves (suc x) 0, keep (suc x % 2), rest)

  clears_below : ((d : ℕ) → digit d 0 ≡ 0) → (fuel x : ℕ) → x ≤ fuel → op x 0 ≡ 0
  clears_below clear fuel zero bound = start
  clears_below clear zero (suc x) bound = absurd (omega arith)
  clears_below clear (suc fuel) (suc x) bound =
      let rest = clears_below clear fuel (suc x / 2) (omega arith) in
      omega (arith, halves (suc x) 0, clear (suc x % 2), rest)

differ-zero : (d : ℕ) → differ d 0 ≡ d
differ-zero zero = refl
differ-zero (suc d) = refl

pub bit_xor-zero : (a : ℕ) → bit_xor a 0 ≡ a
bit_xor-zero a = keeps_below bit_xor differ xor_step refl differ-zero a a (omega arith)

pub bit_and-zero : (a : ℕ) → bit_and a 0 ≡ 0
bit_and-zero a = clears_below bit_and min bit_and-halves refl (λ d. omega arith) a a (omega arith)

pub bit_or-zero : (a : ℕ) → bit_or a 0 ≡ a
bit_or-zero a = keeps_below bit_or max bit_or-halves refl (λ d. omega arith) a a (omega arith)

pub zero-bit_or : (a : ℕ) → bit_or 0 a ≡ a
zero-bit_or a = bit_or-bitwise 0 a

-- A field of high bits and one of the `k` low bits, in either order.
pub bit_or_high_low : (k q r : ℕ) → r < 2 ^ k → bit_or (q * 2 ^ k) r ≡ q * 2 ^ k + r
bit_or_high_low zero q r h = ground (arith, bit_or-zero q)
bit_or_high_low (suc k) q r h =
    let double : q * 2 ^ suc k ≡ q * 2 ^ k * 2 =
      omega (arith, ap (λ (t : ℕ). q * t) (pow-suc 2 k)) in
    let ih = bit_or_high_low k q (r / 2) (omega (arith, pow-suc 2 k)) in
    ground (arith, double, ih, bit_or-halves (q * 2 ^ suc k) r)

pub bit_or_low_high : (k q r : ℕ) → r < 2 ^ k → bit_or r (q * 2 ^ k) ≡ r + q * 2 ^ k
bit_or_low_high zero q r h = ground (arith, zero-bit_or q)
bit_or_low_high (suc k) q r h =
    let double : q * 2 ^ suc k ≡ q * 2 ^ k * 2 =
      omega (arith, ap (λ (t : ℕ). q * t) (pow-suc 2 k)) in
    let ih = bit_or_low_high k q (r / 2) (omega (arith, pow-suc 2 k)) in
    ground (arith, double, ih, bit_or-halves r (q * 2 ^ suc k))

-- A mask's lowest digit, with the mask's other digits as a number of their own.
bit_and_odd : (a m : ℕ) → bit_and a (m * 2 + 1) ≡ bit_and (a / 2) m * 2 + a % 2
bit_and_odd a m =
    let half : (m * 2 + 1) / 2 ≡ m = omega arith in
    omega (arith, rw half at (bit_and-halves a (m * 2 + 1)))

bit_and_even : (a m : ℕ) → bit_and a (m * 2) ≡ bit_and (a / 2) m * 2
bit_and_even a m =
    let half : m * 2 / 2 ≡ m = omega arith in omega (arith, rw half at (bit_and-halves a (m * 2)))

-- A mask of `k` ones is the remainder by `2 ^ k`.
abbrev pub ones : ℕ → ℕ
ones zero = 0
ones (suc k) = ones k * 2 + 1

pub bit_and-ones : (k h l : ℕ) → l < 2 ^ k → bit_and (h * 2 ^ k + l) (ones k) ≡ l
bit_and-ones zero h l p = omega (arith, bit_and-zero (h * 1 + l))
bit_and-ones (suc k) h l p =
    let double : h * 2 ^ suc k ≡ h * 2 ^ k * 2 =
      omega (arith, ap (λ (t : ℕ). h * t) (pow-suc 2 k)) in
    let half : (h * 2 ^ suc k + l) / 2 ≡ h * 2 ^ k + l / 2 = omega (arith, double) in
    let ih = bit_and-ones k h (l / 2) (omega (arith, pow-suc 2 k)) in
    omega (arith, double, rw half at (bit_and_odd (h * 2 ^ suc k + l) (ones k)), ih)

pub bit_and_byte : (a : ℕ) → bit_and a 255 ≡ a % 256
bit_and_byte a =
    let split : a / 256 * 256 + a % 256 ≡ a = omega arith in
    rw split at (bit_and-ones 8 (a / 256) (a % 256) (omega arith))

-- The eight bits above the `k` lowest.
pub bit_and_field :
    (k h m l : ℕ)
    → m < 256
    → l < 2 ^ k
    → bit_and ((h * 256 + m) * 2 ^ k + l) (255 * 2 ^ k) ≡ m * 2 ^ k
bit_and_field zero h m l p q =
    let whole : (h * 256 + m) * 1 + l ≡ h * 256 + m = omega arith in
    rw whole (omega (arith, bit_and-ones 8 h m p))
bit_and_field (suc k) h m l p q =
    let n = h * 256 + m in
    let double : n * 2 ^ suc k ≡ n * 2 ^ k * 2 =
      omega (arith, ap (λ (t : ℕ). n * t) (pow-suc 2 k)) in
    let half : (n * 2 ^ suc k + l) / 2 ≡ n * 2 ^ k + l / 2 = omega (arith, double) in
    let mask : 255 * 2 ^ suc k ≡ 255 * 2 ^ k * 2 = omega (arith, pow-suc 2 k) in
    let out : m * 2 ^ suc k ≡ m * 2 ^ k * 2 = omega (arith, ap (λ (t : ℕ). m * t) (pow-suc 2 k)) in
    let ih = bit_and_field k h m (l / 2) p (omega (arith, pow-suc 2 k)) in
    rw (mask, out)
      (bit_and_even (n * 2 ^ suc k + l) (255 * 2 ^ k) ∙ rw half (ap (λ (t : ℕ). t * 2) ih))

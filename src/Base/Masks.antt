-- ===== src/Base/Masks.antt =====
-- Bit masks: the digits of `&`, `|` and `~`, and equality of masks digit by digit.
mod Step
use mathlib.Core.Path.{◌≡◌, refl, ◌∙◌}
use mathlib.Core.Bool.{Bool, true, false, not, ◌&&◌, ◌||◌}
use native.Mathlib.Nat.{pow-suc, one-le-pow, pow-le-pow_right}
use Step.{bit_or-halves, bit_and-halves}
pub use Step.{zero-bit_and, bit_and-halves, bit_or-halves}
use libxkbcommon.Base.Tests.{◌==◌, ltb, if◌then◌else◌}
use libxkbcommon.Base.Words.{not32}
use Prim.Native.Nat.{ℕ, zero, suc, ◌+◌, ◌-◌, ◌*◌, ◌/◌, ◌%◌, ◌^◌, ◌≤◌, ◌<◌, bit_and, bit_or}
use native.Mathlib.Numerals.{towards_suc}
use native.Mathlib.Omega.{arith}

unfoldable pub testbit : ℕ → ℕ → Bool
testbit n zero = n % 2 == 1
testbit n (suc i) = testbit (n / 2) i

-- `x & bit` as a condition.
abbrev pub has : ℕ → ℕ → Bool
has x bit = not (bit_and x bit == 0)

-- `x & ~m` on 32 bits.
abbrev pub clear : ℕ → ℕ → ℕ
clear x m = bit_and x (not32 m)

pub testbit-half : (n i : ℕ) → testbit (n / 2) i ≡ testbit n (suc i)
unfolding testbit
testbit-half n i = refl

pub testbit-bit_and : (a b i : ℕ) → testbit (bit_and a b) i ≡ (testbit a i && testbit b i)
unfolding testbit
testbit-bit_and a b zero = ground (arith, bit_and-halves a b)
testbit-bit_and a b (suc i) =
    let e : bit_and a b / 2 ≡ bit_and (a / 2) (b / 2) = omega (arith, bit_and-halves a b) in
    rw e (testbit-bit_and (a / 2) (b / 2) i)

pub testbit-bit_or : (a b i : ℕ) → testbit (bit_or a b) i ≡ (testbit a i || testbit b i)
unfolding testbit
testbit-bit_or a b zero = ground (arith, bit_or-halves a b)
testbit-bit_or a b (suc i) =
    let e : bit_or a b / 2 ≡ bit_or (a / 2) (b / 2) = omega (arith, bit_or-halves a b) in
    rw e (testbit-bit_or (a / 2) (b / 2) i)

testbit-ones : (w m i : ℕ) → m < 2 ^ w → i < w → testbit (2 ^ w - 1 - m) i ≡ not (testbit m i)
unfolding testbit
testbit-ones zero m i h k = elim k [ ]
testbit-ones (suc w) m zero h k = ground (arith, pow-suc 2 w)
testbit-ones (suc w) m (suc i) h k =
    let e : (2 ^ suc w - 1 - m) / 2 ≡ 2 ^ w - 1 - m / 2 = omega (arith, pow-suc 2 w) in
    rw e (testbit-ones w (m / 2) i (omega (arith, pow-suc 2 w)) (omega arith))

pub testbit-not32 : (m i : ℕ) → m < 4294967296 → i < 32 → testbit (not32 m) i ≡ not (testbit m i)
testbit-not32 m i h k = testbit-ones 32 m i h k

pub testbit-zero : (i : ℕ) → testbit 0 i ≡ false
unfolding testbit
testbit-zero zero = refl
testbit-zero (suc i) = testbit-zero i

pub testbit_high : (w n i : ℕ) → n < 2 ^ w → w ≤ i → testbit n i ≡ false
unfolding testbit
testbit_high zero n i h k = let e : n ≡ 0 = omega arith in rw e (testbit-zero i)
testbit_high (suc w) n zero h k = absurd (omega arith)
testbit_high (suc w) n (suc i) h k =
    testbit_high w (n / 2) i (omega (arith, pow-suc 2 w)) (omega arith)

-- Masks of `w` bits with the same digits are equal.
pub testbit_ext :
    (w a b : ℕ) → a < 2 ^ w → b < 2 ^ w → ((i : ℕ) → i < w → testbit a i ≡ testbit b i) → a ≡ b
unfolding testbit
testbit_ext zero a b p q h = omega arith
testbit_ext (suc w) a b p q h = ground (
  arith,
  h 0 (omega arith),
  testbit_ext w (a / 2) (b / 2) (omega (arith, pow-suc 2 w)) (omega (arith, pow-suc 2 w))
      (λ i k. h (suc i) (omega arith)),
)

pub bit_or-lt : (w a b : ℕ) → a < 2 ^ w → b < 2 ^ w → bit_or a b < 2 ^ w
bit_or-lt zero a b p q =
    let e : a ≡ 0 = omega arith in let e' : b ≡ 0 = omega arith in rw (e, e') (omega arith)
bit_or-lt (suc w) a b p q = ground (
  arith,
  pow-suc 2 w,
  bit_or-halves a b,
  bit_or-lt w (a / 2) (b / 2) (omega (arith, pow-suc 2 w)) (omega (arith, pow-suc 2 w)),
)

pub bit_and-lt : (w a b : ℕ) → a < 2 ^ w → bit_and a b < 2 ^ w
bit_and-lt zero a b p = let e : a ≡ 0 = omega arith in rw (e, zero-bit_and b) (omega arith)
bit_and-lt (suc w) a b p = ground (
  arith,
  pow-suc 2 w,
  bit_and-halves a b,
  bit_and-lt w (a / 2) (b / 2) (omega (arith, pow-suc 2 w)),
)

pub testbit-pow : (i j : ℕ) → testbit (2 ^ i) j ≡ (i == j)
unfolding testbit
testbit-pow zero zero = refl
testbit-pow zero (suc j) = testbit-zero j ∙ ground arith
testbit-pow (suc i) zero = ground (arith, pow-suc 2 i)
testbit-pow (suc i) (suc j) =
    let e : 2 ^ suc i / 2 ≡ 2 ^ i = omega (arith, pow-suc 2 i) in
    rw e (testbit-pow i j ∙ ground arith)

bit_and-zero : (a : ℕ) → bit_and a 0 ≡ 0
bit_and-zero a = go a a (omega arith)
  where
    go : (n a : ℕ) → a ≤ n → bit_and a 0 ≡ 0
    go n zero h = zero-bit_and 0
    go zero (suc a) h = absurd (omega arith)
    go (suc n) (suc a) h = omega (arith, bit_and-halves (suc a) 0, go n (suc a / 2) (omega arith))

pub bit_and-lt_right : (w a b : ℕ) → b < 2 ^ w → bit_and a b < 2 ^ w
bit_and-lt_right zero a b p = let e : b ≡ 0 = omega arith in rw (e, bit_and-zero a) (omega arith)
bit_and-lt_right (suc w) a b p = ground (
  arith,
  pow-suc 2 w,
  bit_and-halves a b,
  bit_and-lt_right w (a / 2) (b / 2) (omega (arith, pow-suc 2 w)),
)

pub bit_and-pow : (x i : ℕ) → bit_and x (2 ^ i) ≡ (if testbit x i then 2 ^ i else 0)
unfolding testbit
bit_and-pow x zero = ground (arith, bit_and-halves x 1, bit_and-zero (x / 2))
bit_and-pow x (suc i) =
    let e : 2 ^ suc i / 2 ≡ 2 ^ i = omega (arith, pow-suc 2 i) in
    ground (arith, bit_and-halves x (2 ^ suc i), pow-suc 2 i, e, bit_and-pow (x / 2) i)

-- The test of one bit.
pub has-pow : (x i : ℕ) → has x (2 ^ i) ≡ testbit x i
has-pow x i = ground (arith, bit_and-pow x i, one-le-pow i 2)

pub testbit-clear :
    (x m i : ℕ)
    → m < 4294967296
    → i < 32
    → testbit (clear x m) i ≡ (testbit x i && not (testbit m i))
testbit-clear x m i h k = ground (arith, testbit-bit_and x (not32 m) i, testbit-not32 m i h k)

pub clear-lt : (x m : ℕ) → x < 4294967296 → clear x m < 4294967296
clear-lt x m h = bit_and-lt 32 x (not32 m) h

pub pow-lt : (i : ℕ) → i < 32 → 2 ^ i < 4294967296
pow-lt i h = omega (arith, pow-le-pow_right {n = 2} (omega arith) {i = i} {j = 31} (omega arith))

pub testbit-clear-pow :
    (x i j : ℕ) → i < 32 → j < 32 → testbit (clear x (2 ^ i)) j ≡ (testbit x j && not (i == j))
testbit-clear-pow x i j h k =
    ground (arith, testbit-clear x (2 ^ i) j (pow-lt i h) k, testbit-pow i j)

pub pow-double : (i : ℕ) → i + 1 < 32 → 2 ^ i * 2 % 4294967296 ≡ 2 ^ (i + 1)
pow-double i h = simp towards_suc (omega (arith, pow-suc 2 i, pow-lt (suc i) (omega arith)))

-- ===== src/Base/Masks/Step.antt =====
-- The native operations on binary digits recurse on fuel, their first argument; here is how one
-- of their results is made from the lowest digits and from the halves.
use Prim.Native.Nat.{
  ℕ, zero, suc, ◌+◌, ◌*◌, ◌/◌, ◌%◌, ◌≤◌, min, max, bit_and, bit_or, digits, bitwise,
  bit_and-bitwise, bit_or-bitwise,
}
use mathlib.Core.Path.{◌≡◌, refl, ap, ◌∙◌}
use mathlib.Core.Logic.{inl, inr}
use libxkbcommon.Base.Tests.{leb, Bool-cases}
use native.Mathlib.Omega.{arith}

pub zero-bit_and : (m : ℕ) → bit_and 0 m ≡ 0
zero-bit_and = bit_and-bitwise 0

module _ (short : ℕ → ℕ) (digit : ℕ → ℕ → ℕ) where
  -- Fuel that suffices still does with one more.
  one_more :
      (fuel x y : ℕ) → x ≤ fuel → digits short digit (suc fuel) x y ≡ digits short digit fuel x y
  one_more (suc fuel) (suc x) y enough =
      ap (λ high. high * 2 + digit (suc x % 2) (y % 2))
        (one_more fuel (suc x / 2) (y / 2) (omega arith))
  one_more (suc fuel) zero y enough = refl
  one_more zero zero y enough = refl
  one_more zero (suc x) y enough = absurd (omega arith)

  spare_fuel : (fuel x y : ℕ) → x ≤ fuel → digits short digit fuel x y ≡ bitwise short digit x y
  spare_fuel zero x y enough = let none : x ≡ 0 = omega arith in rw none refl
  spare_fuel (suc fuel) x y enough = elim (Bool-cases (leb x fuel)) [
    | inl less ↦ one_more fuel x y (ground arith) ∙ spare_fuel fuel x y (ground arith)
    | inr all ↦ let full : x ≡ suc fuel = ground arith in rw full refl
  ]

  from_halves :
      (x y : ℕ)
      → bitwise short digit (suc x) y
        ≡ digit (suc x % 2) (y % 2) + 2 * bitwise short digit (suc x / 2) (y / 2)
  from_halves x y = omega (arith, spare_fuel x (suc x / 2) (y / 2) (omega arith))

pub bit_and-halves : (x y : ℕ) → bit_and x y ≡ min (x % 2) (y % 2) + 2 * bit_and (x / 2) (y / 2)
bit_and-halves (suc x) y = simp bit_and-bitwise (from_halves (λ m. 0) min x y)
bit_and-halves zero y = simp bit_and-bitwise (omega arith)

pub bit_or-halves : (x y : ℕ) → bit_or x y ≡ max (x % 2) (y % 2) + 2 * bit_or (x / 2) (y / 2)
bit_or-halves (suc x) y = simp bit_or-bitwise (from_halves (λ m. m) max x y)
bit_or-halves zero y = simp bit_or-bitwise (omega arith)

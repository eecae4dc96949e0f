-- ===== src/Machine/Config/Priority.antt =====
-- The order of remapped modifiers: `cmp_mod_masks` of src/state.c is a comparison of the numbers of
-- modifiers, then of the masks.
use libxkbcommon.Base.{
  ℕ, zero, suc, ◌/◌, ◌%◌, ◌^◌, ◌≤◌, ◌<◌, ◌≡◌, ◌≢◌, refl, ap, ◌∙◌, arith, Bool-cases, inl, inr, ◌==◌,
  ltb, if◌then◌else◌, bit_and, bit_and-halves, bit_and-lt, testbit_ext, testbit-bit_and,
  zero-bit_and,
}
use native.Mathlib.Nat.{pow-suc}
use libxkbcommon.Machine.Config.{
  popcount, popcount32, Comparison, before, same, behind, cmp_mod_masks,
}

-- A mask with a part of the bits of another counts no more of them.
popcount-le : (w a b : ℕ) → bit_and a b ≡ a → popcount w a ≤ popcount w b
unfolding popcount
popcount-le zero a b h = omega arith
popcount-le (suc w) a b h =
    let halves = bit_and-halves a b in
    omega
      (arith, bit_and-halves a b, popcount-le w (a / 2) (b / 2) (omega (arith, bit_and-halves a b)))

pub popcount-lt :
    (w a b : ℕ) → a < 2 ^ w → b < 2 ^ w → bit_and a b ≡ a → a ≢ b → popcount w a < popcount w b
unfolding popcount
popcount-lt zero a b p q h n = absurd (n (omega arith))
popcount-lt (suc w) a b p q h n =
    let part : bit_and (a / 2) (b / 2) ≡ a / 2 = omega (arith, bit_and-halves a b) in
    let low : a % 2 ≤ b % 2 = omega (arith, bit_and-halves a b) in
    elim (Bool-cases (a / 2 == b / 2)) [
      | inl e ↦
          let high : a / 2 ≡ b / 2 = ground arith in
          let odd : a % 2 < b % 2 = ground arith in rw high (omega arith)
      | inr d ↦ omega (
        arith,
        popcount-lt w (a / 2) (b / 2) (omega (arith, pow-suc 2 w)) (omega (arith, pow-suc 2 w)) part
            (λ e. absurd (ground arith)),
      )
    ]

-- More modifiers first, and of as many the smaller mask.
abbrev pub by_count : ℕ → ℕ → Comparison
by_count m1 m2 =
    if m1 == m2
    then same
    else if ltb (popcount32 m2) (popcount32 m1)
    then before
    else if ltb (popcount32 m1) (popcount32 m2)
    then behind
    else if ltb m1 m2
    then before
    else behind

fewer : (a b : ℕ) → popcount32 a < popcount32 b → a ≢ b → by_count a b ≡ behind
fewer a b h n = ground arith

more : (a b : ℕ) → popcount32 b < popcount32 a → a ≢ b → by_count a b ≡ before
more a b h n = ground arith

pub bit_and_comm : (w a b : ℕ) → a < 2 ^ w → b < 2 ^ w → bit_and a b ≡ bit_and b a
bit_and_comm w a b p q =
    testbit_ext w (bit_and a b) (bit_and b a) (bit_and-lt w a b p) (bit_and-lt w b a q)
      (λ i k. ground (arith, testbit-bit_and a b i, testbit-bit_and b a i))

popcount-zero : (w : ℕ) → popcount w 0 ≡ 0
unfolding popcount
popcount-zero zero = refl
popcount-zero (suc w) = omega (arith, popcount-zero w)

count_zero : (m : ℕ) → m ≡ 0 → popcount32 m ≡ 0
count_zero m e = ap popcount32 e ∙ popcount-zero 32

empty_part : (a b : ℕ) → a ≡ 0 → bit_and a b ≡ a
empty_part a b e = rw e (zero-bit_and b)

-- On masks of 32 bits, `cmp_mod_masks`, with its tests for empty masks and for subsets, is the
-- comparison of the numbers of modifiers, then of the masks: so it is a total order, whatever
-- algorithm `qsort` uses.
pub cmp_mod_masks-by_count :
    (m1 m2 : ℕ) → m1 < 4294967296 → m2 < 4294967296 → cmp_mod_masks m1 m2 ≡ by_count m1 m2
unfolding cmp_mod_masks
cmp_mod_masks-by_count m1 m2 p q = elim (Bool-cases (m1 == m2)) [
  | inl e ↦ rw e refl
  | inr n ↦
      let differ : m1 ≢ m2 = ground arith in
      let differ' : m2 ≢ m1 = ground arith in
      let comm = bit_and_comm 32 m1 m2 p q in
      elim (Bool-cases (bit_and m1 m2 == m1)) [
        | inl part ↦
            let count = popcount-lt 32 m1 m2 p q (ground arith) differ in
            elim (Bool-cases (m2 == 0)) [
              | inl z ↦ absurd (omega (arith, count_zero m2 (ground arith)))
              | inr z ↦ rw (n, z, part) (ground arith)
            ]
        | inr apart ↦ elim (Bool-cases (bit_and m1 m2 == m2)) [
          | inl part ↦
              let count = popcount-lt 32 m2 m1 q p (ground arith) differ' in
              elim (Bool-cases (m1 == 0)) [
                | inl z ↦ absurd (omega (arith, count_zero m1 (ground arith)))
                | inr z ↦ rw (n, z, apart, part) (ground arith)
              ]
          | inr apart' ↦
              let some1 : m1 ≢ 0 = λ e. absurd (ground (arith, empty_part m1 m2 e)) in
              let some2 : m2 ≢ 0 = λ e. absurd (ground (arith, comm, empty_part m2 m1 e)) in
              rw (n, apart, apart') (ground arith)
        ]
      ]
]

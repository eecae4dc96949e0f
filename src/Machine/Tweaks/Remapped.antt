-- ===== src/Machine/Tweaks/Remapped.antt =====
-- Which modifiers a machine remaps for a key (`do_remap_modifiers`).
use libxkbcommon.Base.{
  ℕ, ◌≡◌, ap, arith, true, false, Bool-cases, inl, inr, List, [], ◌∷◌, ◌==◌, bit_and, bit_or, has,
  testbit, testbit-bit_and, testbit-bit_or, testbit-zero,
}
use libxkbcommon.Machine.{ModsMapping}
use libxkbcommon.Machine.Tweaks.{mapping_applies, remap_loop}

none_shared : (a b j : ℕ) → has a b ≡ false → testbit a j ≡ true → testbit b j ≡ false
none_shared a b j h e =
    let none : bit_and a b ≡ 0 = ground arith in
    ground (arith, testbit-bit_and a b j, ap (λ x. testbit x j) none, testbit-zero j)

all_active : (a b j : ℕ) → (bit_and a b == a) ≡ true → testbit a j ≡ true → testbit b j ≡ true
all_active a b j h e =
    let all : bit_and a b ≡ a = ground arith in
    ground (arith, testbit-bit_and a b j, ap (λ x. testbit x j) all)

remap_loop-taken :
    (l : List ModsMapping) (active used affect mods j : ℕ)
    → (testbit affect j ≡ true → (testbit active j ≡ true) × (testbit used j ≡ false))
    → testbit (remap_loop l active used affect mods).0 j ≡ true
    → (testbit active j ≡ true) × (testbit used j ≡ false)
unfolding remap_loop
remap_loop-taken [] active used affect mods j h e = h e
remap_loop-taken (m ∷ l) active used affect mods j h e =
    elim (Bool-cases (mapping_applies m active used affect)) [
      | inr f ↦ remap_loop-taken l active used affect mods j h (rw (f, remap_loop) at e)
      | inl t ↦
          remap_loop-taken l active used (bit_or affect m.source) (bit_or mods m.target) j
            (λ k. elim (Bool-cases (testbit m.source j)) [
              | inl s ↦ (
                all_active m.source active j (ground arith) s,
                none_shared m.source used j (ground arith) s,
              )
              | inr s ↦ h (ground (arith, testbit-bit_or affect m.source j))
            ])
            (rw (t, remap_loop) at e)
    ]

-- The modifiers that are taken away for a key are all active, and the type of the key uses none of
-- them, whatever the mappings.
pub remapped_mods-taken :
    (l : List ModsMapping) (active used j : ℕ)
    → testbit (remap_loop l active used 0 0).0 j ≡ true
    → (testbit active j ≡ true) × (testbit used j ≡ false)
remapped_mods-taken l active used j e =
    remap_loop-taken l active used 0 0 j (λ h. absurd (ground (arith, testbit-zero j))) e

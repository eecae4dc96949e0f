-- ===== src/State/Update/Changes.antt =====
-- The mask of changed components that the entry points return (`get_state_component_changes`).
use libxkbcommon.Base.{
  ℕ, zero, suc, ◌≡◌, refl, ap, sym, ◌∙◌, arith, Bool, false, not, ◌||◌, ◌&&◌, ◌==◌, ◌↔◌, testbit,
  testbit-bit_or, testbit-pow, testbit-zero, ◌^◌,
}
use libxkbcommon.State.Types.{Components, mark, component_changes}

-- Whether the component with bit `j` of `enum xkb_state_component` differs.
abbrev pub differs : Components → Components → ℕ → Bool
differs a b zero = not (a.base_mods == b.base_mods)
differs a b (suc zero) = not (a.latched_mods == b.latched_mods)
differs a b (suc (suc zero)) = not (a.locked_mods == b.locked_mods)
differs a b (suc (suc (suc zero))) = not (a.mods == b.mods)
differs a b (suc (suc (suc (suc zero)))) = not (a.base_group == b.base_group)
differs a b (suc (suc (suc (suc (suc zero))))) = not (a.latched_group == b.latched_group)
differs a b (suc (suc (suc (suc (suc (suc zero)))))) = not (a.locked_group == b.locked_group)
differs a b (suc (suc (suc (suc (suc (suc (suc zero))))))) = not (a.group == b.group)
differs a b (suc (suc (suc (suc (suc (suc (suc (suc zero)))))))) = not (a.leds == b.leds)
differs a b (suc (suc (suc (suc (suc (suc (suc (suc (suc zero))))))))) =
    not (a.controls == b.controls)
differs a b _ = false

testbit-mark :
    (x y k mask j : ℕ)
    → testbit (mark x y (2 ^ k) mask) j ≡ (testbit mask j || (k == j && not (x == y)))
unfolding mark
testbit-mark x y k mask j = ground (arith, testbit-bit_or mask (2 ^ k) j, testbit-pow k j)

bit_by_bit :
    (a b : Components) (j : ℕ)
    → testbit (component_changes a b) j ≡ (
        (((((((((testbit 0 j || (7 == j && not (a.group == b.group)))
                        || (4 == j && not (a.base_group == b.base_group)))
                      || (5 == j && not (a.latched_group == b.latched_group)))
                    || (6 == j && not (a.locked_group == b.locked_group)))
                  || (3 == j && not (a.mods == b.mods)))
                || (0 == j && not (a.base_mods == b.base_mods)))
              || (1 == j && not (a.latched_mods == b.latched_mods)))
            || (2 == j && not (a.locked_mods == b.locked_mods)))
          || (8 == j && not (a.leds == b.leds)))
        || (9 == j && not (a.controls == b.controls)))
unfolding component_changes
bit_by_bit a b j =
    rw
      (
        testbit-mark a.controls b.controls 9,
        testbit-mark a.leds b.leds 8,
        testbit-mark a.locked_mods b.locked_mods 2,
        testbit-mark a.latched_mods b.latched_mods 1,
        testbit-mark a.base_mods b.base_mods 0,
        testbit-mark a.mods b.mods 3,
        testbit-mark a.locked_group b.locked_group 6,
        testbit-mark a.latched_group b.latched_group 5,
        testbit-mark a.base_group b.base_group 4,
        testbit-mark a.group b.group 7,
      )
      refl

-- Bit `j` of the mask is set exactly when that component differs.
pub component_changes-differs :
    (a b : Components) (j : ℕ) → testbit (component_changes a b) j ≡ differs a b j
component_changes-differs a b zero = bit_by_bit a b 0 ∙ rw testbit-zero (ground arith)
component_changes-differs a b (suc zero) = bit_by_bit a b 1 ∙ rw testbit-zero (ground arith)
component_changes-differs a b (suc (suc zero)) = bit_by_bit a b 2 ∙ rw testbit-zero (ground arith)
component_changes-differs a b (suc (suc (suc zero))) =
    bit_by_bit a b 3 ∙ rw testbit-zero (ground arith)
component_changes-differs a b (suc (suc (suc (suc zero)))) =
    bit_by_bit a b 4 ∙ rw testbit-zero (ground arith)
component_changes-differs a b (suc (suc (suc (suc (suc zero))))) =
    bit_by_bit a b 5 ∙ rw testbit-zero (ground arith)
component_changes-differs a b (suc (suc (suc (suc (suc (suc zero)))))) =
    bit_by_bit a b 6 ∙ rw testbit-zero (ground arith)
component_changes-differs a b (suc (suc (suc (suc (suc (suc (suc zero))))))) =
    bit_by_bit a b 7 ∙ rw testbit-zero (ground arith)
component_changes-differs a b (suc (suc (suc (suc (suc (suc (suc (suc zero)))))))) =
    bit_by_bit a b 8 ∙ rw testbit-zero (ground arith)
component_changes-differs a b (suc (suc (suc (suc (suc (suc (suc (suc (suc zero))))))))) =
    bit_by_bit a b 9 ∙ rw testbit-zero (ground arith)
component_changes-differs a b (suc (suc (suc (suc (suc (suc (suc (suc (suc (suc j)))))))))) =
    bit_by_bit a b (suc (suc (suc (suc (suc (suc (suc (suc (suc (suc j))))))))))
    ∙ rw testbit-zero (ground arith)

none_differs : (a b : Components) → component_changes a b ≡ 0 → (j : ℕ) → differs a b j ≡ false
none_differs a b e j =
    sym (component_changes-differs a b j) ∙ ap (λ m. testbit m j) e ∙ testbit-zero j

all_equal : (a b : Components) → ((j : ℕ) → differs a b j ≡ false) → a ≡ b
all_equal a b h = ground (arith, h 0, h 1, h 2, h 3, h 4, h 5, h 6, h 7, h 8, h 9)

-- The mask is 0 exactly when no component has changed.
pub component_changes-zero : (a b : Components) → (component_changes a b ≡ 0) ↔ (a ≡ b)
component_changes-zero a b = (λ e. all_equal a b (none_differs a b e), λ e. rw e (unchanged b))
  where
    unchanged : (c : Components) → component_changes c c ≡ 0
    unchanged c = unfold component_changes mark in ground arith

-- ===== src/Machine/Config/Targets.antt =====
-- The target layouts of shortcuts: the array that a machine reads with its effective group
-- (`machine_set_shortcuts`).
use libxkbcommon.Base.{
  ℕ, zero, suc, ◌+◌, ◌<◌, ◌≡◌, ◌⊎◌, refl, arith, ◌||◌, ◌&&◌, Bool-cases, inl, inr, Option, none,
  some, List, [], ◌∷◌, ◌==◌, ltb, if◌then◌else◌, length, get_elem?, get_or, bit_and,
}
use libxkbcommon.Keymap.{Keymap, layout_invalid}
use libxkbcommon.Machine.{MachineBuilder, Machine}
use libxkbcommon.Machine.Config.{
  trim_count, copy_targets, machine_set_mods, machine_set_shortcuts, machine_new,
}

-- The array has an entry for each of `n` layouts, which is a layout or none.
abbrev pub AreTargets : ℕ → ℕ → List ℕ → Type 0
AreTargets groups zero [] = Unit
AreTargets groups (suc n) (t ∷ l) = ((t < groups) ⊎ (t ≡ layout_invalid)) × AreTargets groups n l
AreTargets groups _ _ = ⊥

copy_targets-AreTargets :
    (targets : List ℕ) (groups count l n : ℕ)
    → AreTargets groups n (copy_targets targets groups count l n)
unfolding copy_targets
copy_targets-AreTargets targets groups count l zero = tt
copy_targets-AreTargets targets groups count l (suc n) =
    let target : ℕ = get_or targets l layout_invalid in
    (
      elim (Bool-cases (ltb l count && ltb target groups)) [
        | inl t ↦ rw t (inl (ground arith))
        | inr f ↦ rw f (inr refl)
      ],
      copy_targets-AreTargets targets groups count (l + 1) n,
    )

abbrev pub HasTargets : ℕ → Option (List ℕ) → Type 0
HasTargets groups none = Unit
HasTargets groups (some targets) = AreTargets groups groups targets

machine_set_shortcuts-HasTargets :
    (keymap : Keymap) (sm : Machine) (mask : ℕ) (targets : List ℕ)
    → HasTargets keymap.num_groups sm.targets
    → HasTargets keymap.num_groups (machine_set_shortcuts keymap sm mask targets).targets
unfolding machine_set_shortcuts
machine_set_shortcuts-HasTargets keymap sm mask targets h =
    let groups : ℕ = keymap.num_groups in
    let count : ℕ =
      trim_count targets groups (if ltb (length targets) groups then length targets else groups) in
    elim (Bool-cases (length targets == 0)) [
      | inl t ↦ rw t tt
      | inr f ↦
          rw f (elim (Bool-cases (count == 0 || (bit_and mask keymap.canonical_state_mask == 0))) [
            | inl u ↦ rw u h
            | inr u ↦ rw u (copy_targets-AreTargets targets groups count 0 groups)
          ])
    ]

AreTargets-get_elem? :
    (l : List ℕ) (groups n i : ℕ)
    → AreTargets groups n l
    → i < n
    → (t : ℕ) × (get_elem? l i ≡ some t) × ((t < groups) ⊎ (t ≡ layout_invalid))
AreTargets-get_elem? [] groups zero i a h = absurd (omega arith)
AreTargets-get_elem? [] groups (suc n) i a h = absurd a
AreTargets-get_elem? (t ∷ l) groups zero i a h = absurd (omega arith)
AreTargets-get_elem? (t ∷ l) groups (suc n) zero a h = (t, refl, a.0)
AreTargets-get_elem? (t ∷ l) groups (suc n) (suc i) a h =
    AreTargets-get_elem? l groups n i a.1 (omega arith)

-- The array of shortcut targets of a new machine, if it has one, has an entry for each layout of
-- the keymap, so that a read with an effective group below their number is in bounds; the entry is
-- a layout of the keymap or the invalid one, whatever targets the builder was left with.
pub machine_new-targets :
    (b : MachineBuilder) (targets : List ℕ) (group : ℕ)
    → (machine_new b).targets ≡ some targets
    → group < b.keymap.num_groups
    → (t : ℕ) × (get_elem? targets group ≡ some t)
      × ((t < b.keymap.num_groups) ⊎ (t ≡ layout_invalid))
unfolding machine_new machine_set_mods
machine_new-targets b targets group e h =
    let all : HasTargets b.keymap.num_groups (machine_new b).targets =
      machine_set_shortcuts-HasTargets b.keymap _ b.shortcuts_mask b.shortcuts_targets tt in
    AreTargets-get_elem? targets b.keymap.num_groups b.keymap.num_groups group (rw e at all) h

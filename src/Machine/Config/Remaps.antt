-- ===== src/Machine/Config/Remaps.antt =====
-- A new machine remaps by all the mappings of its builder: the mask by which `do_remap_modifiers`
-- returns early is the one that `machine_set_mods` collects.
use libxkbcommon.Base.{
  ℕ, ◌<◌, ◌≡◌, refl, sym, ap, ◌∙◌, arith, false, Bool-cases, Option-cases, inl, inr, Option, none,
  some, List, [], ◌∷◌, get_elem?, bit_and, bit_or, has, testbit, testbit_ext, testbit-zero,
  testbit-bit_and, testbit-bit_or, bit_and-lt, bit_or-lt,
}
use libxkbcommon.Keymap.{Keymap, Key}
use libxkbcommon.State.Types.{ServerState}
use libxkbcommon.State.Actions.{state_key_get_layout}
use libxkbcommon.Machine.{ModsMapping, MachineBuilder, Machine}
use libxkbcommon.Machine.Builder.Remap.{target_of, IsMap, IsBuilt}
use libxkbcommon.Machine.Config.{
  insert_mapping, sort_mappings, is_behind, cmp_mod_masks, sources_mask, machine_set_mods,
  machine_set_shortcuts, machine_new,
}
use libxkbcommon.Machine.Config.Mappings.{
  WordSources, AllCanonical-WordSources, valid_mappings-all, target_of-sort_mappings,
  machine_new-sorts, PartsLater, machine_new-mappings,
}
use libxkbcommon.Machine.Tweaks.{mapping_applies, remap_loop, apply_remap, do_remap_modifiers}

-- No source modifier of the mappings is active.
abbrev Inactive : ℕ → List ModsMapping → Type 0
Inactive active [] = Unit
Inactive active (m ∷ l) = (bit_and m.source active ≡ 0) × Inactive active l

both_inactive :
    (a b active : ℕ)
    → a < 4294967296
    → b < 4294967296
    → bit_and (bit_or a b) active ≡ 0
    → (bit_and a active ≡ 0) × (bit_and b active ≡ 0)
both_inactive a b active p q e = (
  testbit_ext 32 (bit_and a active) 0 (bit_and-lt 32 a active p) (omega arith) (λ i k. ground (
    arith,
    testbit-bit_and a active i,
    testbit-bit_and (bit_or a b) active i,
    testbit-bit_or a b i,
    ap (λ x. testbit x i) e,
    testbit-zero i,
  )),
  testbit_ext 32 (bit_and b active) 0 (bit_and-lt 32 b active q) (omega arith) (λ i k. ground (
    arith,
    testbit-bit_and b active i,
    testbit-bit_and (bit_or a b) active i,
    testbit-bit_or a b i,
    ap (λ x. testbit x i) e,
    testbit-zero i,
  )),
)

sources_mask-Inactive :
    (l : List ModsMapping) (mask active : ℕ)
    → mask < 4294967296
    → WordSources l
    → bit_and (sources_mask l mask) active ≡ 0
    → (bit_and mask active ≡ 0) × Inactive active l
unfolding sources_mask
sources_mask-Inactive [] mask active p w e = (e, tt)
sources_mask-Inactive (m ∷ l) mask active p w e =
    let (joined, rest) =
      sources_mask-Inactive l (bit_or mask m.source) active (bit_or-lt 32 mask m.source p w.0) w.1
        e in
    let (before, here) = both_inactive mask m.source active p w.0 joined in (before, (here, rest))

Inactive-insert :
    (m : ModsMapping) (l : List ModsMapping) (active : ℕ)
    → bit_and m.source active ≡ 0
    → Inactive active l
    → Inactive active (insert_mapping m l)
unfolding insert_mapping
Inactive-insert m [] active e n = (e, tt)
Inactive-insert m (x ∷ l) active e n =
    elim (Bool-cases (is_behind (cmp_mod_masks m.source x.source))) [
      | inr f ↦ rw f (e, n)
      | inl b ↦ rw b (n.0, Inactive-insert m l active e n.1)
    ]

Inactive-sort :
    (l : List ModsMapping) (active : ℕ) → Inactive active l → Inactive active (sort_mappings l)
unfolding sort_mappings
Inactive-sort [] active n = tt
Inactive-sort (m ∷ l) active n =
    Inactive-insert m (sort_mappings l) active n.0 (Inactive-sort l active n.1)

remap_loop-Inactive :
    (l : List ModsMapping) (active used : ℕ)
    → IsMap l
    → Inactive active l
    → remap_loop l active used 0 0 ≡ (0, 0)
unfolding remap_loop
remap_loop-Inactive [] active used t n = refl
remap_loop-Inactive (m ∷ l) active used t n =
    let source : 0 < m.source = t.0 in
    let idle : bit_and m.source active ≡ 0 = n.0 in
    let skipped : mapping_applies m active used 0 ≡ false = ground arith in
    rw skipped (remap_loop-Inactive l active used t.3 n.1)

-- `do_remap_modifiers` without its early return.
abbrev pub remap_by : Keymap → List ModsMapping → ServerState → Key → ServerState × Option ℕ
remap_by keymap mappings s key =
    elim (get_elem? key.groups (state_key_get_layout s.components key)) [
      | none ↦ (s, none)
      | some group ↦
          let r = remap_loop mappings s.components.mods group.type.mods.mask 0 0 in
          apply_remap keymap s r.0 r.1
    ]

apply_remap_nothing : (keymap : Keymap) (s : ServerState) → apply_remap keymap s 0 0 ≡ (s, none)
unfolding apply_remap
apply_remap_nothing keymap s = refl

remap_by-Inactive :
    (keymap : Keymap) (l : List ModsMapping) (s : ServerState) (key : Key)
    → IsMap l
    → Inactive s.components.mods l
    → remap_by keymap l s key ≡ (s, none)
remap_by-Inactive keymap l s key t n =
    elim (Option-cases (get_elem? key.groups (state_key_get_layout s.components key))) [
      | inl e ↦ rw (remap_by, e) refl
      | inr (group, e) ↦
          rw (remap_by, e, remap_loop-Inactive l s.components.mods group.type.mods.mask t n)
            (apply_remap_nothing keymap s)
    ]

machine_set_shortcuts-mask :
    (keymap : Keymap) (sm : Machine) (mask : ℕ) (targets : List ℕ)
    → (machine_set_shortcuts keymap sm mask targets).mods_mask ≡ sm.mods_mask
unfolding machine_set_shortcuts
machine_set_shortcuts-mask keymap sm mask targets = ground arith

machine_new-mask :
    (b : MachineBuilder) → IsBuilt b → (machine_new b).mods_mask ≡ sources_mask b.mods 0
unfolding machine_new machine_set_mods
machine_new-mask b i =
    machine_set_shortcuts-mask b.keymap _ b.shortcuts_mask b.shortcuts_targets
    ∙ ap (λ l. sources_mask l 0) (valid_mappings-all b.keymap b.mods i.map i.canonical)

do_remap_modifiers-tries_all :
    (b : MachineBuilder) (s : ServerState) (key : Key)
    → IsBuilt b
    → do_remap_modifiers b.keymap (machine_new b) s key
      ≡ remap_by b.keymap (machine_new b).mappings s key
unfolding do_remap_modifiers
do_remap_modifiers-tries_all b s key i =
    let active : ℕ = s.components.mods in
    elim (Bool-cases (has (machine_new b).mods_mask active)) [
      | inl t ↦ rw t refl
      | inr f ↦
          let words = AllCanonical-WordSources b.keymap b.mods i.canonical in
          let none_active : bit_and (sources_mask b.mods 0) active ≡ 0 =
            ap (λ m. bit_and m active) (sym (machine_new-mask b i)) ∙ ground arith in
          let idle = (sources_mask-Inactive b.mods 0 active (omega arith) words none_active).1 in
          let sorted = (target_of-sort_mappings b.mods 0 i.map).0 in
          rw f (
            rw (machine_new-sorts b i) (
              sym (
                remap_by-Inactive b.keymap (sort_mappings b.mods) s key sorted
                  (Inactive-sort b.mods active idle))))
    ]

-- Where the builder went through operations on masks of 32 bits: the array of the machine has for
-- each combination of source modifiers the targets that the builder was told, a mapping stands in
-- front of those whose source modifiers are a part of its own, and on every state and key the
-- modifiers are remapped by the loop over this whole array: the early return never skips a mapping
-- that applies.
pub machine_new-remaps :
    (b : MachineBuilder)
    → IsBuilt b
    → ((q : ℕ) → target_of (machine_new b).mappings q ≡ target_of b.mods q)
      × PartsLater (machine_new b).mappings
      × ((s : ServerState) (key : Key)
          → do_remap_modifiers b.keymap (machine_new b) s key
            ≡ remap_by b.keymap (machine_new b).mappings s key)
machine_new-remaps b i =
    let (same_map, later) = machine_new-mappings b i in
    (same_map, later, λ s key. do_remap_modifiers-tries_all b s key i)

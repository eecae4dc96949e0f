-- ===== src/Machine/Config.antt =====
-- A machine made from its options (`xkb_machine_new`, `machine_set_mods`, `machine_set_shortcuts`,
-- `cmp_mod_masks` of src/state.c).
pub mod Priority
pub mod Mappings
pub mod Remaps
pub mod Targets
use libxkbcommon.Base.{
  ℕ, zero, suc, ◌+◌, ◌/◌, ◌%◌, Bool, true, false, not, ◌&&◌, ◌||◌, none, some, List, [], ◌∷◌, ◌==◌,
  ltb, if◌then◌else◌, length, get_or, bit_and, bit_or,
}
use libxkbcommon.Keymap.{Keymap, layout_invalid}
use libxkbcommon.State.Types.{server_state}
use libxkbcommon.State.Update.{server_state_init}
use libxkbcommon.Machine.{ModsMapping, MachineBuilder, Machine}
use libxkbcommon.Machine.Builder.{is_foreign}

-- The set bits of a mask below bit `w`; `popcount32` counts those of a word.
unfoldable pub popcount : ℕ → ℕ → ℕ
popcount zero x = 0
popcount (suc w) x = x % 2 + popcount w (x / 2)

abbrev pub popcount32 : ℕ → ℕ
popcount32 x = popcount 32 x

-- The result of a comparison function: before, equal or behind.
pub data Comparison : Type 0 where
  before same behind : Comparison

-- `cmp_mod_masks`.
unfoldable pub cmp_mod_masks : ℕ → ℕ → Comparison
cmp_mod_masks m1 m2 =
    let overlap = bit_and m1 m2 in
    let count1 = popcount32 m1 in
    let count2 = popcount32 m2 in
    if m1 == m2
    then same
    else if m1 == 0
    then behind
    else if m2 == 0
    then before
    else if overlap == m1
    then behind
    else if overlap == m2
    then before
    else if ltb count2 count1
    then before
    else if ltb count1 count2
    then behind
    else if ltb m1 m2
    then before
    else behind

abbrev pub is_behind : Comparison → Bool
is_behind behind = true
is_behind _ = false

-- `qsort` with `cmp_mod_masks`, which compares the sources, the first members of the mappings. The
-- order that equal sources keep is left open by C; a builder holds each source once.
unfoldable pub insert_mapping : ModsMapping → List ModsMapping → List ModsMapping
insert_mapping m [] = m ∷ []
insert_mapping m (x ∷ rest) =
    let next = insert_mapping m rest in
    if is_behind (cmp_mod_masks m.source x.source) then x ∷ next else m ∷ x ∷ rest

unfoldable pub sort_mappings : List ModsMapping → List ModsMapping
sort_mappings [] = []
sort_mappings (m ∷ rest) = insert_mapping m (sort_mappings rest)

abbrev pub is_valid_mapping : Keymap → ModsMapping → Bool
is_valid_mapping keymap m =
    not (
      m.source == 0
      || (m.target == 0 || (is_foreign keymap m.source || is_foreign keymap m.target)))

-- The loop of `machine_set_mods`: the mappings that are valid, and the union of their sources.
unfoldable pub valid_mappings : Keymap → List ModsMapping → List ModsMapping
valid_mappings keymap [] = []
valid_mappings keymap (m ∷ rest) =
    let next = valid_mappings keymap rest in if is_valid_mapping keymap m then m ∷ next else next

unfoldable pub sources_mask : List ModsMapping → ℕ → ℕ
sources_mask [] mask = mask
sources_mask (m ∷ rest) mask = sources_mask rest (bit_or mask m.source)

-- `machine_set_mods`; without mappings both come out empty too.
unfoldable pub machine_set_mods : Keymap → Machine → List ModsMapping → Machine
machine_set_mods keymap sm raw =
    let valid = valid_mappings keymap raw in
    record sm { mappings = sort_mappings valid; mods_mask = sources_mask valid 0 }

-- The count of entries down to the last one that names a layout, but at least 1.
unfoldable pub trim_count : List ℕ → ℕ → ℕ → ℕ
trim_count targets num_groups zero = 0
trim_count targets num_groups (suc zero) = 1
trim_count targets num_groups (suc (suc n)) =
    let shorter = trim_count targets num_groups (suc n) in
    if ltb (get_or targets (suc n) layout_invalid) num_groups then suc (suc n) else shorter

-- The array of `n` targets from layout `l` on, those below `count` from the options.
unfoldable pub copy_targets : List ℕ → ℕ → ℕ → ℕ → ℕ → List ℕ
copy_targets targets num_groups count l zero = []
copy_targets targets num_groups count l (suc n) =
    (let target = get_or targets l layout_invalid in
      if ltb l count && ltb target num_groups then target else layout_invalid)
    ∷ copy_targets targets num_groups count (l + 1) n

-- `machine_set_shortcuts`. Where it returns early after the first test, the configuration is still
-- the zeroed one of `calloc`.
unfoldable pub machine_set_shortcuts : Keymap → Machine → ℕ → List ℕ → Machine
machine_set_shortcuts keymap sm options_mask targets =
    let groups = keymap.num_groups in
    let count =
      trim_count targets groups (if ltb (length targets) groups then length targets else groups) in
    let mask = bit_and options_mask keymap.canonical_state_mask in
    if length targets == 0
    then record sm { shortcuts_mask = 0; targets = none }
    else if count == 0 || (mask == 0)
    then sm
    else record sm {
      shortcuts_mask = mask;
      targets = some (copy_targets targets groups count 0 groups);
    }

-- `xkb_machine_new`, where memory is available.
unfoldable pub machine_new : MachineBuilder → Machine
machine_new b =
    let keymap = b.keymap in
    let blank : Machine = record {
      base = server_state_init keymap server_state b.a11y_affect b.a11y_flags;
      overlays_enabled = 0;
      overlays_order = 0;
      overlaid_keys = [];
      mods_mask = 0;
      mappings = [];
      shortcuts_mask = 0;
      targets = none;
    } in
    machine_set_shortcuts keymap (machine_set_mods keymap blank b.mods) b.shortcuts_mask
      b.shortcuts_targets

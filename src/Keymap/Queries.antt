-- ===== src/Keymap/Queries.antt =====
-- The queries of src/keymap.c on a compiled keymap, except those by name.
use libxkbcommon.Base.{
  ℕ, zero, suc, ◌-◌, Bool, true, false, not, ◌&&◌, Option, none, some, List, [], ◌∷◌, ltb, leb,
  ◌==◌, if◌then◌else◌, length, get_elem?,
}
use libxkbcommon.Keymap.{
  KeyTypeEntry, KeyType, Level, Group, Key, Keymap, entry_is_active, effective_layout, xkb_key,
}

-- `xkb_keymap_num_mods`, `xkb_keymap_num_layouts`, `xkb_keymap_num_leds`.
unfoldable pub num_mods : Keymap → ℕ
num_mods keymap = length keymap.mods

unfoldable pub num_layouts : Keymap → ℕ
num_layouts keymap = keymap.num_groups

unfoldable pub num_leds : Keymap → ℕ
num_leds keymap = length keymap.leds

-- `xkb_keymap_mod_get_mask2`.
unfoldable pub mod_get_mask2 : Keymap → ℕ → ℕ
mod_get_mask2 keymap i = elim (get_elem? keymap.mods i) [ none ↦ 0 | some m ↦ m.mapping ]

-- `xkb_keymap_num_layouts_for_key`.
unfoldable pub num_layouts_for_key : Keymap → ℕ → ℕ
num_layouts_for_key keymap kc = elim (xkb_key keymap kc) [ none ↦ 0 | some k ↦ length k.key.groups ]

-- The group at the effective layout; there is none exactly where the layout is invalid.
abbrev pub effective_group : Keymap → ℕ → ℕ → Option Group
effective_group keymap kc layout = elim (xkb_key keymap kc) [
  | none ↦ none
  | some k ↦ get_elem? k.key.groups (effective_layout k.key layout)
]

-- `xkb_keymap_num_levels_for_key`.
unfoldable pub num_levels_for_key : Keymap → ℕ → ℕ → ℕ
num_levels_for_key keymap kc layout = elim (effective_group keymap kc layout) [
  | none ↦ 0
  | some g ↦ g.type.num_levels
]

-- `xkb_keymap_key_get_level`.
unfoldable pub keymap_key_get_level : Key → ℕ → ℕ → Option Level
keymap_key_get_level key layout level = elim (get_elem? key.groups (effective_layout key layout)) [
  | none ↦ none
  | some g ↦ if leb g.type.num_levels level then none else get_elem? g.levels level
]

-- `xkb_keymap_key_get_syms_by_level`; no keysyms are the count 0.
unfoldable pub key_get_syms_by_level : Keymap → ℕ → ℕ → ℕ → List ℕ
key_get_syms_by_level keymap kc layout level = elim (xkb_key keymap kc) [
  | none ↦ []
  | some k ↦ elim (keymap_key_get_level k.key layout level) [ none ↦ [] | some l ↦ l.syms ]
]

-- `xkb_keymap_key_repeats`.
unfoldable pub key_repeats : Keymap → ℕ → Bool
key_repeats keymap kc = elim (xkb_key keymap kc) [ none ↦ false | some k ↦ k.key.repeats ]

-- Whether an entry is for no modifiers.
unfoldable pub empty_mapped : List KeyTypeEntry → Bool
empty_mapped [] = false
empty_mapped (entry ∷ rest) =
    let later = empty_mapped rest in
    if entry_is_active entry && (entry.mods.mask == 0) then true else later

-- The loop over the explicit entries, with room for `n` masks.
unfoldable pub explicit_masks : List KeyTypeEntry → ℕ → ℕ → List ℕ
explicit_masks [] level n = []
explicit_masks (entry ∷ rest) level zero = []
explicit_masks (entry ∷ rest) level (suc n) =
    let taken = explicit_masks rest level n in
    let passed = explicit_masks rest level (suc n) in
    if entry_is_active entry && (entry.level == level) then entry.mods.mask ∷ taken else passed

-- `xkb_keymap_key_get_mods_for_level` on the type of the group.
unfoldable pub mods_for_level : KeyType → ℕ → ℕ → List ℕ
mods_for_level type level masks_size =
    if level == 0 && (not (empty_mapped type.entries) && ltb 0 masks_size)
    then 0 ∷ explicit_masks type.entries level (masks_size - 1)
    else explicit_masks type.entries level masks_size

-- `xkb_keymap_key_get_mods_for_level`: the masks written.
unfoldable pub key_get_mods_for_level : Keymap → ℕ → ℕ → ℕ → ℕ → List ℕ
key_get_mods_for_level keymap kc layout level masks_size = elim (effective_group keymap kc layout) [
  | none ↦ []
  | some g ↦ if leb g.type.num_levels level then [] else mods_for_level g.type level masks_size
]

-- ===== src/State/Query.antt =====
-- The queries on a state: serialized components, active modifiers, layouts and LEDs, and the
-- modifiers that a key consumes (src/state.c). The error codes -1 and -2 are `none` of an Option.
pub mod Serialize
pub mod Consumed
pub mod Levels
use libxkbcommon.Base.{
  ℕ, ◌+◌, ◌-◌, ◌^◌, Bool, true, false, not, ◌&&◌, ◌||◌, Option, none, some, List, [], ◌∷◌, leb,
  ◌==◌, if◌then◌else◌, get_elem?, bit_and, bit_or, add32, has, clear,
}
use libxkbcommon.Keymap.{
  Keymap, Key, Mod, Led, Level, KeyType, KeyTypeEntry, layout_invalid, level_invalid, xkb_key,
  entry_is_active, get_entry_for_mods, effective_layout,
}
use libxkbcommon.State.Types.{
  Components, mods_effective, mods_depressed, mods_latched, mods_locked, layout_effective,
  layout_depressed, layout_latched, layout_locked, controls_component, control_all_boolean,
}
use libxkbcommon.State.Actions.{get_entry_for_key_state, state_key_get_level, state_key_get_layout}
use libxkbcommon.State.Latches.{resolve_to_canonical_mods}

-- `serialize_mods`: the effective modifiers, whatever else is asked for, or the union of the parts.
unfoldable pub serialize_mods : Components → ℕ → ℕ
serialize_mods c type =
    let base = if has type mods_depressed then c.base_mods else 0 in
    let latched = if has type mods_latched then bit_or base c.latched_mods else base in
    if has type mods_effective
    then c.mods
    else if has type mods_locked
    then bit_or latched c.locked_mods
    else latched

-- `serialize_layout`: a sum of `int32_t`, with wrap-around.
unfoldable pub serialize_layout : Components → ℕ → ℕ
serialize_layout c type =
    let base = if has type layout_depressed then c.base_group else 0 in
    let latched = if has type layout_latched then add32 base c.latched_group else base in
    if has type layout_effective
    then c.group
    else if has type layout_locked
    then add32 latched c.locked_group
    else latched

-- `serialize_controls`.
unfoldable pub serialize_controls : Components → ℕ → ℕ
serialize_controls c type =
    if has type controls_component then bit_and c.controls control_all_boolean else 0

-- Bits of `enum xkb_state_match`.
abbrev pub match_any : ℕ
match_any = 1

abbrev pub match_non_exclusive : ℕ
match_non_exclusive = 65536

-- `match_mod_masks`.
unfoldable pub match_mod_masks : Components → ℕ → ℕ → ℕ → Bool
match_mod_masks c type match wanted =
    let active = serialize_mods c type in
    if not (has match match_non_exclusive) && not (clear active wanted == 0)
    then false
    else if has match match_any
    then not (bit_and active wanted == 0)
    else bit_and active wanted == wanted

-- `xkb_state_layout_index_is_active`.
unfoldable pub layout_index_is_active : Keymap → Components → ℕ → ℕ → Option Bool
layout_index_is_active keymap c idx type =
    if leb keymap.num_groups idx
    then none
    else some (
        has type layout_effective && (c.group == idx)
        || (has type layout_depressed && (c.base_group == idx)
            || (has type layout_latched && (c.latched_group == idx)
                || has type layout_locked && (c.locked_group == idx))))

-- `xkb_state_led_index_is_active`.
unfoldable pub led_index_is_active : Keymap → Components → ℕ → Option Bool
led_index_is_active keymap c idx = elim (get_elem? keymap.leds idx) [
  | none ↦ none
  | some led ↦ if led.named then some (has c.leds (2 ^ idx)) else none
]

-- `xkb_state_mod_index_is_active`.
unfoldable pub mod_index_is_active : Keymap → Components → ℕ → ℕ → Option Bool
mod_index_is_active keymap c idx type = elim (get_elem? keymap.mods idx) [
  | none ↦ none
  | some m ↦
      if m.mapping == 0
      then some false
      else some (bit_and (serialize_mods c type) m.mapping == m.mapping)
]

-- `xkb_state_key_get_level`.
unfoldable pub key_get_level : Keymap → Components → ℕ → ℕ → ℕ
key_get_level keymap c kc layout = elim (xkb_key keymap kc) [
  | none ↦ level_invalid
  | some key ↦ state_key_get_level c key.key layout
]

-- `xkb_state_key_get_layout`.
unfoldable pub key_get_layout : Keymap → Components → ℕ → ℕ
key_get_layout keymap c kc = elim (xkb_key keymap kc) [
  | none ↦ layout_invalid
  | some key ↦ state_key_get_layout c key.key
]

-- `one_bit_set`.
abbrev pub one_bit_set : ℕ → Bool
one_bit_set x = not (x == 0) && (bit_and x (x - 1) == 0)

abbrev pub same_list : List ℕ → List ℕ → Bool
same_list [] [] = true
same_list (x ∷ xs) (y ∷ ys) = (x == y) && same_list xs ys
same_list _ _ = false

-- `XkbLevelsSameSyms`. A level that the array does not hold has no keysyms here.
abbrev pub level_syms : List Level → ℕ → List ℕ
level_syms levels i = elim (get_elem? levels i) [ none ↦ [] | some l ↦ l.syms ]

-- The index of the entry that `get_entry_for_mods` returns, by which the source compares entries.
unfoldable pub matching_index : List KeyTypeEntry → ℕ → ℕ → Option ℕ
matching_index [] mods i = none
matching_index (entry ∷ rest) mods i =
    if entry_is_active entry && (entry.mods.mask == mods)
    then some i
    else matching_index rest mods (i + 1)

abbrev pub is_index : Option ℕ → ℕ → Bool
is_index none i = false
is_index (some j) i = i == j

-- The loop of the GTK mode over the entries from index `i` on.
unfoldable pub gtk_consumed : List KeyTypeEntry → List Level → List ℕ → Option ℕ → ℕ → ℕ → ℕ
gtk_consumed [] levels no_mods_syms matching i consumed = consumed
gtk_consumed (entry ∷ rest) levels no_mods_syms matching i consumed =
    let skipped =
      not (entry_is_active entry) || same_list (level_syms levels entry.level) no_mods_syms in
    let counts = is_index matching i || one_bit_set entry.mods.mask in
    gtk_consumed rest levels no_mods_syms matching (i + 1) (
      if not skipped && counts
      then bit_or consumed (clear entry.mods.mask entry.preserve.mask)
      else consumed)

pub data ConsumedMode : Type 0 where
  xkb_mode gtk_mode : ConsumedMode

abbrev pub preserved : Option KeyTypeEntry → ℕ
preserved none = 0
preserved (some entry) = entry.preserve.mask

abbrev pub level_of : Option KeyTypeEntry → ℕ
level_of none = 0
level_of (some entry) = entry.level

-- The `switch (mode)` of `key_get_consumed`.
unfoldable pub consumed_of_type : ConsumedMode → KeyType → List Level → ℕ → ℕ
consumed_of_type xkb_mode type levels active = type.mods.mask
consumed_of_type gtk_mode type levels active =
    gtk_consumed type.entries levels
      (level_syms levels (level_of (get_entry_for_mods type.entries 0)))
      (matching_index type.entries active 0) 0 0

-- `key_get_consumed`. The source looks the key up again by its keycode for the layout.
unfoldable pub key_get_consumed : Keymap → Components → Key → ConsumedMode → ℕ
key_get_consumed keymap c key mode =
    elim (get_elem? key.groups (key_get_layout keymap c key.key_code)) [
      | none ↦ 0
      | some group ↦
          clear
            (consumed_of_type mode group.type group.levels (bit_and c.mods group.type.mods.mask))
            (preserved (get_entry_for_key_state c group.type))
    ]

-- `xkb_state_mod_index_is_consumed2`.
unfoldable pub mod_index_is_consumed : Keymap → Components → ℕ → ℕ → ConsumedMode → Option Bool
mod_index_is_consumed keymap c kc idx mode = elim (xkb_key keymap kc) [
  | none ↦ none
  | some key ↦ elim (get_elem? keymap.mods idx) [
    | none ↦ none
    | some m ↦
        if m.mapping == 0
        then some false
        else some (bit_and m.mapping (key_get_consumed keymap c key.key mode) == m.mapping)
  ]
]

-- `xkb_state_mod_mask_remove_consumed`.
unfoldable pub mod_mask_remove_consumed : Keymap → Components → ℕ → ℕ → ℕ
mod_mask_remove_consumed keymap c kc mask = elim (xkb_key keymap kc) [
  | none ↦ 0
  | some key ↦
      clear (resolve_to_canonical_mods keymap mask) (key_get_consumed keymap c key.key xkb_mode)
]

-- `xkb_state_key_get_consumed_mods2` in a mode that it knows.
unfoldable pub key_get_consumed_mods : Keymap → Components → ℕ → ConsumedMode → ℕ
key_get_consumed_mods keymap c kc mode = elim (xkb_key keymap kc) [
  | none ↦ 0
  | some key ↦ key_get_consumed keymap c key.key mode
]

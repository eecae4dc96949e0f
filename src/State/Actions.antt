-- ===== src/State/Actions.antt =====
-- The layout, level and actions of a key in a state, and the actions that break latches.
use libxkbcommon.Base.{
  ℕ, Bool, true, false, ◌&&◌, Option, none, some, List, [], ◌∷◌, ◌==◌, if◌then◌else◌, get_elem?,
  bit_and, has,
}
use libxkbcommon.Keymap.{
  Action, ActionType, none_action, void, ptr_button, ptr_lock, ctrl_set, ctrl_lock, switch_vt,
  terminate, redirect_key, internal, action_of, Key, KeyType, KeyTypeEntry, level_invalid,
  effective_layout, get_entry_for_mods, get_actions_by_level,
}
use libxkbcommon.State.Types.{Components}

-- `get_entry_for_key_state`.
unfoldable pub get_entry_for_key_state : Components → KeyType → Option KeyTypeEntry
get_entry_for_key_state c type = get_entry_for_mods type.entries (bit_and c.mods type.mods.mask)

-- `state_key_get_level`: level 0 without a matching entry.
unfoldable pub state_key_get_level : Components → Key → ℕ → ℕ
state_key_get_level c key layout = elim (get_elem? key.groups layout) [
  | none ↦ level_invalid
  | some group ↦ elim (get_entry_for_key_state c group.type) [ none ↦ 0 | some entry ↦ entry.level ]
]

-- `state_key_get_layout`.
unfoldable pub state_key_get_layout : Components → Key → ℕ
state_key_get_layout c key = effective_layout key c.group

abbrev pub dummy_action : Action
dummy_action = action_of none_action

abbrev pub or_dummy : List Action → List Action
or_dummy [] = dummy_action ∷ []
or_dummy (a ∷ rest) = a ∷ rest

-- `xkb_key_get_actions`: the dummy action stands for a missing level and for an empty one.
unfoldable pub key_get_actions : Components → Key → List Action
key_get_actions c key =
    let layout = state_key_get_layout c key in
    let level = state_key_get_level c key layout in
    if level == level_invalid
    then dummy_action ∷ []
    else or_dummy (get_actions_by_level key layout level)

-- Bits of `enum xkb_internal_action_flags`.
abbrev pub breaks_group_latch : ℕ
breaks_group_latch = 1

abbrev pub breaks_mod_latch : ℕ
breaks_mod_latch = 2

-- The types that break any latch.
abbrev pub breaks_any : ActionType → Bool
breaks_any none_action = true
breaks_any void = true
breaks_any ptr_button = true
breaks_any ptr_lock = true
breaks_any ctrl_set = true
breaks_any ctrl_lock = true
breaks_any switch_vt = true
breaks_any terminate = true
breaks_any redirect_key = true
breaks_any _ = false

abbrev pub is_internal : ActionType → Bool
is_internal internal = true
is_internal _ = false

-- `xkb_action_breaks_latch`.
unfoldable pub action_breaks_latch : Action → ℕ → ℕ → Bool
action_breaks_latch action flag mask =
    if breaks_any action.type
    then true
    else is_internal action.type
      && (has action.internal_flags flag && (bit_and action.clear_latched_mods mask == mask))

-- The loop `for (k = 0; k < count; k++)` that asks whether some action breaks the latch.
unfoldable pub some_breaks_latch : List Action → ℕ → ℕ → Bool
some_breaks_latch [] flag mask = false
some_breaks_latch (a ∷ rest) flag mask =
    if action_breaks_latch a flag mask then true else some_breaks_latch rest flag mask

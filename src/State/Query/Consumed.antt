-- ===== src/State/Query/Consumed.antt =====
-- The modifiers that a key consumes.
use libxkbcommon.Base.{
  ℕ, ◌<◌, ◌≡◌, arith, not, ◌&&◌, ◌||◌, some, get_elem?, testbit, testbit-clear, bit_and-lt_right,
  Option-cases, inl, inr,
}
use libxkbcommon.Keymap.{Keymap, Key, KeyRef, Group, xkb_key}
use libxkbcommon.State.Types.{Components}
use libxkbcommon.State.Actions.{get_entry_for_key_state}
use libxkbcommon.State.Latches.{resolve_to_canonical_mods}
use libxkbcommon.State.Query.{
  ConsumedMode, xkb_mode, preserved, consumed_of_type, key_get_layout, key_get_consumed,
  mod_mask_remove_consumed,
}

key_get_consumed-lt :
    (keymap : Keymap) (c : Components) (key : Key) (mode : ConsumedMode)
    → key_get_consumed keymap c key mode < 4294967296
unfolding key_get_consumed
key_get_consumed-lt keymap c key mode =
    elim (Option-cases (get_elem? key.groups (key_get_layout keymap c key.key_code))) [
      | inl e ↦ rw (key_get_consumed, e) (omega arith)
      | inr (group, e) ↦ rw (key_get_consumed, e) (bit_and-lt_right 32 _ _ (omega arith))
    ]

key_get_consumed-testbit :
    (keymap : Keymap) (c : Components) (key : Key) (group : Group) (j : ℕ)
    → get_elem? key.groups (key_get_layout keymap c key.key_code) ≡ some group
    → preserved (get_entry_for_key_state c group.type) < 4294967296
    → j < 32
    → testbit (key_get_consumed keymap c key xkb_mode) j ≡ (
        testbit group.type.mods.mask j
        && not (testbit (preserved (get_entry_for_key_state c group.type)) j))
unfolding key_get_consumed consumed_of_type
key_get_consumed-testbit keymap c key group j e p k =
    rw (key_get_consumed, e)
      (testbit-clear group.type.mods.mask (preserved (get_entry_for_key_state c group.type)) j p k)

-- For a key with a layout in the state: a modifier is left of a mask after the consumed ones are
-- removed exactly if the canonical form of the mask has it, and either the type of the key does not
-- use it or the entry that the state's modifiers match preserves it, where the mask that this entry
-- preserves fits 32 bits.
pub mod_mask_remove_consumed-testbit :
    (keymap : Keymap) (c : Components) (kc mask : ℕ) (key : KeyRef) (group : Group) (j : ℕ)
    → xkb_key keymap kc ≡ some key
    → get_elem? key.key.groups (key_get_layout keymap c key.key.key_code) ≡ some group
    → preserved (get_entry_for_key_state c group.type) < 4294967296
    → j < 32
    → testbit (mod_mask_remove_consumed keymap c kc mask) j ≡ (
        testbit (resolve_to_canonical_mods keymap mask) j
        && (not (testbit group.type.mods.mask j)
            || testbit (preserved (get_entry_for_key_state c group.type)) j))
unfolding mod_mask_remove_consumed
mod_mask_remove_consumed-testbit keymap c kc mask key group j found e p k =
    rw (mod_mask_remove_consumed, found)
      (ground (
        arith,
        testbit-clear (resolve_to_canonical_mods keymap mask)
            (key_get_consumed keymap c key.key xkb_mode) j
            (key_get_consumed-lt keymap c key.key xkb_mode) k,
        key_get_consumed-testbit keymap c key.key group j e p k,
      ))

-- ===== src/Tests/States/Queries.antt =====
-- The theorems on masks and on queries, applied.
use libxkbcommon.Base.{
  ℕ, ◌<◌, ◌≡◌, refl, ◌↔◌, arith, true, some, bit_and, testbit, not, ◌&&◌, ◌||◌, ap, inr, [], ◌∷◌,
  get_elem?,
}
use libxkbcommon.Keymap.{
  wrap, effective_layout, wrap_group_into_range, xkb_key, search_key, get_entry_for_mods,
}
use libxkbcommon.Keymap.Queries.{
  key_get_mods_for_level, mods_for_level, empty_mapped, explicit_masks,
}
use libxkbcommon.State.Actions.{state_key_get_level, state_key_get_layout, get_entry_for_key_state}
use libxkbcommon.State.Query.Levels.{key_get_mods_for_level_sound}
use libxkbcommon.Tests.Keymaps.{letter_found}
use libxkbcommon.State.Types.{Components, client_state, ServerState}
use libxkbcommon.State.Derived.{led_lit, update_derived, led_update_all, derive}
use libxkbcommon.State.Derived.Effective.{update_derived_idem}
use libxkbcommon.State.Latches.{resolve_to_canonical_mods}
use libxkbcommon.State.Update.{state_init, update_mask}
use libxkbcommon.State.Update.Masks.{IsCanonical, update_mask-synchronizes}
use libxkbcommon.State.Query.{
  serialize_mods, match_mod_masks, led_index_is_active, mod_mask_remove_consumed, key_get_layout,
  preserved,
}
use libxkbcommon.State.Query.Serialize.{match_mod_masks-exact, led_index_is_active-lit}
use libxkbcommon.State.Query.Consumed.{mod_mask_remove_consumed-testbit}
use libxkbcommon.Tests.Example.{keymap, shift_led, letter_key, two_level}
use libxkbcommon.Tests.States.Frames.{shifted}

abbrev shift_down : Components
shift_down = record {
  base_group = 0;
  latched_group = 0;
  locked_group = 0;
  group = 0;
  base_mods = 1;
  latched_mods = 0;
  locked_mods = 0;
  mods = 1;
  leds = 0;
  controls = 0;
}

abbrev client : ServerState
client = state_init keymap client_state

abbrev server_components : Components
server_components = update_derived keymap wrap 0 shifted

canonical : (m : ℕ) → m < 4294967296 → bit_and m 255 ≡ m → IsCanonical keymap m
canonical m p e = record { word = p; within = e }

server_base : server_components.base_mods ≡ 1
unfolding update_derived led_update_all
server_base = refl

server_latched : server_components.latched_mods ≡ 0
unfolding update_derived led_update_all
server_latched = refl

server_locked : server_components.locked_mods ≡ 4
unfolding update_derived led_update_all
server_locked = refl

server_controls : server_components.controls ≡ client.components.controls
unfolding update_derived led_update_all state_init derive
server_controls = refl

client_mode : client.mode ≡ client_state
unfolding state_init derive
client_mode = refl

client_derived :
    update_derived keymap client.policy client.redirect_group server_components ≡ server_components
unfolding state_init derive
client_derived = update_derived_idem keymap wrap 0 shifted (omega arith)

update_mask-synchronizes_example :
    (update_mask keymap client server_components.base_mods server_components.latched_mods
      server_components.locked_mods server_components.base_group server_components.latched_group
      server_components.locked_group).0.components
    ≡ server_components
update_mask-synchronizes_example =
    update_mask-synchronizes keymap client server_components (rw client_mode refl) (omega arith)
      (rw server_base (canonical 1 (omega arith) refl))
      (rw server_latched (canonical 0 (omega arith) refl))
      (rw server_locked (canonical 4 (omega arith) refl)) server_controls client_derived

shifted_word : serialize_mods shifted 7 < 4294967296
unfolding serialize_mods
shifted_word = omega arith

match_mod_masks-exact_example :
    (match_mod_masks shifted 7 2 5 ≡ true) ↔ (serialize_mods shifted 7 ≡ 5)
match_mod_masks-exact_example =
    match_mod_masks-exact shifted 7 2 5 shifted_word (omega arith) refl refl

led_index_is_active-lit_example :
    led_index_is_active keymap (led_update_all keymap shifted) 0 ≡ some (led_lit shifted shift_led)
led_index_is_active-lit_example = led_index_is_active-lit keymap shifted 0 shift_led refl refl

-- Shift, of a mask of Shift and Lock, is used up by the letter key.
mod_mask_remove_consumed-testbit_example :
    testbit (mod_mask_remove_consumed keymap shift_down 11 3) 0 ≡ (
      testbit (resolve_to_canonical_mods keymap 3) 0
      && (not (testbit 1 0)
          || testbit (preserved (get_entry_for_key_state shift_down two_level)) 0))
mod_mask_remove_consumed-testbit_example =
    mod_mask_remove_consumed-testbit keymap shift_down 11 3
      (record { address = 5; key = letter_key })
      (record {
        type = two_level;
        levels =
            record { syms = 97 ∷ []; actions = [] } ∷ record { syms = 65 ∷ []; actions = [] } ∷ [];
      })
      0 letter_found
      (unfold key_get_layout xkb_key search_key state_key_get_layout effective_layout
          wrap_group_into_range in
        refl)
      (unfold get_entry_for_key_state get_entry_for_mods in omega arith) (omega arith)

-- The second level of the letter key is the one of Shift.
shift_level_masks : key_get_mods_for_level keymap 11 0 1 4 ≡ (1 ∷ [])
unfolding key_get_mods_for_level xkb_key search_key effective_layout wrap_group_into_range
    mods_for_level empty_mapped explicit_masks
shift_level_masks = refl

key_get_mods_for_level_sound_example :
    state_key_get_level shift_down letter_key (effective_layout letter_key 0) ≡ 1
key_get_mods_for_level_sound_example =
    key_get_mods_for_level_sound keymap shift_down 11 0 1 4 0
      (record { address = 5; key = letter_key })
      (record {
        type = two_level;
        levels =
            record { syms = 97 ∷ []; actions = [] } ∷ record { syms = 65 ∷ []; actions = [] } ∷ [];
      })
      letter_found (unfold effective_layout wrap_group_into_range in refl)
      (inr (unfold get_entry_for_mods in refl, refl), tt)
      (ap (λ masks. get_elem? masks 0) shift_level_masks)

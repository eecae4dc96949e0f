-- ===== src/Tests/Machines/Overlays.antt =====
-- The theorems on overlays and on the states that follow a machine, applied.
use libxkbcommon.Base.{
  ℕ, zero, suc, ◌+◌, ◌<◌, ◌≡◌, testbit_high, has-pow, refl, arith, none, some, inr, [], ◌∷◌, ◌==◌,
  if◌then◌else◌, testbit,
}
use libxkbcommon.Keymap.{
  KeyRef, effective_layout, wrap_group_into_range, get_entry_for_mods, get_actions_by_level,
}
use libxkbcommon.State.Types.{up, down, server_companion, ServerState}
use libxkbcommon.State.Update.{server_state_init}
use libxkbcommon.Machine.{Machine}
use libxkbcommon.Machine.Overlays.{
  overlays_from_controls, machine_update_overlays, process_overlayable_key, count_presses,
  find_entry,
}
use libxkbcommon.Machine.Overlays.Order.{order_after, count}
use libxkbcommon.Machine.Overlays.Stack.{IsStacked, machine_update_overlays-refines}
use libxkbcommon.Machine.Overlays.Keys.{
  IsRefined, process_overlayable_key-refines, view, IsOverlaid, here, next, change_overlays,
  held_key-keeps_target,
}
use libxkbcommon.Machine.Tweaks.{queue_of}
use libxkbcommon.Machine.Events.{follow}
use libxkbcommon.Machine.Process.{process_known_key}
use libxkbcommon.Machine.Process.Following.{process_known_key-follows, actions_queue}
use mathlib.Core.List.{reverse}
use libxkbcommon.State.Filters.Controls.{last_update}
use libxkbcommon.State.Filters.Modifiers.{mod_set_new}
use libxkbcommon.State.Apply.{
  apply_all, run_filters, start_actions, start_action, filter_new, free_slot, stick,
  resolve_redirect, start_filter,
}
use libxkbcommon.State.Actions.{
  key_get_actions, state_key_get_level, state_key_get_layout, get_entry_for_key_state,
}
use libxkbcommon.State.Derived.{derive, led_update_all}
use libxkbcommon.State.Latches.{filter_apply_all}
use libxkbcommon.State.Update.{apply_mod_requests, set_loop, clear_loop}
use libxkbcommon.Machine.Tweaks.{do_remap_modifiers, do_shortcuts_tweak}
use libxkbcommon.Machine.Process.{break_sticky_keys, overlaid, tweak, run_actions}
use libxkbcommon.Tests.Example.{latch_key, shift_key}
use libxkbcommon.Tests.States.{start}
use libxkbcommon.Tests.Machines.{machine_keymap, overlaid_letter}

-- Overlays 2 and 1 are enabled, 1 the later; the controls now ask for 1 and 3.
abbrev machine : Machine
machine = record {
  base = record start { components = record start.components { controls = 10 } };
  overlays_enabled = 3;
  overlays_order = 33;
  overlaid_keys = [];
  mods_mask = 0;
  mappings = [];
  shortcuts_mask = 0;
  targets = none;
}

once : (j : ℕ) → j < 8 → count (j + 1) (1 ∷ 2 ∷ []) ≡ (if testbit 3 j then 1 else 0)
once zero h = ground (arith, has-pow 3 0)
once (suc zero) h = ground (arith, has-pow 3 1)
once (suc (suc j)) h = ground (arith, testbit_high 2 3 (suc (suc j)) (omega arith) (omega arith))

machine-IsStacked : IsStacked machine (1 ∷ 2 ∷ [])
machine-IsStacked = record {
  order = refl;
  stack = record {
    nibbles = (omega arith, omega arith, (omega arith, omega arith, tt));
    once = once;
  };
  word = omega arith;
}

machine_update_overlays-refines_example :
    IsStacked
      (machine_update_overlays machine_keymap machine)
      (order_after (overlays_from_controls 10) 3 (1 ∷ 2 ∷ []))
machine_update_overlays-refines_example =
    machine_update_overlays-refines machine_keymap machine (1 ∷ 2 ∷ []) refl machine-IsStacked

abbrev letter : KeyRef
letter = record { address = 5; key = overlaid_letter }

abbrev latch : KeyRef
latch = record { address = 6; key = latch_key }

process_overlayable_key-refines_example :
    IsRefined machine_keymap machine letter down
      (process_overlayable_key machine_keymap machine letter down)
process_overlayable_key-refines_example =
    process_overlayable_key-refines machine_keymap machine letter down tt
      (λ e. absurd (omega arith))

-- The letter stands for the latch key, with one press to be released.
abbrev held : Machine
held = record machine { overlaid_keys = record { old = 5; new = latch; refcnt = 1 } ∷ [] }

held-IsOverlaid : IsOverlaid machine_keymap 5 latch 1 held
held-IsOverlaid = record {
  table = (λ live. (unfold find_entry in refl, omega arith), tt);
  held = unfold find_entry in refl;
  positive = omega arith;
}

-- All overlays are disabled meanwhile.
held_key-keeps_target_example :
    ((process_overlayable_key machine_keymap
        (record held { overlays_order = 0; overlays_enabled = 0 })
        letter
        up).1
      ≡ latch)
    × (view
          (process_overlayable_key machine_keymap
            (record held { overlays_order = 0; overlays_enabled = 0 })
            letter
            up).0.overlaid_keys
          5
        ≡ (if count_presses up 1 == 0 then none else some (latch, count_presses up 1)))
held_key-keeps_target_example =
    held_key-keeps_target machine_keymap latch letter up (λ e. absurd (omega arith)) held-IsOverlaid
      (next here (change_overlays held 0 0 1)) refl

abbrev client : ServerState
client = record start { mode = server_companion }

abbrev shift : KeyRef
shift = record { address = 4; key = shift_key }

abbrev new_machine : Machine
new_machine = record machine { base = start }

quiet : last_update (reverse (actions_queue machine_keymap new_machine shift down).0) ≡ none
unfolding last_update break_sticky_keys overlaid tweak do_remap_modifiers do_shortcuts_tweak
    run_actions filter_apply_all apply_all run_filters start_actions start_action filter_new
    free_slot stick resolve_redirect start_filter mod_set_new apply_mod_requests set_loop clear_loop
    derive key_get_actions server_state_init led_update_all state_key_get_level state_key_get_layout
    effective_layout wrap_group_into_range get_entry_for_key_state get_entry_for_mods
    get_actions_by_level
quiet = refl

process_known_key-follows_example :
    (follow client
      (queue_of (process_known_key machine_keymap new_machine shift down).base)).components
    ≡ (process_known_key machine_keymap new_machine shift down).base.components
process_known_key-follows_example =
    process_known_key-follows machine_keymap new_machine shift down client refl refl
      (inr (inr quiet))

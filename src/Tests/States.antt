-- ===== src/Tests/States.antt =====
-- The theorems on states, applied.
pub mod Frames
pub mod Queries
use libxkbcommon.Base.{
  ℕ, ◌+◌, ◌-◌, ◌<◌, ◌≡◌, refl, arith, Bool, true, false, not, Option, none, some, List, [], ◌∷◌,
  ◌==◌, testbit,
}
use libxkbcommon.Keymap.{Keymap, wrap, clamp}
use libxkbcommon.State.Types.{Components, up, down, repeated, legacy_mixed_state, ServerState}
use libxkbcommon.State.Derived.{derive}
use libxkbcommon.State.Latches.{ComponentsUpdate}
use libxkbcommon.State.Update.{
  state_init, server_state_init, apply_mod_requests, update_enabled_controls, update_key,
  update_latched_locked, update_layout_policy, update_synthetic,
}
use libxkbcommon.State.Update.Held.{
  IsHeld, count_of, bit_value, count_after, apply_mod_requests-IsHeld,
}
use libxkbcommon.State.Update.Invariant.{
  IsValid, update_enabled_controls-IsValid, update_key-IsValid, update_latched_locked-IsValid,
}
use libxkbcommon.State.Update.Calls.{
  Call, key, controls, latched_locked, synthetic, calls, server_state_init-IsValid,
  reachable-IsValid,
}
use libxkbcommon.State.Update.Synthetic.{update_synthetic-IsValid}
use libxkbcommon.Tests.Example.{keymap, keymap-IsCompiled}

abbrev pub start : ServerState
start = server_state_init keymap legacy_mixed_state 0 0

pub start-IsValid : (spare : ℕ) → spare < 32768 → IsValid keymap spare start
start-IsValid spare h =
    server_state_init-IsValid keymap legacy_mixed_state 0 0 spare keymap-IsCompiled h

abbrev pub latch_update : ComponentsUpdate
latch_update = record {
  components = 98;
  affect_latched_mods = 5;
  latched_mods = 4;
  latched_layout = 1;
  affect_locked_mods = 2;
  locked_mods = 2;
  locked_layout = 1;
  affect_controls = 1;
  controls = 1;
}

abbrev typed : List Call
typed =
    key 10 down
    ∷ key 11 down
    ∷ synthetic (some (some clamp, 0)) (some latch_update)
    ∷ key 11 up
    ∷ key 12 down
    ∷ latched_locked 255 1 true 1 3 3 false 0
    ∷ key 12 up
    ∷ controls 1 0
    ∷ key 10 up
    ∷ []

reachable-IsValid_example : IsValid keymap 0 (calls keymap start typed)
reachable-IsValid_example =
    reachable-IsValid keymap keymap-IsCompiled legacy_mixed_state 0 0 typed
      ((omega arith, omega arith), (omega arith, omega arith, tt)) (omega arith)

-- Shift is asked for, and Control given up that no key holds.
abbrev requested : ServerState
requested = record start { set_mods = 1; clear_mods = 4 }

requested-IsHeld : IsHeld 2 requested
requested-IsHeld =
    let h = (start-IsValid 2 (omega arith)).held in
    record { number = h.number; base = h.base; small = h.small }

count_after_example :
    count_of (apply_mod_requests requested) 0
    ≡ count_of requested 0
      + bit_value (testbit requested.set_mods 0)
      - bit_value (testbit requested.clear_mods 0)
count_after_example =
    count_after requested (omega arith) (omega arith) 1 0 requested-IsHeld (omega arith)

apply_mod_requests-IsHeld_example : IsHeld 1 (apply_mod_requests requested)
apply_mod_requests-IsHeld_example =
    apply_mod_requests-IsHeld requested (omega arith) (omega arith) 1 requested-IsHeld

-- ===== src/Tests/States/Frames.antt =====
-- The theorems on the filters and on the derived state, applied.
use libxkbcommon.Base.{◌≡◌, arith, testbit}
use libxkbcommon.Keymap.{KeyRef, wrap}
use libxkbcommon.State.Types.{Components, down, component_changes}
use libxkbcommon.State.Derived.{update_derived, led_update_all}
use libxkbcommon.State.Derived.Effective.{update_derived_idem}
use libxkbcommon.State.Derived.Lights.{lit_at, led_update_all-testbit}
use libxkbcommon.State.Latches.{filter_apply_all, clear_all_latches_and_locks}
use libxkbcommon.State.Frame.{IsFrame}
use libxkbcommon.State.Frame.Entry.{filter_apply_all-IsFrame, clear_all_latches_and_locks-IsFrame}
use libxkbcommon.State.Update.Changes.{differs, component_changes-differs}
use libxkbcommon.Tests.Example.{keymap, keymap-IsCompiled, shift_key, key_get_actions-WordMasks}
use libxkbcommon.Tests.States.{start, start-IsValid}

abbrev pub shifted : Components
shifted = record {
  base_group = 0xffffffff;
  latched_group = 0;
  locked_group = 1;
  group = 0;
  base_mods = 1;
  latched_mods = 0;
  locked_mods = 4;
  mods = 0;
  leds = 0;
  controls = 0;
}

abbrev shift_ref : KeyRef
shift_ref = record { address = 4; key = shift_key }

filter_apply_all-IsFrame_example : IsFrame start (filter_apply_all keymap start shift_ref down)
filter_apply_all-IsFrame_example =
    filter_apply_all-IsFrame keymap keymap-IsCompiled.mappings start shift_ref down
      (start-IsValid 0 (omega arith)).sound
      (key_get_actions-WordMasks shift_key (((omega arith, tt), tt), tt))

clear_all_latches_and_locks-IsFrame_example :
    IsFrame start (clear_all_latches_and_locks keymap start)
clear_all_latches_and_locks-IsFrame_example =
    clear_all_latches_and_locks-IsFrame keymap keymap-IsCompiled.mappings start
      (start-IsValid 0 (omega arith)).sound

update_derived_idem_example :
    update_derived keymap wrap 0 (update_derived keymap wrap 0 shifted)
    ≡ update_derived keymap wrap 0 shifted
update_derived_idem_example = update_derived_idem keymap wrap 0 shifted (omega arith)

led_update_all-testbit_example :
    testbit (led_update_all keymap shifted).leds 0 ≡ lit_at shifted keymap.leds 0
led_update_all-testbit_example = led_update_all-testbit keymap shifted 0

component_changes-differs_example :
    testbit (component_changes start.components shifted) 0 ≡ differs start.components shifted 0
component_changes-differs_example = component_changes-differs start.components shifted 0

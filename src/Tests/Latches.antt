-- ===== src/Tests/Latches.antt =====
-- The theorems on group latches, applied to a latch that moves one group back.
use libxkbcommon.Base.{◌≡◌, refl, arith, false, inr, add32}
use libxkbcommon.Keymap.{group_latch, action_of, KeyRef}
use libxkbcommon.State.Types.{up, group_latch_func, Filter, ServerState}
use libxkbcommon.State.Filters.Groups.{
  latch_pending, priv_latch, group_latch_new, group_latch_handler,
}
use libxkbcommon.State.Filters.Groups.Tap.{group_delta, group_latch_tap}
use libxkbcommon.Tests.Example.{letter_key}
use libxkbcommon.Tests.States.{start}
use libxkbcommon.Tests.States.Frames.{shifted}

abbrev held : ServerState
held = record start { components = shifted }

abbrev latch : Filter
latch = record {
  action = record (action_of group_latch) { group = 0xffffffff };
  key = 5;
  func = group_latch_func;
  priv = 0;
  refcnt = 1;
}

abbrev latching_key : KeyRef
latching_key = record { address = 5; key = letter_key }

group_latch_tap_example :
    let r =
      group_latch_handler
        (group_latch_new held latch).state
        (group_latch_new held latch).filter
        latching_key
        up in
    (r.state.components.base_group ≡ held.components.base_group)
    × (r.state.components.latched_group
        ≡ add32 held.components.latched_group (group_delta held latch))
    × (priv_latch r.filter.priv ≡ latch_pending)
    × (r.consumed ≡ false)
group_latch_tap_example =
    group_latch_tap held latch latching_key refl refl (omega arith) (omega arith)
      (inr (omega arith, omega arith))

-- ===== src/Machine/Process.antt =====
-- A key event and a synthetic update on a machine (`xkb_machine_process_key`,
-- `xkb_machine_process_synthetic` of src/state.c). The queue is that of the machine's state.
pub mod Invariant
pub mod Tracking
pub mod Following
pub mod Calls
use libxkbcommon.Base.{
  ℕ, Bool, true, false, Option, none, some, List, [], ◌∷◌, ◌++◌, ◌==◌, if◌then◌else◌, has,
}
use libxkbcommon.Keymap.{Keymap, Policy, KeyRef, xkb_key}
use libxkbcommon.State.Types.{
  Components, component_changes, controls_component, sticky_keys, Direction, Event, key_event,
  components_change, ServerState,
}
use libxkbcommon.State.Derived.{derive}
use libxkbcommon.State.Latches.{ComponentsUpdate, filter_apply_all}
use libxkbcommon.State.Update.{
  apply_mod_requests, update_enabled_controls, breaks_sticky_keys, is_ignored, update_policy_of,
  update_components_of,
}
use libxkbcommon.Machine.{Machine}
use libxkbcommon.Machine.Overlays.{machine_update_overlays, process_overlayable_key}
use libxkbcommon.Machine.Tweaks.{queue_of, do_remap_modifiers, do_shortcuts_tweak, undo_tweaks}

-- The loop that looks for a key event in the queue.
unfoldable pub has_key_event : List Event → Bool
has_key_event [] = false
has_key_event (key_event d kc ∷ rest) = true
has_key_event (components_change c changed ∷ rest) = has_key_event rest

-- The event of the key itself, unless an action has queued one.
unfoldable pub add_key_event : List Event → Direction → ℕ → List Event
add_key_event queue d kc = if has_key_event queue then queue else queue ++ (key_event d kc ∷ [])

abbrev pub undo_if_tweaked : Option ℕ → Components → List Event → List Event
undo_if_tweaked none previous queue = queue
undo_if_tweaked (some i) previous queue = undo_tweaks previous queue

abbrev pub with_queue : ServerState → List Event → ServerState
with_queue s queue = record s { events = some queue }

module _ (keymap : Keymap) where
  -- What both entry points end with: an event, where some component has changed.
  unfoldable pub report_changes : Machine → Components → ServerState → List Event → Machine
  report_changes sm previous s queue =
      let changed = component_changes previous s.components in
      let reported = record sm {
        base = with_queue s (queue ++ (components_change s.components changed ∷ []));
      } in
      if changed == 0
      then record sm { base = with_queue s queue }
      else if has changed controls_component
      then machine_update_overlays keymap reported
      else reported

  -- The state with sticky keys turned off where the press does that.
  unfoldable pub break_sticky_keys : ServerState → Direction → ServerState
  break_sticky_keys s d =
      if breaks_sticky_keys keymap s d then update_enabled_controls keymap s sticky_keys 0 else s

  -- The key that is processed in place of `key`.
  unfoldable pub overlaid : Machine → KeyRef → Direction → Machine × KeyRef
  overlaid sm key d =
      if key.key.overlays == 0 then (sm, key) else process_overlayable_key keymap sm key d

  -- The actions of the key, from the state with the tweaks.
  unfoldable pub run_actions : ServerState → KeyRef → Direction → ServerState
  run_actions s key d = derive keymap (
      apply_mod_requests
        (filter_apply_all keymap (record s { set_mods = 0; clear_mods = 0 }) key d))

  -- Both tweaks: the state, and the position of their event.
  unfoldable pub tweak : Machine → Components → ServerState → KeyRef → ServerState × Option ℕ
  tweak sm previous s key =
      let (t, remap) = do_remap_modifiers keymap sm s key.key in
      do_shortcuts_tweak keymap sm previous t remap

  -- `xkb_machine_process_key` behind its guards.
  unfoldable pub process_known_key : Machine → KeyRef → Direction → Machine
  process_known_key sm key d =
      let previous = sm.base.components in
      let s = break_sticky_keys (with_queue sm.base []) d in
      let (sm', key') = overlaid sm key d in
      let (t, tweaked) = tweak sm' previous s key' in
      let u = run_actions t key' d in
      report_changes sm' previous u
        (undo_if_tweaked tweaked previous (add_key_event (queue_of u) d key'.key.key_code))

  -- `xkb_machine_process_key`.
  unfoldable pub machine_process_key : Machine → ℕ → Direction → Machine
  machine_process_key sm kc d =
      let idle = record sm { base = with_queue sm.base [] } in
      elim (xkb_key keymap kc) [
        | none ↦ idle
        | some key ↦
            if is_ignored keymap d key.key.repeats then idle else process_known_key sm key d
      ]

  -- `xkb_machine_process_synthetic` on an update with the sizes of this version; `none` is an
  -- error code, and the machine is then as it was. The queue is not emptied.
  unfoldable pub machine_process_synthetic :
      Machine → Option (Option Policy × ℕ) → Option ComponentsUpdate → Option Machine
  machine_process_synthetic sm policy update = elim (update_policy_of keymap sm.base policy) [
    | none ↦ none
    | some s ↦
        let t = derive keymap (update_components_of keymap s update) in
        some (report_changes sm sm.base.components t (queue_of t))
  ]

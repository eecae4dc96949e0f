-- ===== src/Machine/Events.antt =====
-- Event batches, the queries on an event, and a state that follows a machine through its events
-- (`xkb_events_next`, `xkb_event_*`, `xkb_state_update_event` of src/state.c).
pub mod Drain
use libxkbcommon.Base.{
  ℕ, ◌+◌, Bool, true, false, not, Option, none, some, List, [], ◌∷◌, ltb, if◌then◌else◌, length,
  get_elem?, ◌==◌,
}
use libxkbcommon.Keymap.{keycode_invalid, layout_invalid}
use libxkbcommon.State.Types.{
  component_changes, up, down, repeated, Event, key_event, components_change, Mode,
  server_companion, legacy_mixed_state, ServerState, with_components,
}
use libxkbcommon.State.Query.{serialize_mods, serialize_layout, serialize_controls}

-- `struct xkb_events`, the context apart.
pub record EventBatch : Type 0 where
  pub next : ℕ
  pub queue : List Event

-- `xkb_events_new_batch`: no flag is defined yet.
unfoldable pub events_new_batch : ℕ → Option EventBatch
events_new_batch flags = if not (flags == 0) then none else some (record { next = 0; queue = [] })

-- `xkb_events_next`: the event, `none` for `NULL`, and the batch with its cursor moved.
unfoldable pub events_next : EventBatch → Option Event × EventBatch
events_next b =
    if ltb b.next (length b.queue)
    then (get_elem? b.queue b.next, record b { next = b.next + 1 })
    else (none, b)

-- `enum xkb_event_type`.
pub data EventType : Type 0 where
  key_down key_repeated key_up components_changed : EventType

-- `xkb_event_get_type`.
unfoldable pub event_get_type : Event → EventType
event_get_type (key_event down kc) = key_down
event_get_type (key_event repeated kc) = key_repeated
event_get_type (key_event up kc) = key_up
event_get_type (components_change c changed) = components_changed

-- `xkb_event_get_keycode`.
unfoldable pub event_get_keycode : Event → ℕ
event_get_keycode (key_event d kc) = kc
event_get_keycode (components_change c changed) = keycode_invalid

-- `xkb_event_get_changed_components`.
unfoldable pub event_get_changed_components : Event → ℕ
event_get_changed_components (key_event d kc) = 0
event_get_changed_components (components_change c changed) = changed

-- `xkb_event_serialize_enabled_controls`.
unfoldable pub event_serialize_enabled_controls : Event → ℕ → ℕ
event_serialize_enabled_controls (key_event d kc) type = 0
event_serialize_enabled_controls (components_change c changed) type = serialize_controls c type

-- `xkb_event_serialize_mods`.
unfoldable pub event_serialize_mods : Event → ℕ → ℕ
event_serialize_mods (key_event d kc) type = 0
event_serialize_mods (components_change c changed) type = serialize_mods c type

-- `xkb_event_serialize_layout`.
unfoldable pub event_serialize_layout : Event → ℕ → ℕ
event_serialize_layout (key_event d kc) type = layout_invalid
event_serialize_layout (components_change c changed) type = serialize_layout c type

-- `mode == SERVER_COMPANION || mode == LEGACY_MIXED_STATE`.
abbrev pub follows_events : Mode → Bool
follows_events server_companion = true
follows_events legacy_mixed_state = true
follows_events _ = false

-- `xkb_state_update_event`. In the wrong mode it logs and returns 0.
unfoldable pub update_event : ServerState → Event → ServerState × ℕ
update_event s (key_event d kc) = (s, 0)
update_event s (components_change c changed) =
    if not (follows_events s.mode)
    then (s, 0)
    else (with_components s c, component_changes s.components c)

-- A client that hands all events of a queue to its state.
unfoldable pub follow : ServerState → List Event → ServerState
follow s [] = s
follow s (e ∷ rest) = follow (update_event s e).0 rest

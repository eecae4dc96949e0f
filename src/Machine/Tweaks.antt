-- ===== src/Machine/Tweaks.antt =====
-- What a machine changes around a key event: modifiers remapped, the layout of shortcuts, and both
-- undone (`do_remap_modifiers`, `do_shortcuts_tweak`, `undo_tweaks` of src/state.c). The queue is
-- the one of the state; a position in it that is -1 in the source is `none`.
pub mod Remapped
use libxkbcommon.Base.{
  ℕ, Bool, not, ◌&&◌, Option, none, some, List, [], ◌∷◌, ◌++◌, ◌==◌, if◌then◌else◌, length,
  get_elem?, get_or, set, bit_and, bit_or, has, clear, sub32,
}
use mathlib.Core.List.{reverse}
use libxkbcommon.Keymap.{Keymap, Key, layout_invalid}
use libxkbcommon.State.Types.{
  Components, component_changes, Event, key_event, components_change, ServerState,
}
use libxkbcommon.State.Actions.{state_key_get_layout}
use libxkbcommon.State.Derived.{update_derived}
use libxkbcommon.State.Filters.Controls.{last_update}
use libxkbcommon.Machine.{ModsMapping, Machine}

abbrev pub queue_of : ServerState → List Event
queue_of s = elim s.events [ none ↦ [] | some queue ↦ queue ]

-- The test of a mapping: all its source modifiers are active, none is taken by a mapping before,
-- and the type of the key uses none.
abbrev pub mapping_applies : ModsMapping → ℕ → ℕ → ℕ → Bool
mapping_applies m active used affect =
    bit_and m.source active == m.source && (not (has m.source affect) && not (has m.source used))

-- The loop of `do_remap_modifiers`: the source modifiers taken, and their targets.
unfoldable pub remap_loop : List ModsMapping → ℕ → ℕ → ℕ → ℕ → ℕ × ℕ
remap_loop [] active used affect mods = (affect, mods)
remap_loop (m ∷ rest) active used affect mods =
    let applies = mapping_applies m active used affect in
    remap_loop rest active used (if applies then bit_or affect m.source else affect)
      (if applies then bit_or mods m.target else mods)

abbrev pub remapped : Components → ℕ → ℕ → Components
remapped c affect mods = record c {
  base_mods = bit_or (clear c.base_mods affect) mods;
  latched_mods = clear c.latched_mods affect;
  locked_mods = clear c.locked_mods affect;
}

module _ (keymap : Keymap) where
  -- The components derived anew under the layout policy of the state.
  abbrev pub rederive : ServerState → Components → Components
  rederive s c = update_derived keymap s.policy s.redirect_group c

  -- `do_remap_modifiers` once the modifiers to take and their targets are known.
  unfoldable pub apply_remap : ServerState → ℕ → ℕ → ServerState × Option ℕ
  apply_remap s affect mods =
      let c = s.components in
      let queue = queue_of s in
      let new = rederive s (remapped c affect mods) in
      let changed = component_changes c new in
      let t = record s { components = record c { mods = new.mods } } in
      if affect == 0 then (s, none) else if changed == 0 then (t, none) else (
        record t { events = some (queue ++ (components_change new changed ∷ [])) },
        some (length queue),
      )

  -- `do_remap_modifiers`.
  unfoldable pub do_remap_modifiers : Machine → ServerState → Key → ServerState × Option ℕ
  do_remap_modifiers sm s key =
      let active = s.components.mods in
      if not (has sm.mods_mask active)
      then (s, none)
      else elim (get_elem? key.groups (state_key_get_layout s.components key)) [
        | none ↦ (s, none)
        | some group ↦
            let (affect, mods) = remap_loop sm.mappings active group.type.mods.mask 0 0 in
            apply_remap s affect mods
      ]

  -- The components in the event at a position of the queue.
  abbrev pub components_at : List Event → Option ℕ → Components → Components
  components_at queue none c = c
  components_at queue (some i) c = elim (get_elem? queue i) [
    | none ↦ c
    | some e ↦ elim e [ key_event d kc ↦ c | components_change new changed ↦ new ]
  ]

  abbrev pub put_event : List Event → Option ℕ → Event → List Event
  put_event queue none e = queue ++ (e ∷ [])
  put_event queue (some i) e = set queue i e

  abbrev pub position : List Event → Option ℕ → ℕ
  position queue none = length queue
  position queue (some i) = i

  -- `do_shortcuts_tweak` with a target layout. The effective group is the index of an entry of the
  -- targets.
  unfoldable pub activate_target : ServerState → Components → Option ℕ → ℕ → ServerState × Option ℕ
  activate_target s previous remap target =
      let c = s.components in
      let queue = queue_of s in
      let new = rederive s (record (components_at queue remap c) {
        base_group = sub32 (sub32 target c.latched_group) c.locked_group;
      }) in
      let e = components_change new (component_changes previous new) in
      (
        record s {
          components = record c { group = new.group };
          events = some (put_event queue remap e);
        },
        some (position queue remap),
      )

  -- `do_shortcuts_tweak`.
  unfoldable pub do_shortcuts_tweak :
      Machine → Components → ServerState → Option ℕ → ServerState × Option ℕ
  do_shortcuts_tweak sm previous s remap = elim sm.targets [
    | none ↦ (s, remap)
    | some targets ↦
        let target = get_or targets s.components.group layout_invalid in
        if has s.components.mods sm.shortcuts_mask && not (target == layout_invalid)
        then activate_target s previous remap target
        else (s, remap)
  ]

-- `undo_tweaks`, on the queue.
unfoldable pub undo_tweaks : Components → List Event → List Event
undo_tweaks previous queue = elim (last_update (reverse queue)) [
  | none ↦ queue
  | some c ↦
      let changed = component_changes previous c in
      if changed == 0 then queue else queue ++ (components_change previous changed ∷ [])
]

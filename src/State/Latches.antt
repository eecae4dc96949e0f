-- ===== src/State/Latches.antt =====
-- Setting and clearing latches and locks from outside (`update_latch_modifiers`,
-- `update_latch_group`, `state_update_latched_locked`), and `clear_all_latches_and_locks`, which
-- ties the knot with the control actions.
pub mod Synthetic
use libxkbcommon.Base.{
  ℕ, ◌+◌, Bool, true, false, not, List, [], ◌∷◌, ◌==◌, if◌then◌else◌, bit_and, bit_or, has, clear,
}
use libxkbcommon.Keymap.{
  Action, ActionType, mod_latch, group_latch, internal, action_of, absolute_switch, Mods,
  KeyTypeEntry, KeyType, Level, Group, Policy, wrap, Key, KeyRef, Keymap, mod_mask_get_effective,
}
use libxkbcommon.State.Types.{
  Components, layout_latched, layout_locked, mods_latched, mods_locked, Direction, up, down,
  FilterFunc, mod_latch_func, group_latch_func, Filter, ServerState, FilterResult, with_components,
}
use libxkbcommon.State.Actions.{breaks_group_latch, breaks_mod_latch}
use libxkbcommon.State.Filters.Groups.{group_latch_new, group_latch_handler}
use libxkbcommon.State.Filters.Modifiers.{mod_latch_new, mod_latch_handler, unlatch_mods}
use libxkbcommon.State.Apply.{filter_new, put_filter, apply_all}

abbrev pub no_mods : Mods
no_mods = record { mods = 0; mask = 0 }

-- `synthetic_key_type`: one level, whatever the modifiers.
abbrev pub synthetic_key_type : KeyType
synthetic_key_type = record {
  mods = no_mods;
  num_levels = 1;
  entries = record { level = 0; mods = no_mods; preserve = no_mods } ∷ [];
}

-- A synthetic key that carries one internal action.
abbrev pub synthetic_break_key : ℕ → Action → KeyRef
synthetic_break_key address a = record {
  address = address;
  key = record {
    key_code = 0;
    name = 0;
    overlays = 0;
    overlays_inline = false;
    overlay_key = 0;
    overlays_keys = [];
    repeats = false;
    policy = wrap;
    group_number = 0;
    groups =
        record { type = synthetic_key_type; levels = record { syms = []; actions = a ∷ [] } ∷ [] }
        ∷ [];
  };
}

abbrev pub break_mod_latch_key : ℕ → KeyRef
break_mod_latch_key mask =
    synthetic_break_key 2
      (record (action_of internal) { internal_flags = breaks_mod_latch; clear_latched_mods = mask })

abbrev pub break_group_latch_key : KeyRef
break_group_latch_key =
    synthetic_break_key 3 (record (action_of internal) { internal_flags = breaks_group_latch })

-- `synthetic_key`, all fields zeroed.
abbrev pub synthetic_key : KeyRef
synthetic_key = record {
  address = 1;
  key = record {
    key_code = 0;
    name = 0;
    overlays = 0;
    overlays_inline = false;
    overlay_key = 0;
    overlays_keys = [];
    repeats = false;
    policy = wrap;
    group_number = 0;
    groups = [];
  };
}

-- `resolve_to_canonical_mods`.
unfoldable pub resolve_to_canonical_mods : Keymap → ℕ → ℕ
resolve_to_canonical_mods keymap mods =
    bit_or (bit_and mods keymap.canonical_state_mask)
      (mod_mask_get_effective keymap (clear mods keymap.canonical_state_mask))

-- `struct xkb_state_components_update`.
pub record ComponentsUpdate : Type 0 where
  pub components : ℕ
  pub affect_latched_mods : ℕ
  pub latched_mods : ℕ
  pub latched_layout : ℕ
  pub affect_locked_mods : ℕ
  pub locked_mods : ℕ
  pub locked_layout : ℕ
  pub affect_controls : ℕ
  pub controls : ℕ

-- The filter added by hand, and its key released.
unfoldable pub tap_mod_latch : ServerState → ℕ → ServerState
tap_mod_latch s mask =
    let (t, i, f) = filter_new s in
    let r = mod_latch_new t (record f {
      key = synthetic_key.address;
      func = mod_latch_func;
      action = record (action_of mod_latch) { mask = mask };
    }) in
    let r' = mod_latch_handler r.state r.filter synthetic_key up in put_filter r'.state i r'.filter

unfoldable pub tap_group_latch : ServerState → ℕ → ServerState
tap_group_latch s group =
    let (t, i, f) = filter_new s in
    let r = group_latch_new t (record f {
      key = synthetic_key.address;
      func = group_latch_func;
      action = record (action_of group_latch) { flags = absolute_switch; group = group };
    }) in
    let r' = group_latch_handler r.state r.filter synthetic_key up in
    put_filter r'.state i r'.filter

module _ (keymap : Keymap) where
  module _ (clear_all : ServerState → ServerState) where
    -- `update_latch_modifiers`.
    unfoldable pub update_latch_modifiers : ServerState → ℕ → ℕ → ServerState
    update_latch_modifiers s mask latches =
        let cleared = clear mask latches in
        tap_mod_latch
          (apply_all keymap clear_all (unlatch_mods s cleared) (break_mod_latch_key cleared) down)
          (bit_and mask latches)

    -- `update_latch_group`.
    unfoldable pub update_latch_group : ServerState → ℕ → ServerState
    update_latch_group s group =
        tap_group_latch (apply_all keymap clear_all s break_group_latch_key down) group

    unfoldable pub update_locked : ServerState → ComponentsUpdate → ServerState
    update_locked s update =
        let affect = resolve_to_canonical_mods keymap update.affect_locked_mods in
        let locked = resolve_to_canonical_mods keymap update.locked_mods in
        let c = s.components in
        let mods =
          if affect == 0
          then c.locked_mods
          else bit_or (clear c.locked_mods affect) (bit_and locked affect) in
        with_components s (record c {
          locked_mods = mods;
          locked_group =
              if has update.components layout_locked then update.locked_layout else c.locked_group;
        })

    -- `state_update_latched_locked`.
    unfoldable pub state_update_latched_locked : ServerState → ComponentsUpdate → ServerState
    unfolding update_locked
    state_update_latched_locked s update =
        let t = update_locked s update in
        let affect = resolve_to_canonical_mods keymap update.affect_latched_mods in
        let u =
          if affect == 0
          then t
          else update_latch_modifiers t affect
              (resolve_to_canonical_mods keymap update.latched_mods) in
        if has update.components layout_latched
        then update_latch_group u update.latched_layout
        else u

  -- The update of `clear_all_latches_and_locks`: all latches and locks, to nothing.
  abbrev pub clear_everything : ComponentsUpdate
  clear_everything = record {
    components = 102;
    affect_latched_mods = 0xffffffff;
    latched_mods = 0;
    latched_layout = 0;
    affect_locked_mods = 0xffffffff;
    locked_mods = 0;
    locked_layout = 0;
    affect_controls = 0;
    controls = 0;
  }

  -- `clear_all_latches_and_locks`. Its key events are those of the two synthetic keys, on which no
  -- control filter gets as far as clearing again: the inner `clear_all` is never called.
  unfoldable pub clear_all_latches_and_locks : ServerState → ServerState
  clear_all_latches_and_locks s = state_update_latched_locked (λ t. t) s clear_everything

  -- `xkb_filter_apply_all` as the rest of the library calls it.
  unfoldable pub filter_apply_all : ServerState → KeyRef → Direction → ServerState
  filter_apply_all = apply_all keymap clear_all_latches_and_locks

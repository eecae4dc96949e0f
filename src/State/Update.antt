-- ===== src/State/Update.antt =====
-- The entry points that change a state: key events, masks, latches and locks, controls and the
-- layout policy.
pub mod Counting
pub mod Held
pub mod Invariant
pub mod Calls
pub mod Masks
pub mod Changes
pub mod Synthetic
use libxkbcommon.Base.{
  ℕ, zero, suc, ◌+◌, ◌-◌, ◌*◌, ◌/◌, ◌%◌, Bool, true, false, not, ◌&&◌, ◌||◌, Option, none, some,
  List, [], ◌∷◌, leb, ltb, ◌==◌, if◌then◌else◌, get_or, set, replicate, bit_and, bit_or, has, clear,
  u32,
}
use libxkbcommon.Keymap.{Keymap, KeyRef, xkb_key, Policy, wrap, clamp, redirect}
use libxkbcommon.State.Types.{
  Components, component_changes, mods_latched, mods_locked, layout_latched, layout_locked,
  sticky_keys, control_all_boolean, sticky_keys_no_simultaneous_keys, latch_simultaneous_keys,
  Direction, up, down, repeated, Mode, client_state, server_companion, legacy_mixed_state,
  legacy_server_state, server_state, ServerState, with_components,
}
use libxkbcommon.State.Derived.{derive, update_derived}
use libxkbcommon.State.Latches.{
  ComponentsUpdate, resolve_to_canonical_mods, state_update_latched_locked,
  clear_all_latches_and_locks, filter_apply_all,
}

abbrev pub zero_components : Components
zero_components = record {
  base_group = 0;
  latched_group = 0;
  locked_group = 0;
  group = 0;
  base_mods = 0;
  latched_mods = 0;
  locked_mods = 0;
  mods = 0;
  leds = 0;
  controls = 0;
}

-- A `calloc`ed state after `xkb_state_init` (`xkb_client_state_init`).
unfoldable pub state_init : Keymap → Mode → ServerState
state_init keymap mode = derive keymap (record {
  components = zero_components;
  policy = wrap;
  redirect_group = 0;
  mode = mode;
  filters = [];
  flags = 0;
  set_mods = 0;
  clear_mods = 0;
  mod_key_count = replicate 32 0;
  events = none;
})

-- `xkb_server_state_init`.
unfoldable pub server_state_init : Keymap → Mode → ℕ → ℕ → ServerState
unfolding state_init
server_state_init keymap mode a11y_affect a11y_flags = record (state_init keymap mode) {
  flags =
      if not keymap.v1_format && not (has a11y_affect latch_simultaneous_keys)
      then bit_or a11y_flags latch_simultaneous_keys
      else a11y_flags;
}

-- `xkb_state_new`.
unfoldable pub state_new : Keymap → ServerState
unfolding server_state_init
state_new keymap = server_state_init keymap legacy_mixed_state 0 0

-- The public modes of `enum xkb_state_mode`; any other value gets `NULL`.
pub data PublicMode : Type 0 where
  mode_client mode_server mode_server_query mode_other : PublicMode

-- `xkb_state_new_with_mode`.
unfoldable pub state_new_with_mode : Keymap → PublicMode → Option ServerState
unfolding state_init server_state_init
state_new_with_mode keymap mode_client = some (state_init keymap client_state)
state_new_with_mode keymap mode_server_query = some (state_init keymap server_companion)
state_new_with_mode keymap mode_server = some (server_state_init keymap legacy_server_state 0 0)
state_new_with_mode keymap mode_other = none

-- `mode > SERVER_COMPANION`: the state has filters.
abbrev pub is_server_mode : Mode → Bool
is_server_mode client_state = false
is_server_mode server_companion = false
is_server_mode _ = true

-- `mode == CLIENT_STATE || mode == LEGACY_MIXED_STATE`.
abbrev pub accepts_masks : Mode → Bool
accepts_masks client_state = true
accepts_masks legacy_mixed_state = true
accepts_masks _ = false

-- `mod_key_count[i]++` on an `int16_t`.
abbrev pub count_up : ℕ → ℕ
count_up n = (n + 1) % 65536

-- `mod_key_count[i]--`.
abbrev pub count_down : ℕ → ℕ
count_down n = (n + 65535) % 65536

-- `count <= 0` on an `int16_t`.
abbrev pub not_positive : ℕ → Bool
not_positive n = n == 0 || leb 32768 n

-- The body of the loop over `set_mods`, where the bit is set.
abbrev pub set_round : ℕ → ℕ → ServerState → ServerState
set_round i bit s = record s {
  mod_key_count = set s.mod_key_count i (count_up (get_or s.mod_key_count i 0));
  components = record s.components { base_mods = bit_or s.components.base_mods bit };
  set_mods = clear s.set_mods bit;
}

-- The loop at index `i`, where `bit` is `1 << i`.
unfoldable pub set_loop : ℕ → ℕ → ℕ → ServerState → ServerState
set_loop zero i bit s = s
set_loop (suc fuel) i bit s =
    let next =
      set_loop fuel (i + 1) (u32 (bit * 2)) (if has s.set_mods bit then set_round i bit s else s) in
    if s.set_mods == 0 then s else next

-- The body of the loop over `clear_mods`. A count that is no longer positive becomes 0, and only
-- then the base modifier goes.
abbrev pub clear_round : ℕ → ℕ → ServerState → ServerState
clear_round i bit s =
    let count = count_down (get_or s.mod_key_count i 0) in
    let last = not_positive count in
    record s {
      mod_key_count = set s.mod_key_count i (if last then 0 else count);
      components = record s.components {
        base_mods = if last then clear s.components.base_mods bit else s.components.base_mods;
      };
      clear_mods = clear s.clear_mods bit;
    }

unfoldable pub clear_loop : ℕ → ℕ → ℕ → ServerState → ServerState
clear_loop zero i bit s = s
clear_loop (suc fuel) i bit s =
    let next =
      clear_loop fuel (i + 1) (u32 (bit * 2))
        (if has s.clear_mods bit then clear_round i bit s else s) in
    if s.clear_mods == 0 then s else next

-- Both loops, with one round for each modifier.
unfoldable pub apply_mod_requests : ServerState → ServerState
apply_mod_requests s = clear_loop 32 0 1 (set_loop 32 0 1 s)

module _ (keymap : Keymap) where
  -- `state_update_enabled_controls`.
  unfoldable pub update_enabled_controls : ServerState → ℕ → ℕ → ServerState
  update_enabled_controls s affect controls =
      let c = s.components in
      let mask = bit_and affect control_all_boolean in
      let new = bit_or (clear c.controls mask) (bit_and controls mask) in
      let t = with_components s (record c { controls = new }) in
      derive keymap (
        if has c.controls sticky_keys && not (has new sticky_keys)
        then clear_all_latches_and_locks keymap t
        else t)

  -- A key press with a modifier already held can turn sticky keys off.
  abbrev pub breaks_sticky_keys : ServerState → Direction → Bool
  breaks_sticky_keys s down =
      has s.components.controls sticky_keys
      && (has s.flags sticky_keys_no_simultaneous_keys && not (s.components.base_mods == 0))
  breaks_sticky_keys s _ = false

  -- The part of `xkb_state_update_key` behind its guards.
  unfoldable pub process_key : ServerState → KeyRef → Direction → ServerState × ℕ
  process_key s key d =
      let t = if breaks_sticky_keys s d then update_enabled_controls s sticky_keys 0 else s in
      let u = filter_apply_all keymap (record t { set_mods = 0; clear_mods = 0 }) key d in
      let v = derive keymap (apply_mod_requests u) in
      (v, component_changes t.components v.components)

  abbrev pub is_ignored : Direction → Bool → Bool
  is_ignored repeated repeats = not repeats
  is_ignored _ repeats = false

  -- `xkb_state_update_key`, with the queue `NULL`. In the wrong mode it logs and returns 0.
  unfoldable pub update_key : ServerState → ℕ → Direction → ServerState × ℕ
  update_key s kc d = if not (is_server_mode s.mode) then (s, 0) else elim (xkb_key keymap kc) [
    | none ↦ (s, 0)
    | some key ↦ if is_ignored d key.key.repeats then (s, 0) else process_key s key d
  ]

  -- `xkb_state_update_latched_locked`.
  unfoldable pub update_latched_locked :
      ServerState → ℕ → ℕ → Bool → ℕ → ℕ → ℕ → Bool → ℕ → ServerState × ℕ
  update_latched_locked s affect_latched latched affect_latched_layout latched_layout affect_locked
        locked affect_locked_layout locked_layout =
      let components =
        bit_or
          (bit_or (if not (affect_latched == 0) || not (latched == 0) then mods_latched else 0)
            (if not (affect_locked == 0) || not (locked == 0) then mods_locked else 0))
          (bit_or (if affect_latched_layout then layout_latched else 0)
            (if affect_locked_layout then layout_locked else 0)) in
      let update : ComponentsUpdate = record {
        components = components;
        affect_latched_mods = affect_latched;
        latched_mods = latched;
        latched_layout = latched_layout;
        affect_locked_mods = affect_locked;
        locked_mods = locked;
        locked_layout = locked_layout;
        affect_controls = 0;
        controls = 0;
      } in
      let t =
        derive keymap
          (state_update_latched_locked keymap (clear_all_latches_and_locks keymap) s update) in
      if not (is_server_mode s.mode)
      then (s, 0)
      else (t, component_changes s.components t.components)

  -- `xkb_state_update_mask`; the groups are cast to `int32_t`, which keeps the bit pattern.
  unfoldable pub update_mask : ServerState → ℕ → ℕ → ℕ → ℕ → ℕ → ℕ → ServerState × ℕ
  update_mask s base_mods latched_mods locked_mods base_group latched_group locked_group =
      let t = derive keymap (
        with_components s (record s.components {
          base_mods = resolve_to_canonical_mods keymap base_mods;
          latched_mods = resolve_to_canonical_mods keymap latched_mods;
          locked_mods = resolve_to_canonical_mods keymap locked_mods;
          base_group = base_group;
          latched_group = latched_group;
          locked_group = locked_group;
        })) in
      if not (accepts_masks s.mode)
      then (s, 0)
      else (t, component_changes s.components t.components)

  -- `struct xkb_layout_policy_update`; `none` is a policy that the library does not support.
  -- `state_update_layout_policy`: `none` where it refuses the update.
  unfoldable pub update_layout_policy : ServerState → Option Policy → ℕ → Option ServerState
  update_layout_policy s none number = none
  update_layout_policy s (some redirect) number =
      if ltb number keymap.num_groups
      then some (record s { policy = redirect; redirect_group = number })
      else none
  update_layout_policy s (some policy) number = some (record s { policy = policy })

  abbrev pub update_policy_of : ServerState → Option (Option Policy × ℕ) → Option ServerState
  update_policy_of s none = some s
  update_policy_of s (some (policy, number)) = update_layout_policy s policy number

  -- The part of `xkb_state_update_synthetic` on `update->components`.
  unfoldable pub update_components_of : ServerState → Option ComponentsUpdate → ServerState
  update_components_of s none = s
  update_components_of s (some update) =
      state_update_latched_locked keymap (clear_all_latches_and_locks keymap)
        (update_enabled_controls s update.affect_controls update.controls) update

  -- `xkb_state_update_synthetic` on an update with the sizes of this version. `none` is an error
  -- code; the source has then changed nothing.
  unfoldable pub update_synthetic :
      ServerState → Option (Option Policy × ℕ) → Option ComponentsUpdate → Option (ServerState × ℕ)
  update_synthetic s policy update =
      if not (is_server_mode s.mode) then none else elim (update_policy_of s policy) [
        | none ↦ none
        | some t ↦
            let u = derive keymap (update_components_of t update) in
            some (u, component_changes s.components u.components)
      ]

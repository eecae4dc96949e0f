-- ===== src/State/Types.antt =====
-- The data of src/state.c and src/state-priv.h: state components, filters, events and the state.
use Prim.Native.Nat.{pred}
use libxkbcommon.Base.{
  ℕ, ◌+◌, Bool, true, false, not, Option, List, ◌==◌, if◌then◌else◌, bit_or, add32, has,
}
use libxkbcommon.Keymap.{Action, ActionType, action_code, Policy, absolute_switch}

-- `struct state_components`; the first three groups are bit patterns of `int32_t`.
pub record Components : Type 0 where
  pub base_group : ℕ
  pub latched_group : ℕ
  pub locked_group : ℕ
  pub group : ℕ
  pub base_mods : ℕ
  pub latched_mods : ℕ
  pub locked_mods : ℕ
  pub mods : ℕ
  pub leds : ℕ
  pub controls : ℕ

-- Bits of `enum xkb_state_component`.
abbrev pub mods_depressed : ℕ
mods_depressed = 1

abbrev pub mods_latched : ℕ
mods_latched = 2

abbrev pub mods_locked : ℕ
mods_locked = 4

abbrev pub mods_effective : ℕ
mods_effective = 8

abbrev pub layout_depressed : ℕ
layout_depressed = 16

abbrev pub layout_latched : ℕ
layout_latched = 32

abbrev pub layout_locked : ℕ
layout_locked = 64

abbrev pub layout_effective : ℕ
layout_effective = 128

abbrev pub leds_component : ℕ
leds_component = 256

abbrev pub controls_component : ℕ
controls_component = 512

-- `CONTROL_STICKY_KEYS` and `CONTROL_ALL_BOOLEAN` of src/keymap.h.
abbrev pub sticky_keys : ℕ
sticky_keys = 1

abbrev pub control_all_boolean : ℕ
control_all_boolean = 0x1fddff

-- Bits of `enum xkb_a11y_flags`.
abbrev pub sticky_keys_no_simultaneous_keys : ℕ
sticky_keys_no_simultaneous_keys = 1

abbrev pub sticky_keys_latch_to_lock : ℕ
sticky_keys_latch_to_lock = 2

abbrev pub latch_simultaneous_keys : ℕ
latch_simultaneous_keys = 4

-- `if (x != y) mask |= bit;`
unfoldable pub mark : ℕ → ℕ → ℕ → ℕ → ℕ
mark x y bit mask = if x == y then mask else bit_or mask bit

-- `get_state_component_changes`.
unfoldable pub component_changes : Components → Components → ℕ
component_changes a b = mark a.controls b.controls controls_component (
    mark a.leds b.leds leds_component (
      mark a.locked_mods b.locked_mods mods_locked (
        mark a.latched_mods b.latched_mods mods_latched (
          mark a.base_mods b.base_mods mods_depressed (
            mark a.mods b.mods mods_effective (
              mark a.locked_group b.locked_group layout_locked (
                mark a.latched_group b.latched_group layout_latched (
                  mark a.base_group b.base_group layout_depressed
                    (mark a.group b.group layout_effective 0)))))))))

pub data Direction : Type 0 where
  up down repeated : Direction

-- The handler that a filter points to; `no_func` is `NULL`, a free slot.
pub data FilterFunc : Type 0 where
  no_func mod_set_func mod_latch_func mod_lock_func : FilterFunc
  group_set_func group_latch_func group_lock_func ctrls_func redirect_key_func : FilterFunc

-- `key` is the address of the key that set the filter off.
pub record Filter : Type 0 where
  pub action : Action
  pub key : ℕ
  pub func : FilterFunc
  pub priv : ℕ
  pub refcnt : ℕ

pub data Event : Type 0 where
  key_event : Direction → ℕ → Event
  components_change : Components → ℕ → Event

-- `enum xkb_state_mode_internal`.
pub data Mode : Type 0 where
  client_state server_companion legacy_mixed_state legacy_server_state server_state : Mode

-- `struct xkb_server_state` with its base, the keymap apart. A client state has the same base and
-- no filters. `events` is the queue that the functions take as an argument: `none` where the
-- caller passes `NULL`.
pub record ServerState : Type 0 where
  pub components : Components
  pub policy : Policy
  pub redirect_group : ℕ
  pub mode : Mode
  pub filters : List Filter
  pub flags : ℕ
  pub set_mods : ℕ
  pub clear_mods : ℕ
  pub mod_key_count : List ℕ  -- int16_t
  pub events : Option (List Event)

-- What a handler leaves: the state, the filter that it ran on, and whether it consumed the event.
pub record FilterResult : Type 0 where
  pub state : ServerState
  pub filter : Filter
  pub consumed : Bool

abbrev pub pass : ServerState → Filter → FilterResult
pass s f = record { state = s; filter = f; consumed = false }

abbrev pub consume : ServerState → Filter → FilterResult
consume s f = record { state = s; filter = f; consumed = true }

abbrev pub with_components : ServerState → Components → ServerState
with_components s c = record s { components = c }

abbrev pub free : Filter → Filter
free f = record f { func = no_func }

abbrev pub with_flags : Filter → ℕ → Filter
with_flags f flags = record f { action = record f.action { flags = flags } }

abbrev pub is_type : Action → ActionType → Bool
is_type a t = action_code a.type == action_code t

-- `apply_group_delta` on the value of one group component.
abbrev pub apply_group_delta : Filter → ℕ → ℕ
apply_group_delta f component =
    if has f.action.flags absolute_switch then f.action.group else add32 component f.action.group

-- The `switch (direction)` of the handlers on their own key: the filter with its count changed,
-- and whether the key is still held, which consumes the event.
unfoldable pub hold_key : Direction → Filter → Filter × Bool
hold_key down f = (record f { refcnt = f.refcnt + 1 }, true)
hold_key repeated f = (f, true)
hold_key up f = let f' = record f { refcnt = pred f.refcnt } in (f', not (f'.refcnt == 0))

-- ===== src/Keymap.antt =====
-- The compiled keymap of src/keymap.h: its keys, key types, levels, actions, modifiers and LEDs,
-- and the lookups on it that the state machine uses (src/keymap.h, src/keymap-priv.c).
-- An array with its count is a list: `num_groups`, `num_entries`, `num_actions`, `num_mods` and
-- `num_leds` are lengths. `XKB_LAYOUT_INVALID` and `XKB_LEVEL_INVALID` are the numbers of the source.
pub mod Wrap
pub mod KeyTable
pub mod Queries
pub mod Iterator
use libxkbcommon.Base.{
  ℕ, zero, suc, ◌+◌, ◌-◌, ◌*◌, ◌/◌, ◌%◌, ◌^◌, ◌≤◌, ◌<◌, bit_and, bit_or, Bool, true, false, not,
  ◌&&◌, ◌||◌, Option, none, some, List, [], ◌∷◌, ltb, leb, ◌==◌, if◌then◌else◌, length, get_elem?,
  drop, has, is_negative,
}

abbrev pub layout_invalid : ℕ
layout_invalid = 0xffffffff

abbrev pub level_invalid : ℕ
level_invalid = 0xffffffff

abbrev pub keycode_invalid : ℕ
keycode_invalid = 0xffffffff

pub data ActionType : Type 0 where
  none_action void mod_set mod_latch mod_lock group_set group_latch group_lock : ActionType
  ptr_move ptr_button ptr_lock ptr_default terminate switch_vt : ActionType
  ctrl_set ctrl_lock redirect_key unsupported_legacy unknown private internal : ActionType

-- The values of the enumeration; `==` on them compares two types.
abbrev pub action_code : ActionType → ℕ
action_code none_action = 0
action_code void = 1
action_code mod_set = 2
action_code mod_latch = 3
action_code mod_lock = 4
action_code group_set = 5
action_code group_latch = 6
action_code group_lock = 7
action_code ptr_move = 8
action_code ptr_button = 9
action_code ptr_lock = 10
action_code ptr_default = 11
action_code terminate = 12
action_code switch_vt = 13
action_code ctrl_set = 14
action_code ctrl_lock = 15
action_code redirect_key = 16
action_code unsupported_legacy = 17
action_code unknown = 18
action_code private = 19
action_code internal = 20

-- Bits of `enum xkb_action_flags`.
abbrev pub lock_clear : ℕ
lock_clear = 1

abbrev pub latch_to_lock : ℕ
latch_to_lock = 2

abbrev pub lock_no_lock : ℕ
lock_no_lock = 4

abbrev pub lock_no_unlock : ℕ
lock_no_unlock = 8

abbrev pub absolute_switch : ℕ
absolute_switch = 32

abbrev pub lock_on_release : ℕ
lock_on_release = 1024

abbrev pub unlock_on_press : ℕ
unlock_on_press = 2048

abbrev pub latch_on_press : ℕ
latch_on_press = 4096

-- `union xkb_action`, with one field for each member that the state machine reads. `mask` is
-- `mods.mods.mask`; the redirect and internal members keep their own names.
pub record Action : Type 0 where
  pub type : ActionType
  pub flags : ℕ
  pub mask : ℕ
  pub group : ℕ  -- int32_t
  pub ctrls : ℕ
  pub keycode : ℕ
  pub affect : ℕ
  pub redirect_mods : ℕ
  pub internal_flags : ℕ
  pub clear_latched_mods : ℕ

-- All other fields of the union zeroed.
abbrev pub action_of : ActionType → Action
action_of t = record {
  type = t;
  flags = 0;
  mask = 0;
  group = 0;
  ctrls = 0;
  keycode = 0;
  affect = 0;
  redirect_mods = 0;
  internal_flags = 0;
  clear_latched_mods = 0;
}

-- `struct xkb_mods`.
pub record Mods : Type 0 where
  pub mods : ℕ
  pub mask : ℕ

pub record KeyTypeEntry : Type 0 where
  pub level : ℕ
  pub mods : Mods
  pub preserve : Mods

pub record KeyType : Type 0 where
  pub mods : Mods
  pub num_levels : ℕ
  pub entries : List KeyTypeEntry

pub record Level : Type 0 where
  pub syms : List ℕ
  pub actions : List Action

pub record Group : Type 0 where
  pub type : KeyType
  pub levels : List Level

pub data Policy : Type 0 where
  wrap clamp redirect : Policy

-- `name` is an atom. A key names the targets of its overlays by their addresses (see `KeyRef`): one of them inline,
-- or several in ascending order of the overlays.
pub record Key : Type 0 where
  pub key_code : ℕ
  pub name : ℕ
  pub overlays : ℕ
  pub overlays_inline : Bool
  pub overlay_key : ℕ
  pub overlays_keys : List ℕ
  pub repeats : Bool
  pub policy : Policy
  pub group_number : ℕ
  pub groups : List Group

-- `struct xkb_mod`: the flag tells a virtual modifier from a real one.
pub record Mod : Type 0 where
  pub is_virtual : Bool
  pub mapping : ℕ

pub record Led : Type 0 where
  pub named : Bool
  pub which_groups : ℕ
  pub groups : ℕ
  pub which_mods : ℕ
  pub mods : Mods
  pub ctrls : ℕ

pub record Keymap : Type 0 where
  pub v1_format : Bool
  pub min_key_code : ℕ
  pub max_key_code : ℕ
  pub num_keys_low : ℕ
  pub keys : List Key
  pub mods : List Mod
  pub canonical_state_mask : ℕ
  pub num_groups : ℕ
  pub leds : List Led

-- `XkbWrapGroupIntoRange`. `group` is the bit pattern of an `int32_t`; a negative one is
-- -(2 ^ 32 - group), and C's `%` takes the sign of the dividend.
-- Here, the remainder brought into range.
unfoldable pub wrap_remainder : ℕ → ℕ → ℕ
wrap_remainder group n =
    if is_negative group
    then (let rem = (4294967296 - group) % n in if rem == 0 then 0 else n - rem)
    else group % n

unfoldable pub out_of_range_group : ℕ → ℕ → Policy → ℕ → ℕ
out_of_range_group group num_groups redirect number = if leb num_groups number then 0 else number
out_of_range_group group num_groups clamp number = if is_negative group then 0 else num_groups - 1
out_of_range_group group num_groups wrap number = wrap_remainder group num_groups

unfoldable pub wrap_group_into_range : ℕ → ℕ → Policy → ℕ → ℕ
unfolding out_of_range_group wrap_remainder
wrap_group_into_range group num_groups policy number =
    if num_groups == 0
    then layout_invalid
    else if not (is_negative group) && ltb group num_groups
    then group
    else out_of_range_group group num_groups policy number

-- `xkb_keymap_key_effective_layout`.
unfoldable pub effective_layout : Key → ℕ → ℕ
effective_layout key layout =
    wrap_group_into_range layout (length key.groups) key.policy key.group_number

abbrev pub entry_is_active : KeyTypeEntry → Bool
entry_is_active entry = entry.mods.mods == 0 || not (entry.mods.mask == 0)

-- `get_entry_for_mods`: the first active entry for exactly these modifiers.
unfoldable pub get_entry_for_mods : List KeyTypeEntry → ℕ → Option KeyTypeEntry
get_entry_for_mods [] mods = none
get_entry_for_mods (entry ∷ rest) mods =
    if entry_is_active entry && (entry.mods.mask == mods)
    then some entry
    else get_entry_for_mods rest mods

-- `xkb_keymap_key_get_actions_by_level`; the empty list is the count 0. A level that the group's
-- array does not hold is read out of bounds in C, where compiled keymaps have `num_levels` levels.
unfoldable pub get_actions_by_level : Key → ℕ → ℕ → List Action
get_actions_by_level key layout level = elim (get_elem? key.groups (effective_layout key layout)) [
  | none ↦ []
  | some group ↦
      if leb group.type.num_levels level
      then []
      else elim (get_elem? group.levels level) [ none ↦ [] | some l ↦ l.actions ]
]

-- `mod_mask_get_effective`: the loop over the virtual modifiers from index `i` on.
unfoldable pub resolve_virtual : List Mod → ℕ → ℕ → ℕ → ℕ
resolve_virtual [] i mods mask = mask
resolve_virtual (mod_i ∷ rest) i mods mask =
    resolve_virtual rest (i + 1) mods (if has mods (2 ^ i) then bit_or mask mod_i.mapping else mask)

unfoldable pub mod_mask_get_effective : Keymap → ℕ → ℕ
mod_mask_get_effective keymap mods = resolve_virtual (drop 8 keymap.mods) 8 mods (bit_and mods 255)

-- A pointer to a key: the address, by which the source compares keys, and the key. The key at
-- index `i` of the keymap's array has the address `i + 4`; 0 is `NULL`, 1 to 3 are the static and
-- local keys of src/state.c.
pub record KeyRef : Type 0 where
  pub address : ℕ
  pub key : Key

-- The key that a pointer into the keymap's array refers to.
unfoldable pub key_at : Keymap → ℕ → Option KeyRef
key_at keymap address = elim (get_elem? keymap.keys (address - 4)) [
  | none ↦ none
  | some key ↦ some (record { address = address; key = key })
]

-- The binary search of `XkbKey` between `lower` and `upper`, with fuel.
unfoldable pub search_key : ℕ → List Key → ℕ → ℕ → ℕ → Option KeyRef
search_key zero keys kc lower upper = none
search_key (suc fuel) keys kc lower upper =
    let mid = lower + (upper - 1 - lower) / 2 in
    let above = search_key fuel keys kc (mid + 1) upper in
    let below = search_key fuel keys kc lower mid in
    if ltb lower upper
    then elim (get_elem? keys mid) [
      | none ↦ none
      | some key ↦
          if ltb key.key_code kc
          then above
          else if ltb kc key.key_code
          then below
          else some (record { address = mid + 4; key = key })
    ]
    else none

-- `XkbKey`. The interval of the search shrinks at every round, so its first length and one more
-- are enough fuel.
unfoldable pub xkb_key : Keymap → ℕ → Option KeyRef
xkb_key keymap kc =
    if ltb kc keymap.min_key_code || ltb keymap.max_key_code kc
    then none
    else if ltb kc keymap.num_keys_low
    then elim (get_elem? keymap.keys kc) [
      | none ↦ none
      | some key ↦ some (record { address = kc + 4; key = key })
    ]
    else search_key (suc (length keymap.keys)) keymap.keys kc keymap.num_keys_low
        (length keymap.keys)

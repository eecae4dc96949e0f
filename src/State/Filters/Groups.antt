-- ===== src/State/Filters/Groups.antt =====
-- The group actions: SetGroup, LatchGroup and LockGroup.
pub mod Tap
use libxkbcommon.Base.{
  ℕ, ◌+◌, ◌*◌, ◌/◌, ◌%◌, Bool, true, false, not, ◌&&◌, ◌||◌, List, [], ◌∷◌, leb, ◌==◌,
  if◌then◌else◌, add32, sub32, has, clear,
}
use libxkbcommon.Keymap.{
  Action, group_set, group_latch, group_lock, lock_clear, latch_to_lock, lock_on_release,
  absolute_switch, KeyRef,
}
use libxkbcommon.State.Types.{
  Direction, up, down, repeated, group_lock_func, Filter, ServerState, FilterResult, pass, consume,
  with_components, free, with_flags, is_type, apply_group_delta, hold_key, sticky_keys,
  latch_simultaneous_keys,
}
use libxkbcommon.State.Actions.{
  key_get_actions, action_breaks_latch, some_breaks_latch, breaks_group_latch,
}

-- `xkb_filter_group_set_new`. The cast of the base group to `uint32_t` keeps the bit pattern.
unfoldable pub group_set_new : ServerState → Filter → FilterResult
group_set_new s f =
    let c = s.components in
    pass (with_components s (record c { base_group = apply_group_delta f c.base_group }))
      (record f { priv = c.base_group })

-- The last release of SetGroup's key.
unfoldable pub group_set_release : ServerState → Filter → FilterResult
group_set_release s f =
    let c = record s.components { base_group = f.priv } in
    pass
      (with_components s
        (if has f.action.flags lock_clear then record c { locked_group = 0 } else c))
      (free f)

-- `xkb_filter_group_set_func`.
unfoldable pub group_set_handler : ServerState → Filter → KeyRef → Direction → FilterResult
group_set_handler s f key direction =
    if not (key.address == f.key)
    then pass s (with_flags f (clear f.action.flags lock_clear))
    else (let (f', held) = hold_key direction f in
        if held then consume s f' else group_set_release s f')

unfoldable pub lock_group : ServerState → Filter → ServerState
lock_group s f =
    let c = s.components in
    with_components s (record c { locked_group = apply_group_delta f c.locked_group })

-- `xkb_filter_group_lock_new`.
unfoldable pub group_lock_new : ServerState → Filter → FilterResult
unfolding lock_group
group_lock_new s f =
    if has f.action.flags lock_on_release then pass s f else pass (lock_group s f) f

abbrev pub is_down : Direction → Bool
is_down down = true
is_down _ = false

abbrev pub is_repeated : Direction → Bool
is_repeated repeated = true
is_repeated _ = false

-- `xkb_filter_group_lock_func`.
unfoldable pub group_lock_handler : ServerState → Filter → KeyRef → Direction → FilterResult
unfolding lock_group
group_lock_handler s f key direction =
    if not (key.address == f.key)
    then pass s (
        if has f.action.flags lock_on_release && is_down direction
        then with_flags f (clear f.action.flags lock_on_release)
        else f)
    else (let (f', held) = hold_key direction f in
        if held
        then consume s f'
        else pass (if has f'.action.flags lock_on_release then lock_group s f' else s) (free f'))

-- `enum xkb_key_latch_state`.
abbrev pub no_latch : ℕ
no_latch = 0

abbrev pub latch_key_down : ℕ
latch_key_down = 1

abbrev pub latch_pending : ℕ
latch_pending = 2

-- `union group_latch_priv`: two low bits of latch state under a signed field of 30 bits.
unfoldable pub pack_latch : ℕ → ℕ → ℕ
pack_latch latch delta = latch % 4 + delta % 1073741824 * 4

unfoldable pub priv_latch : ℕ → ℕ
priv_latch priv = priv % 4

-- The field with its sign extended to an `int32_t`.
unfoldable pub priv_delta : ℕ → ℕ
priv_delta priv =
    let field = priv / 4 % 1073741824 in if leb 536870912 field then field + 3221225472 else field

-- `xkb_filter_group_latch_new`.
unfoldable pub group_latch_new : ServerState → Filter → FilterResult
unfolding pack_latch
group_latch_new s f =
    let c = s.components in
    let delta =
      if has f.action.flags absolute_switch
      then sub32 f.action.group c.base_group
      else f.action.group in
    pass (with_components s (record c { base_group = apply_group_delta f c.base_group }))
      (record f { priv = pack_latch latch_key_down delta })

abbrev pub store_latch : ServerState → Filter → ℕ → FilterResult
store_latch s f latch = pass s (record f { priv = pack_latch latch (priv_delta f.priv) })

unfoldable pub unlatch_group : ServerState → Filter → ServerState
unfolding priv_delta
unlatch_group s f =
    let c = s.components in
    with_components s (record c { latched_group = sub32 c.latched_group (priv_delta f.priv) })

unfoldable pub drop_base_group : ServerState → Filter → ServerState
unfolding priv_delta
drop_base_group s f =
    let c = s.components in
    with_components s (record c { base_group = sub32 c.base_group (priv_delta f.priv) })

-- Whether a pressed action is the same latch, or the SetGroup that sticky keys turn into it.
unfoldable pub same_group_latch : Bool → Filter → Action → Bool
same_group_latch sticky f a =
    is_type a group_latch && (a.group == f.action.group && (a.flags == f.action.flags))
    || is_type a group_set && (sticky && (a.flags == clear f.action.flags latch_to_lock))

-- The pending latch becomes a lock, which the pressed key now holds.
unfoldable pub promote_group_latch : ServerState → Filter → KeyRef → FilterResult
promote_group_latch s f key =
    let r =
      group_lock_new s
        (record f { action = record f.action { type = group_lock }; func = group_lock_func }) in
    consume (unlatch_group r.state f) (record r.filter { key = key.address })

-- The loop over the actions of a key pressed while the latch is pending.
unfoldable pub group_latch_pending : ServerState → Filter → KeyRef → List Action → FilterResult
group_latch_pending s f key [] = store_latch s f latch_pending
group_latch_pending s f key (a ∷ rest) =
    if same_group_latch (has s.components.controls sticky_keys) f a
    then (if has f.action.flags latch_to_lock && not (f.action.group == 0)
        then promote_group_latch s f key
        else group_latch_pending s f key rest)
    else if action_breaks_latch a breaks_group_latch 0
    then pass (unlatch_group s f) (free f)
    else group_latch_pending s f key rest

-- Another key, or the same one again, is pressed.
unfoldable pub group_latch_down : ServerState → Filter → KeyRef → FilterResult
group_latch_down s f key =
    let latch = priv_latch f.priv in
    let actions = key_get_actions s.components key.key in
    if latch == latch_key_down
    then store_latch s f (
        if has s.flags latch_simultaneous_keys
        then (if some_breaks_latch actions breaks_group_latch 0 then no_latch else latch)
        else no_latch)
    else if latch == latch_pending
    then group_latch_pending s f key actions
    else store_latch s f latch

-- The latching key is released.
unfoldable pub group_latch_up : ServerState → Filter → FilterResult
group_latch_up s f =
    let latch = priv_latch f.priv in
    if has f.action.flags lock_clear && not (s.components.locked_group == 0)
    then (let t = if latch == latch_pending then unlatch_group s f else drop_base_group s f in
        store_latch (with_components t (record t.components { locked_group = 0 })) (free f) latch)
    else if latch == no_latch
    then store_latch (drop_base_group s f) (free f) latch
    else if latch == latch_key_down
    then (let t = drop_base_group s f in
        let c = t.components in
        store_latch
          (with_components t
            (record c { latched_group = add32 c.latched_group (priv_delta f.priv) }))
          f latch_pending)
    else store_latch s f latch

-- `xkb_filter_group_latch_func`.
unfoldable pub group_latch_handler : ServerState → Filter → KeyRef → Direction → FilterResult
group_latch_handler s f key down = group_latch_down s f key
group_latch_handler s f key repeated =
    if not (key.address == f.key) then store_latch s f (priv_latch f.priv) else consume s f
group_latch_handler s f key up =
    if not (key.address == f.key) then store_latch s f (priv_latch f.priv) else group_latch_up s f

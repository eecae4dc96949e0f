-- ===== src/State/Filters/Modifiers.antt =====
-- The modifier actions: SetMods, LatchMods and LockMods.
use libxkbcommon.Base.{
  ℕ, Bool, not, ◌&&◌, ◌||◌, List, [], ◌∷◌, ◌==◌, if◌then◌else◌, bit_and, bit_or, has, clear,
}
use libxkbcommon.Keymap.{
  Action, mod_set, mod_latch, mod_lock, lock_clear, latch_to_lock, lock_no_lock, lock_no_unlock,
  unlock_on_press, latch_on_press, KeyRef,
}
use libxkbcommon.State.Types.{
  Direction, up, down, repeated, mod_set_func, mod_lock_func, Filter, ServerState, FilterResult,
  pass, consume, with_components, free, with_flags, is_type, hold_key, sticky_keys,
  latch_simultaneous_keys,
}
use libxkbcommon.State.Actions.{
  key_get_actions, action_breaks_latch, some_breaks_latch, breaks_mod_latch,
}
use libxkbcommon.State.Filters.Groups.{no_latch, latch_key_down, latch_pending}

-- `ACTION_UNLOCK_ON_PRESS | ACTION_LOCK_CLEAR`.
abbrev pub unlock : ℕ
unlock = 2049

abbrev pub lock_mods : ServerState → ℕ → ServerState
lock_mods s mask =
    let c = s.components in with_components s (record c { locked_mods = bit_or c.locked_mods mask })

abbrev pub unlock_mods : ServerState → ℕ → ServerState
unlock_mods s mask =
    let c = s.components in with_components s (record c { locked_mods = clear c.locked_mods mask })

abbrev pub latch_mods : ServerState → ℕ → ServerState
latch_mods s mask =
    let c = s.components in
    with_components s (record c { latched_mods = bit_or c.latched_mods mask })

abbrev pub unlatch_mods : ServerState → ℕ → ServerState
unlatch_mods s mask =
    let c = s.components in
    with_components s (record c { latched_mods = clear c.latched_mods mask })

abbrev pub request_set : ServerState → ℕ → ServerState
request_set s mask = record s { set_mods = bit_or s.set_mods mask }

abbrev pub request_clear : ServerState → ℕ → ServerState
request_clear s mask = record s { clear_mods = bit_or s.clear_mods mask }

-- `xkb_filter_mod_set_new`.
unfoldable pub mod_set_new : ServerState → Filter → FilterResult
mod_set_new s f =
    let mask = f.action.mask in
    if bit_and f.action.flags unlock == unlock
    then (let priv = clear mask s.components.locked_mods in
        pass (request_set (unlock_mods s mask) priv) (record f { priv = priv }))
    else pass (request_set s mask) (record f { priv = mask })

-- `xkb_filter_mod_set_func`.
unfoldable pub mod_set_handler : ServerState → Filter → KeyRef → Direction → FilterResult
mod_set_handler s f key direction =
    if not (key.address == f.key)
    then pass s (with_flags f (clear f.action.flags lock_clear))
    else (let (f', held) = hold_key direction f in
        if held
        then consume s f'
        else (let t = request_clear s f'.priv in
            pass
              (if bit_and f'.action.flags unlock == lock_clear
                then unlock_mods t f'.action.mask
                else t)
              (free f')))

-- `xkb_filter_mod_lock_new`.
unfoldable pub mod_lock_new : ServerState → Filter → FilterResult
mod_lock_new s f =
    let mask = f.action.mask in
    let priv = bit_and s.components.locked_mods mask in
    let f' = record f { priv = priv } in
    if not (priv == 0) && has f.action.flags unlock_on_press
    then pass (if has f.action.flags lock_no_unlock then s else unlock_mods s priv) (free f')
    else (let t = request_set s mask in
        pass (if has f.action.flags lock_no_lock then t else lock_mods t mask) f')

-- `xkb_filter_mod_lock_func`.
unfoldable pub mod_lock_handler : ServerState → Filter → KeyRef → Direction → FilterResult
mod_lock_handler s f key direction =
    if not (key.address == f.key)
    then pass s f
    else (let (f', held) = hold_key direction f in
        if held
        then consume s f'
        else (let t = request_clear s f'.action.mask in
            pass (if has f'.action.flags lock_no_unlock then t else unlock_mods t f'.priv)
              (free f')))

-- `ACTION_UNLOCK_ON_PRESS | ACTION_LATCH_ON_PRESS`.
abbrev pub unlock_or_latch_on_press : ℕ
unlock_or_latch_on_press = 6144

abbrev pub all_locked : ServerState → ℕ → Bool
all_locked s mask = bit_and s.components.locked_mods mask == mask

-- `xkb_filter_mod_latch_new`.
unfoldable pub mod_latch_new : ServerState → Filter → FilterResult
mod_latch_new s f =
    let mask = f.action.mask in
    let flags = f.action.flags in
    if has flags lock_clear && (has flags unlock_or_latch_on_press && all_locked s mask)
    then pass (unlock_mods s mask) (free f)
    else if has flags latch_on_press
    then pass (latch_mods s mask) (record f { priv = latch_pending })
    else pass (request_set s mask) (record f { priv = latch_key_down })

abbrev pub store_mod_latch : ServerState → Filter → ℕ → FilterResult
store_mod_latch s f latch = pass s (record f { priv = latch })

-- Whether a pressed action is the same latch, or the SetMods that sticky keys turn into it.
unfoldable pub same_mod_latch : Bool → Filter → Action → Bool
same_mod_latch sticky f a =
    (is_type a mod_latch && (a.flags == f.action.flags)
      || is_type a mod_set && (sticky && (a.flags == clear f.action.flags latch_to_lock)))
    && (a.mask == f.action.mask)

-- The pending latch becomes a lock or a plain set, which the pressed key now holds.
unfoldable pub promote_mod_latch : ServerState → Filter → KeyRef → FilterResult
promote_mod_latch s f key =
    let r =
      if has f.action.flags latch_to_lock
      then mod_lock_new s
          (record f { action = record f.action { type = mod_lock }; func = mod_lock_func })
      else mod_set_new s
          (record f { action = record f.action { type = mod_set }; func = mod_set_func }) in
    consume (unlatch_mods r.state f.action.mask) (record r.filter { key = key.address })

-- The loop over the actions of a key pressed while the latch is pending.
unfoldable pub mod_latch_pending : ServerState → Filter → KeyRef → List Action → FilterResult
mod_latch_pending s f key [] = store_mod_latch s f latch_pending
mod_latch_pending s f key (a ∷ rest) =
    if same_mod_latch (has s.components.controls sticky_keys) f a
    then promote_mod_latch s f key
    else if action_breaks_latch a breaks_mod_latch f.action.mask
    then pass (unlatch_mods s f.action.mask) (free f)
    else mod_latch_pending s f key rest

unfoldable pub mod_latch_down : ServerState → Filter → KeyRef → FilterResult
mod_latch_down s f key =
    let latch = f.priv in
    let actions = key_get_actions s.components key.key in
    if latch == latch_key_down
    then store_mod_latch s f (
        if has s.flags latch_simultaneous_keys
        then (if some_breaks_latch actions breaks_mod_latch f.action.mask then no_latch else latch)
        else no_latch)
    else if latch == latch_pending
    then mod_latch_pending s f key actions
    else store_mod_latch s f latch

unfoldable pub mod_latch_up : ServerState → Filter → FilterResult
mod_latch_up s f =
    let latch = f.priv in
    let mask = f.action.mask in
    let flags = f.action.flags in
    if has flags lock_clear && (not (has flags unlock_or_latch_on_press) && all_locked s mask)
    then store_mod_latch
        (unlock_mods (if latch == latch_pending then unlatch_mods s mask else request_clear s mask)
          mask)
        (free f) latch
    else if latch == no_latch
    then store_mod_latch (request_clear s mask) (free f) latch
    else if not (has flags latch_on_press)
    then store_mod_latch (latch_mods (request_clear s mask) mask) f latch_pending
    else store_mod_latch s f latch

-- `xkb_filter_mod_latch_func`.
unfoldable pub mod_latch_handler : ServerState → Filter → KeyRef → Direction → FilterResult
mod_latch_handler s f key down = mod_latch_down s f key
mod_latch_handler s f key repeated =
    if not (key.address == f.key) then store_mod_latch s f f.priv else consume s f
mod_latch_handler s f key up =
    if not (key.address == f.key) then store_mod_latch s f f.priv else mod_latch_up s f

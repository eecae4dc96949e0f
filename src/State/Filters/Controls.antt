-- ===== src/State/Filters/Controls.antt =====
-- The control actions, SetControls and LockControls, and RedirectKey, which only queues events.
use libxkbcommon.Base.{
  ℕ, Bool, true, false, not, ◌&&◌, ◌||◌, Option, none, some, List, [], ◌∷◌, ◌++◌, ◌==◌,
  if◌then◌else◌, bit_and, bit_or, has, clear,
}
use mathlib.Core.List.{reverse}
use libxkbcommon.Keymap.{
  Action, ctrl_set, redirect_key, lock_no_lock, lock_no_unlock, keycode_invalid, KeyRef,
}
use libxkbcommon.State.Types.{
  Components, component_changes, Direction, up, down, repeated, Filter, Event, key_event,
  components_change, ServerState, FilterResult, pass, consume, with_components, free, is_type,
  hold_key, sticky_keys,
}
use libxkbcommon.State.Actions.{key_get_actions}

abbrev pub with_controls : ServerState → ℕ → ServerState
with_controls s controls = with_components s (record s.components { controls = controls })

-- `xkb_filter_ctrls_new`.
unfoldable pub ctrls_new : ServerState → Filter → FilterResult
ctrls_new s f =
    let controls = s.components.controls in
    let ctrls = f.action.ctrls in
    let is_set = is_type f.action ctrl_set in
    pass
      (if is_set || not (has f.action.flags lock_no_lock)
        then with_controls s (bit_or controls ctrls)
        else s)
      (record f { priv = if is_set then clear ctrls controls else bit_and controls ctrls })

-- `xkb_filter_ctrls_func`. `clear_all` is `clear_all_latches_and_locks`, which is defined further
-- down in the source and calls the handlers again.
unfoldable pub ctrls_handler :
    (ServerState → ServerState) → ServerState → Filter → KeyRef → Direction → FilterResult
ctrls_handler clear_all s f key direction =
    if not (key.address == f.key)
    then pass s f
    else (let (f', held) = hold_key direction f in
        if held
        then consume s f'
        else if is_type f'.action ctrl_set || not (has f'.action.flags lock_no_unlock)
        then (let old = s.components.controls in
            let t = with_controls s (clear old f'.priv) in
            pass
              (if has old sticky_keys && not (has t.components.controls sticky_keys)
                then clear_all t
                else t)
              (free f'))
        else pass s (free f'))

-- The last state update in the queue, if any: the scan from the end of
-- `append_redirect_key_events`.
unfoldable pub last_update : List Event → Option Components
last_update [] = none
last_update (components_change c changed ∷ rest) = some c
last_update (key_event d kc ∷ rest) = last_update rest

abbrev pub overlay_bits : ℕ → ℕ → ℕ → ℕ
overlay_bits old mask new = bit_or (clear old mask) new

-- `append_redirect_key_events`, on the queue.
unfoldable pub redirect_events : Components → List Event → Action → Direction → List Event
redirect_events current queue a direction =
    let mask = a.affect in
    let mods = a.redirect_mods in
    let last : Components = elim (last_update (reverse queue)) [ none ↦ current | some c ↦ c ] in
    let new = record last {
      base_mods = overlay_bits last.base_mods mask mods;
      latched_mods = overlay_bits last.latched_mods mask mods;
      locked_mods = overlay_bits last.locked_mods mask mods;
      mods = overlay_bits last.mods mask mods;
    } in
    let changed = component_changes last new in
    if not (mask == 0) && not (changed == 0)
    then queue
      ++ (components_change new changed
          ∷ key_event direction a.keycode
          ∷ components_change last changed
          ∷ [])
    else queue ++ (key_event direction a.keycode ∷ [])

-- Only reached with a queue: without one the filter is freed as soon as it is made.
abbrev pub append_redirect_key_events : ServerState → Action → Direction → ServerState
append_redirect_key_events s a direction = record s {
  events = elim s.events [
    | none ↦ none
    | some queue ↦ some (redirect_events s.components queue a direction)
  ];
}

abbrev pub has_queue : Option (List Event) → Bool
has_queue none = false
has_queue (some queue) = true

-- `xkb_filter_redirect_key_new`.
unfoldable pub redirect_key_new : ServerState → Filter → FilterResult
redirect_key_new s f =
    if not (has_queue s.events) || (f.action.keycode == keycode_invalid)
    then pass s (free f)
    else pass (append_redirect_key_events s f.action down) f

-- Whether an action of the pressed key redirects to another key.
unfoldable pub redirects_elsewhere : List Action → ℕ → Bool
redirects_elsewhere [] keycode = false
redirects_elsewhere (a ∷ rest) keycode =
    if is_type a redirect_key && not (a.keycode == keycode)
    then true
    else redirects_elsewhere rest keycode

-- The filter's own key.
unfoldable pub redirect_own_key : ServerState → Filter → KeyRef → Direction → FilterResult
redirect_own_key s f key up = consume (append_redirect_key_events s f.action up) (free f)
redirect_own_key s f key down =
    if redirects_elsewhere (key_get_actions s.components key.key) f.action.keycode
    then pass (append_redirect_key_events s f.action up) (free f)
    else consume (append_redirect_key_events s f.action down) f
redirect_own_key s f key repeated = consume (append_redirect_key_events s f.action repeated) f

-- `xkb_filter_redirect_key_func`.
unfoldable pub redirect_key_handler : ServerState → Filter → KeyRef → Direction → FilterResult
unfolding redirect_own_key
redirect_key_handler s f key direction =
    if not (key.address == f.key) then pass s f else redirect_own_key s f key direction

-- ===== src/State/Apply.antt =====
-- Running the filters on a key event and starting new ones (`xkb_filter_apply_all`).
use libxkbcommon.Base.{
  ℕ, zero, suc, ◌+◌, ◌*◌, Bool, true, false, ◌||◌, none, some, List, [], ◌∷◌, ◌++◌, if◌then◌else◌,
  length, get_elem?, set, bit_or, has,
}
use libxkbcommon.Keymap.{
  Action, ActionType, none_action, mod_set, mod_latch, mod_lock, group_set, group_latch, group_lock,
  ctrl_set, ctrl_lock, redirect_key, latch_to_lock, action_of, Keymap, KeyRef,
  mod_mask_get_effective,
}
use libxkbcommon.State.Types.{
  Direction, up, FilterFunc, no_func, mod_set_func, mod_latch_func, mod_lock_func, group_set_func,
  group_latch_func, group_lock_func, ctrls_func, redirect_key_func, Filter, ServerState,
  FilterResult, pass, is_type, sticky_keys, sticky_keys_latch_to_lock,
}
use libxkbcommon.State.Actions.{key_get_actions}
use libxkbcommon.State.Filters.Groups.{
  group_set_new, group_set_handler, group_lock_new, group_lock_handler, group_latch_new,
  group_latch_handler,
}
use libxkbcommon.State.Filters.Modifiers.{
  mod_set_new, mod_set_handler, mod_lock_new, mod_lock_handler, mod_latch_new, mod_latch_handler,
}
use libxkbcommon.State.Filters.Controls.{
  ctrls_new, ctrls_handler, redirect_key_new, redirect_key_handler,
}

abbrev pub is_free : FilterFunc → Bool
is_free no_func = true
is_free _ = false

-- A slot zeroed by `darray_resize0`.
abbrev pub empty_filter : Filter
empty_filter = record {
  action = action_of none_action;
  key = 0;
  func = no_func;
  priv = 0;
  refcnt = 0;
}

-- The index of the first free slot, or the length of the array.
unfoldable pub free_slot : List Filter → ℕ
free_slot [] = 0
free_slot (f ∷ rest) = if is_free f.func then 0 else suc (free_slot rest)

-- `xkb_filter_new`: the state with the slot made, its index, and the filter to fill in. A slot
-- that is taken again keeps the old fields.
unfoldable pub filter_new : ServerState → ServerState × ℕ × Filter
filter_new s =
    let i = free_slot s.filters in
    elim (get_elem? s.filters i) [
      | some f ↦ (s, i, record f { refcnt = 1 })
      | none ↦ (
        record s { filters = s.filters ++ (empty_filter ∷ []) },
        i,
        record empty_filter { refcnt = 1 },
      )
    ]

abbrev pub put_filter : ServerState → ℕ → Filter → ServerState
put_filter s i f = record s { filters = set s.filters i f }

-- The handler of `filter_action_funcs` for a type; `no_func` where there is none.
abbrev pub handler_of : ActionType → FilterFunc
handler_of mod_set = mod_set_func
handler_of mod_latch = mod_latch_func
handler_of mod_lock = mod_lock_func
handler_of group_set = group_set_func
handler_of group_latch = group_latch_func
handler_of group_lock = group_lock_func
handler_of ctrl_set = ctrls_func
handler_of ctrl_lock = ctrls_func
handler_of redirect_key = redirect_key_func
handler_of _ = no_func

-- The other column of `filter_action_funcs`.
unfoldable pub start_filter : ActionType → ServerState → Filter → FilterResult
start_filter mod_set s f = mod_set_new s f
start_filter mod_latch s f = mod_latch_new s f
start_filter mod_lock s f = mod_lock_new s f
start_filter group_set s f = group_set_new s f
start_filter group_latch s f = group_latch_new s f
start_filter group_lock s f = group_lock_new s f
start_filter ctrl_set s f = ctrls_new s f
start_filter ctrl_lock s f = ctrls_new s f
start_filter redirect_key s f = redirect_key_new s f
start_filter _ s f = pass s f

-- The call `filter->func(state, events, filter, key, direction)`, by the handler pointed to.
unfoldable pub call_handler :
    FilterFunc
    → (ServerState → ServerState)
    → ServerState
    → Filter
    → KeyRef
    → Direction
    → FilterResult
call_handler mod_set_func clear_all s f key d = mod_set_handler s f key d
call_handler mod_latch_func clear_all s f key d = mod_latch_handler s f key d
call_handler mod_lock_func clear_all s f key d = mod_lock_handler s f key d
call_handler group_set_func clear_all s f key d = group_set_handler s f key d
call_handler group_latch_func clear_all s f key d = group_latch_handler s f key d
call_handler group_lock_func clear_all s f key d = group_lock_handler s f key d
call_handler ctrls_func clear_all s f key d = ctrls_handler clear_all s f key d
call_handler redirect_key_func clear_all s f key d = redirect_key_handler s f key d
call_handler no_func clear_all s f key d = pass s f

abbrev pub is_up : Direction → Bool
is_up up = true
is_up _ = false

-- With sticky keys a set action starts as a latch.
unfoldable pub stick : ServerState → Action → Action
stick s a =
    if has s.components.controls sticky_keys
    then (let flags =
          if has s.flags sticky_keys_latch_to_lock then bit_or a.flags latch_to_lock else a.flags in
        if is_type a mod_set
        then record a { type = mod_latch; flags = flags }
        else if is_type a group_set
        then record a { type = group_latch; flags = flags }
        else a)
    else a

module _ (keymap : Keymap) where
  unfoldable pub resolve_redirect : Action → Action
  resolve_redirect a =
      if is_type a redirect_key
      then record a {
        affect = mod_mask_get_effective keymap a.affect;
        redirect_mods = mod_mask_get_effective keymap a.redirect_mods;
      }
      else a

  -- One round of the loop over the actions of the key: a new filter for the action.
  unfoldable pub start_action : ServerState → KeyRef → Action → ServerState
  start_action s key a =
      if is_free (handler_of a.type)
      then s
      else (let (t, i, f) = filter_new s in
          let b = resolve_redirect (stick s a) in
          let r =
            start_filter b.type t
              (record f { key = key.address; action = b; func = handler_of b.type }) in
          put_filter r.state i r.filter)

  unfoldable pub start_actions : ServerState → KeyRef → List Action → ServerState
  start_actions s key [] = s
  start_actions s key (a ∷ rest) = start_actions (start_action s key a) key rest

  -- The loop over the filters from index `i` on; the flag is `consumed`. Filters that a handler
  -- appends are visited too, hence the fuel.
  unfoldable pub run_filters :
      (ServerState → ServerState)
      → ℕ
      → ServerState
      → ℕ
      → Bool
      → KeyRef
      → Direction
      → ServerState × Bool
  run_filters clear_all zero s i consumed key d = (s, consumed)
  run_filters clear_all (suc fuel) s i consumed key d = elim (get_elem? s.filters i) [
    | none ↦ (s, consumed)
    | some f ↦
        if is_free f.func
        then run_filters clear_all fuel s (i + 1) consumed key d
        else (let r = call_handler f.func clear_all s f key d in
            run_filters clear_all fuel (put_filter r.state i r.filter) (i + 1)
              (consumed || r.consumed) key d)
  ]

  -- `xkb_filter_apply_all`.
  unfoldable pub apply_all :
      (ServerState → ServerState) → ServerState → KeyRef → Direction → ServerState
  apply_all clear_all s key d =
      let (t, consumed) = run_filters clear_all (suc (3 * length s.filters)) s 0 false key d in
      if consumed || is_up d then t else start_actions t key (key_get_actions t.components key.key)

-- ===== src/State/Frame/Events.antt =====
-- Whole key events keep the base modifiers, the counts and the bounds on masks.
use libxkbcommon.Base.{
  ℕ, zero, suc, ◌+◌, ◌*◌, ◌<◌, length, ◌≡◌, refl, arith, Bool, false, ◌||◌, Bool-cases,
  Option-cases, inl, inr, List, [], ◌∷◌, get_elem?,
}
use libxkbcommon.Keymap.{
  Action, ActionType, mod_set, mod_latch, mod_lock, group_set, group_latch, group_lock, ctrl_set,
  ctrl_lock, redirect_key, Key, KeyRef, Keymap,
}
use libxkbcommon.State.Types.{
  Components, Direction, FilterFunc, no_func, mod_set_func, mod_latch_func, mod_lock_func,
  group_set_func, group_latch_func, group_lock_func, ctrls_func, redirect_key_func, Filter,
  ServerState, FilterResult,
}
use libxkbcommon.State.Actions.{key_get_actions}
use libxkbcommon.State.Apply.{
  free_slot, filter_new, put_filter, handler_of, start_filter, call_handler, stick,
  resolve_redirect, start_action, start_actions, run_filters, apply_all, is_free, is_up,
}
use libxkbcommon.State.Frame.{
  Keeps-trans, IsSafe, AllSafe-get_elem?, AllSafe-set, AllSafe-append, IsSound, IsFrame, IsFramed,
}
use libxkbcommon.State.Frame.Handlers.{
  mod_set_new-IsFramed, mod_lock_new-IsFramed, mod_latch_new-IsFramed, group_set_new-IsFramed,
  group_lock_new-IsFramed, group_latch_new-IsFramed, mod_set_handler-IsFramed,
  mod_lock_handler-IsFramed, group_set_handler-IsFramed, group_lock_handler-IsFramed,
  mod_latch_handler-IsFramed, group_latch_handler-IsFramed, ctrls_new-IsFramed,
  redirect_key_new-IsFramed, redirect_key_handler-IsFramed, ctrls_handler-IsFramed,
}

pub call_handler-IsFramed :
    (fn : FilterFunc) (clear_all : ServerState → ServerState) (s : ServerState) (f : Filter)
    (key : KeyRef) (d : Direction)
    → IsSound s
    → IsSafe f
    → ((t : ServerState) → IsSound t → IsFrame t (clear_all t))
    → f.func ≡ fn
    → IsFramed s (call_handler fn clear_all s f key d)
unfolding call_handler
call_handler-IsFramed mod_set_func c s f key d a b h e = mod_set_handler-IsFramed s f key d a b e
call_handler-IsFramed mod_latch_func c s f key d a b h e =
    mod_latch_handler-IsFramed s f key a b d e
call_handler-IsFramed mod_lock_func c s f key d a b h e = mod_lock_handler-IsFramed s f key d a b
call_handler-IsFramed group_set_func c s f key d a b h e = group_set_handler-IsFramed s f key d a b
call_handler-IsFramed group_latch_func c s f key d a b h e =
    group_latch_handler-IsFramed s f key a b d e
call_handler-IsFramed group_lock_func c s f key d a b h e =
    group_lock_handler-IsFramed s f key d a b
call_handler-IsFramed ctrls_func c s f key d a b h e = ctrls_handler-IsFramed s f key a b c d h
call_handler-IsFramed redirect_key_func c s f key d a b h e =
    redirect_key_handler-IsFramed s f key a b d e
call_handler-IsFramed no_func c s f key d a b h e = ground arith

pub IsFramed-put :
    {s : ServerState} {r : FilterResult} (i : ℕ)
    → IsFramed s r
    → IsFrame s (put_filter r.state i r.filter)
IsFramed-put {r} i h = record {
  keeps = ground arith;
  sound = record {
    base_word = h.base_word;
    latched_word = h.latched_word;
    locked_word = h.locked_word;
    set_word = h.set_word;
    clear_word = h.clear_word;
    filters = AllSafe-set r.state.filters i r.filter h.filters h.safe;
  };
}

pub IsFrame-trans : {s t u : ServerState} → IsFrame s t → IsFrame t u → IsFrame s u
IsFrame-trans a b = record { keeps = Keeps-trans a.keeps b.keeps; sound = b.sound }

pub IsFrame-refl : {s : ServerState} → IsSound s → IsFrame s s
IsFrame-refl a = record { keeps = ground arith; sound = a }

module _ (keymap : Keymap) (clear_all : ServerState → ServerState)
    (h : (t : ServerState) → IsSound t → IsFrame t (clear_all t)) where
  pub run_filters-IsFrame :
      (fuel : ℕ) (s : ServerState) (i : ℕ) (consumed : Bool) (key : KeyRef) (d : Direction)
      → IsSound s
      → IsFrame s (run_filters keymap clear_all fuel s i consumed key d).0
  unfolding run_filters
  run_filters-IsFrame zero s i consumed key d a = IsFrame-refl a
  run_filters-IsFrame (suc fuel) s i consumed key d a =
      elim (Option-cases (get_elem? s.filters i)) [
        | inl e ↦ rw (e, run_filters) (IsFrame-refl a)
        | inr (f, e) ↦
            rw (e, run_filters)
              (elim (Bool-cases (is_free f.func)) [
                | inl skip ↦ rw skip (run_filters-IsFrame fuel s (i + 1) consumed key d a)
                | inr call ↦
                    let r = call_handler f.func clear_all s f key d in
                    let step = IsFramed-put i (
                      call_handler-IsFramed f.func clear_all s f key d a
                        (AllSafe-get_elem? s.filters i a.filters e) h refl) in
                    rw call (
                      IsFrame-trans step (
                        run_filters-IsFrame fuel (put_filter r.state i r.filter) (i + 1)
                          (consumed || r.consumed) key d step.sound))
              ])
      ]

-- The actions of a key have masks of 32 bits, whatever the state.
abbrev pub WordMasks : List Action → Type 0
WordMasks [] = Unit
WordMasks (a ∷ rest) = (a.mask < 4294967296) × WordMasks rest

abbrev pub HasWordMasks : Key → Type 0
HasWordMasks key = (c : Components) → WordMasks (key_get_actions c key)

pub start_filter-IsFramed :
    (t : ActionType) (s : ServerState) (f : Filter)
    → IsSound s
    → f.action.mask < 4294967296
    → f.func ≡ handler_of t
    → IsFramed s (start_filter t s f)
unfolding start_filter
start_filter-IsFramed mod_set s f a b e = mod_set_new-IsFramed s f a b
start_filter-IsFramed mod_latch s f a b e = mod_latch_new-IsFramed s f a b e
start_filter-IsFramed mod_lock s f a b e = mod_lock_new-IsFramed s f a b e
start_filter-IsFramed group_set s f a b e = group_set_new-IsFramed s f a b e
start_filter-IsFramed group_latch s f a b e = group_latch_new-IsFramed s f a b e
start_filter-IsFramed group_lock s f a b e = group_lock_new-IsFramed s f a b e
start_filter-IsFramed ctrl_set s f a b e = ctrls_new-IsFramed s f a b e
start_filter-IsFramed ctrl_lock s f a b e = ctrls_new-IsFramed s f a b e
start_filter-IsFramed redirect_key s f a b e = redirect_key_new-IsFramed s f a b e
start_filter-IsFramed _ s f a b e = ground arith

pub filter_new-IsFrame : (s : ServerState) → IsSound s → IsFrame s (filter_new s).0
unfolding filter_new
filter_new-IsFrame s a = elim (Option-cases (get_elem? s.filters (free_slot s.filters))) [
  | inl e ↦
      rw (e, filter_new)
        (record {
          keeps = ground arith;
          sound = record {
            base_word = a.base_word;
            latched_word = a.latched_word;
            locked_word = a.locked_word;
            set_word = a.set_word;
            clear_word = a.clear_word;
            filters = AllSafe-append s.filters _ a.filters (ground arith);
          };
        })
  | inr (f, e) ↦ rw (e, filter_new) (IsFrame-refl a)
]

module _ (keymap : Keymap) where
  started_mask :
      (s : ServerState) (a : Action) → (resolve_redirect keymap (stick s a)).mask ≡ a.mask
  unfolding resolve_redirect stick
  started_mask s a = ground arith

  pub start_action-IsFrame :
      (s : ServerState) (key : KeyRef) (a : Action)
      → IsSound s
      → a.mask < 4294967296
      → IsFrame s (start_action keymap s key a)
  unfolding start_action
  start_action-IsFrame s key a sound word = elim (Bool-cases (is_free (handler_of a.type))) [
    | inl skip ↦ rw skip (IsFrame-refl sound)
    | inr start ↦
        let b = resolve_redirect keymap (stick s a) in
        let made = filter_new-IsFrame s sound in
        let f = record (filter_new s).2 {
          key = key.address;
          action = b;
          func = handler_of b.type;
        } in
        let word' : b.mask < 4294967296 = omega (arith, started_mask s a) in
        rw start (
          IsFrame-trans made (
            IsFramed-put (filter_new s).1
              (start_filter-IsFramed b.type (filter_new s).0 f made.sound word' refl)))
  ]

  pub start_actions-IsFrame :
      (s : ServerState) (key : KeyRef) (l : List Action)
      → IsSound s
      → WordMasks l
      → IsFrame s (start_actions keymap s key l)
  unfolding start_actions
  start_actions-IsFrame s key [] a w = IsFrame-refl a
  start_actions-IsFrame s key (x ∷ l) a w =
      let first = start_action-IsFrame s key x a w.0 in
      IsFrame-trans first
        (start_actions-IsFrame (start_action keymap s key x) key l first.sound w.1)

  pub apply_all-IsFrame :
      (clear_all : ServerState → ServerState)
      → ((t : ServerState) → IsSound t → IsFrame t (clear_all t))
      → (s : ServerState) (key : KeyRef) (d : Direction) → IsSound s
      → HasWordMasks key.key
      → IsFrame s (apply_all keymap clear_all s key d)
  unfolding apply_all
  apply_all-IsFrame clear_all h s key d a w =
      let run = run_filters keymap clear_all (suc (3 * length s.filters)) s 0 false key d in
      let ran =
        run_filters-IsFrame keymap clear_all h (suc (3 * length s.filters)) s 0 false key d a in
      elim (Bool-cases (run.1 || is_up d)) [
        | inl stop ↦ rw stop ran
        | inr go_on ↦
            rw go_on
              (IsFrame-trans ran (start_actions-IsFrame run.0 key _ ran.sound (w run.0.components)))
      ]

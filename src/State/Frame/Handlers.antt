-- ===== src/State/Frame/Handlers.antt =====
-- Every handler keeps the base modifiers, the counts and the bounds on masks.
use libxkbcommon.Base.{
  ◌<◌, ◌≡◌, arith, bit_or-lt, bit_and-lt_right, clear-lt, clear, bit_and, Bool-cases, inl, inr, has,
  not, ◌&&◌, ◌==◌,
}
use libxkbcommon.Keymap.{KeyRef, Action, latch_to_lock}
use mathlib.Core.List.{List, [], ◌∷◌}
use libxkbcommon.State.Types.{
  Direction, up, down, repeated, mod_set_func, mod_lock_func, group_set_func, group_latch_func,
  group_lock_func, mod_latch_func, ctrls_func, redirect_key_func, Filter, ServerState, hold_key,
  pass, free, sticky_keys,
}
use libxkbcommon.State.Frame.{IsSafe, IsFramed, IsSound, IsFrame}
use libxkbcommon.State.Filters.Modifiers.{
  mod_set_new, mod_set_handler, mod_lock_new, mod_lock_handler, mod_latch_new, mod_latch_handler,
  mod_latch_pending, promote_mod_latch, mod_latch_down, mod_latch_up,
}
use libxkbcommon.State.Actions.{key_get_actions, action_breaks_latch, breaks_group_latch}
use libxkbcommon.State.Filters.Controls.{
  ctrls_new, ctrls_handler, redirect_key_new, redirect_key_handler, with_controls,
}
use libxkbcommon.State.Filters.Groups.{
  same_group_latch, group_latch_down, promote_group_latch, group_set_new, group_set_handler,
  group_set_release, group_lock_new, group_lock_handler, group_latch_new, group_latch_handler,
  group_latch_pending, group_latch_up, unlatch_group, drop_base_group, lock_group,
}

module _ (s : ServerState) (f : Filter) (sound : IsSound s)
    (word : f.action.mask < 4294967296) where
  pub mod_set_new-IsFramed : IsFramed s (mod_set_new s f)
  unfolding mod_set_new
  mod_set_new-IsFramed = ground (
    arith,
    bit_or-lt 32 s.set_mods f.action.mask,
    bit_or-lt 32 s.set_mods (clear f.action.mask s.components.locked_mods),
    clear-lt f.action.mask s.components.locked_mods,
    clear-lt s.components.locked_mods f.action.mask,
  )

  pub mod_lock_new-IsFramed : f.func ≡ mod_lock_func → IsFramed s (mod_lock_new s f)
  unfolding mod_lock_new
  mod_lock_new-IsFramed e = ground (
    arith,
    bit_or-lt 32 s.set_mods f.action.mask,
    bit_and-lt_right 32 s.components.locked_mods f.action.mask,
    clear-lt s.components.locked_mods (bit_and s.components.locked_mods f.action.mask),
    bit_or-lt 32 s.components.locked_mods f.action.mask,
  )

  pub mod_latch_new-IsFramed : f.func ≡ mod_latch_func → IsFramed s (mod_latch_new s f)
  unfolding mod_latch_new
  mod_latch_new-IsFramed e = ground (
    arith,
    bit_or-lt 32 s.set_mods f.action.mask,
    clear-lt s.components.locked_mods f.action.mask,
    bit_or-lt 32 s.components.latched_mods f.action.mask,
  )

  pub group_set_new-IsFramed : f.func ≡ group_set_func → IsFramed s (group_set_new s f)
  unfolding group_set_new
  group_set_new-IsFramed e = ground arith

  pub group_lock_new-IsFramed : f.func ≡ group_lock_func → IsFramed s (group_lock_new s f)
  unfolding group_lock_new
  group_lock_new-IsFramed e = ground arith

  pub group_latch_new-IsFramed : f.func ≡ group_latch_func → IsFramed s (group_latch_new s f)
  unfolding group_latch_new
  group_latch_new-IsFramed e = ground arith

  pub ctrls_new-IsFramed : f.func ≡ ctrls_func → IsFramed s (ctrls_new s f)
  unfolding ctrls_new
  ctrls_new-IsFramed e = ground arith

  pub redirect_key_new-IsFramed : f.func ≡ redirect_key_func → IsFramed s (redirect_key_new s f)
  unfolding redirect_key_new
  redirect_key_new-IsFramed e = ground arith

module _ (s : ServerState) (f : Filter) (key : KeyRef) (d : Direction) (sound : IsSound s)
    (safe : IsSafe f) where
  pub mod_set_handler-IsFramed : f.func ≡ mod_set_func → IsFramed s (mod_set_handler s f key d)
  unfolding mod_set_handler hold_key
  mod_set_handler-IsFramed e =
      ground
        (arith, bit_or-lt 32 s.clear_mods f.priv, clear-lt s.components.locked_mods f.action.mask)

  pub mod_lock_handler-IsFramed : IsFramed s (mod_lock_handler s f key d)
  unfolding mod_lock_handler hold_key
  mod_lock_handler-IsFramed =
      ground
        (arith, bit_or-lt 32 s.clear_mods f.action.mask, clear-lt s.components.locked_mods f.priv)

  pub group_set_handler-IsFramed : IsFramed s (group_set_handler s f key d)
  unfolding group_set_handler group_set_release hold_key
  group_set_handler-IsFramed = ground arith

  pub group_lock_handler-IsFramed : IsFramed s (group_lock_handler s f key d)
  unfolding group_lock_handler hold_key
  group_lock_handler-IsFramed = ground arith

module _ (s : ServerState) (f : Filter) (key : KeyRef) (sound : IsSound s) (safe : IsSafe f) where
  promote_mod_latch-IsFramed : IsFramed s (promote_mod_latch s f key)
  unfolding promote_mod_latch mod_set_new mod_lock_new
  promote_mod_latch-IsFramed = ground (
    arith,
    bit_or-lt 32 s.set_mods f.action.mask,
    bit_or-lt 32 s.set_mods (clear f.action.mask s.components.locked_mods),
    clear-lt f.action.mask s.components.locked_mods,
    bit_and-lt_right 32 s.components.locked_mods f.action.mask,
    clear-lt s.components.locked_mods f.action.mask,
    clear-lt s.components.locked_mods (bit_and s.components.locked_mods f.action.mask),
    bit_or-lt 32 s.components.locked_mods f.action.mask,
    clear-lt s.components.latched_mods f.action.mask,
  )

  mod_latch_pending-IsFramed :
      (l : List Action) → f.func ≡ mod_latch_func → IsFramed s (mod_latch_pending s f key l)
  unfolding mod_latch_pending
  mod_latch_pending-IsFramed [] e = ground arith
  mod_latch_pending-IsFramed (a ∷ l) e = ground (
    arith,
    promote_mod_latch-IsFramed,
    mod_latch_pending-IsFramed l e,
    clear-lt s.components.latched_mods f.action.mask,
  )

  mod_latch_down-IsFramed : f.func ≡ mod_latch_func → IsFramed s (mod_latch_down s f key)
  unfolding mod_latch_down
  mod_latch_down-IsFramed e =
      ground (arith, mod_latch_pending-IsFramed (key_get_actions s.components key.key) e)

  mod_latch_up-IsFramed : f.func ≡ mod_latch_func → IsFramed s (mod_latch_up s f)
  unfolding mod_latch_up
  mod_latch_up-IsFramed e = ground (
    arith,
    bit_or-lt 32 s.clear_mods f.action.mask,
    clear-lt s.components.locked_mods f.action.mask,
    clear-lt s.components.latched_mods f.action.mask,
    bit_or-lt 32 s.components.latched_mods f.action.mask,
  )

  pub mod_latch_handler-IsFramed :
      (d : Direction) → f.func ≡ mod_latch_func → IsFramed s (mod_latch_handler s f key d)
  unfolding mod_latch_handler
  mod_latch_handler-IsFramed up e = ground (arith, mod_latch_up-IsFramed e)
  mod_latch_handler-IsFramed down e = mod_latch_down-IsFramed e
  mod_latch_handler-IsFramed repeated e = ground arith

  promote_group_latch-IsFramed : IsFramed s (promote_group_latch s f key)
  unfolding promote_group_latch group_lock_new lock_group unlatch_group
  promote_group_latch-IsFramed = ground arith

  unlatched-IsFramed : IsFramed s (pass (unlatch_group s f) (free f))
  unfolding unlatch_group
  unlatched-IsFramed = ground arith

  group_latch_pending-step :
      (a : Action) (l : List Action)
      → IsFramed s (group_latch_pending s f key l)
      → IsFramed s (group_latch_pending s f key (a ∷ l))
  unfolding group_latch_pending
  group_latch_pending-step a l ih =
      elim (Bool-cases (same_group_latch (has s.components.controls sticky_keys) f a)) [
        | inl same ↦
            rw same
              (elim (Bool-cases (has f.action.flags latch_to_lock && not (f.action.group == 0))) [
                | inl lock ↦ rw lock promote_group_latch-IsFramed
                | inr go_on ↦ rw go_on ih
              ])
        | inr other ↦ rw other (elim (Bool-cases (action_breaks_latch a breaks_group_latch 0)) [
          | inl break ↦ rw break unlatched-IsFramed
          | inr go_on ↦ rw go_on ih
        ])
      ]

  group_latch_pending-IsFramed :
      (l : List Action) → f.func ≡ group_latch_func → IsFramed s (group_latch_pending s f key l)
  group_latch_pending-IsFramed [] e = unfold group_latch_pending in ground arith
  group_latch_pending-IsFramed (a ∷ l) e =
      group_latch_pending-step a l (group_latch_pending-IsFramed l e)

  group_latch_down-IsFramed : f.func ≡ group_latch_func → IsFramed s (group_latch_down s f key)
  unfolding group_latch_down
  group_latch_down-IsFramed e =
      ground (arith, group_latch_pending-IsFramed (key_get_actions s.components key.key) e)

  group_latch_up-IsFramed : f.func ≡ group_latch_func → IsFramed s (group_latch_up s f)
  unfolding group_latch_up unlatch_group drop_base_group
  group_latch_up-IsFramed e = ground arith

  pub group_latch_handler-IsFramed :
      (d : Direction) → f.func ≡ group_latch_func → IsFramed s (group_latch_handler s f key d)
  unfolding group_latch_handler
  group_latch_handler-IsFramed up e = ground (arith, group_latch_up-IsFramed e)
  group_latch_handler-IsFramed down e = group_latch_down-IsFramed e
  group_latch_handler-IsFramed repeated e = ground arith

  pub redirect_key_handler-IsFramed :
      (d : Direction) → f.func ≡ redirect_key_func → IsFramed s (redirect_key_handler s f key d)
  unfolding redirect_key_handler
  redirect_key_handler-IsFramed up e = ground arith
  redirect_key_handler-IsFramed down e = ground arith
  redirect_key_handler-IsFramed repeated e = ground arith

  pub ctrls_handler-IsFramed :
      (clear_all : ServerState → ServerState) (d : Direction)
      → ((t : ServerState) → IsSound t → IsFrame t (clear_all t))
      → IsFramed s (ctrls_handler clear_all s f key d)
  unfolding ctrls_handler hold_key
  ctrls_handler-IsFramed clear_all up h =
      ground (arith, h (with_controls s (clear s.components.controls f.priv)))
  ctrls_handler-IsFramed clear_all down h = ground arith
  ctrls_handler-IsFramed clear_all repeated h = ground arith

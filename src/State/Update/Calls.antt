-- ===== src/State/Update/Calls.antt =====
-- Any sequence of calls on a new server state.
use libxkbcommon.Base.{
  ℕ, suc, ◌+◌, ◌<◌, refl, arith, Bool, Option, none, some, Option-cases, inl, inr, List, [], ◌∷◌,
  get_or-replicate, testbit-zero,
}
use mathlib.Core.Path.{subst}
use libxkbcommon.Keymap.{Keymap, Policy, wrap}
use libxkbcommon.State.Latches.{ComponentsUpdate}
use libxkbcommon.State.Update.Synthetic.{WordUpdate, update_synthetic-IsValid}
use libxkbcommon.State.Types.{Direction, Mode, ServerState}
use libxkbcommon.State.Derived.{update_derived, led_update_all, derive}
use libxkbcommon.State.Derived.Effective.{update_derived-IsDerived}
use libxkbcommon.State.Update.{
  zero_components, state_init, server_state_init, update_enabled_controls, update_key,
  update_latched_locked, update_synthetic,
}
use libxkbcommon.State.Update.Invariant.{
  IsCompiled, IsValid, update_enabled_controls-IsValid, update_key-IsValid,
  update_latched_locked-IsValid,
}

-- A call of one of the entry points.
pub data Call : Type 0 where
  key : ℕ → Direction → Call
  controls : ℕ → ℕ → Call
  latched_locked : ℕ → ℕ → Bool → ℕ → ℕ → ℕ → Bool → ℕ → Call
  synthetic : Option (Option Policy × ℕ) → Option ComponentsUpdate → Call

-- A synthetic update that is refused leaves the state as it is.
abbrev pub state_after : ServerState → Option (ServerState × ℕ) → ServerState
state_after s none = s
state_after s (some (t, changed)) = t

abbrev pub call : Keymap → ServerState → Call → ServerState
call keymap s (key kc d) = (update_key keymap s kc d).0
call keymap s (controls affect new) = update_enabled_controls keymap s affect new
call keymap s (latched_locked al l all ll ak k akl kl) =
    (update_latched_locked keymap s al l all ll ak k akl kl).0
call keymap s (synthetic p u) = state_after s (update_synthetic keymap s p u)

abbrev pub calls : Keymap → ServerState → List Call → ServerState
calls keymap s [] = s
calls keymap s (c ∷ rest) = calls keymap (call keymap s c) rest

-- The masks handed over are 32 bits wide.
abbrev pub WordCalls : List Call → Type 0
WordCalls [] = Unit
WordCalls (latched_locked al l all ll ak k akl kl ∷ rest) =
    (al < 4294967296) × (k < 4294967296) × WordCalls rest
WordCalls (synthetic p u ∷ rest) = WordUpdate u × WordCalls rest
WordCalls (_ ∷ rest) = WordCalls rest

abbrev pub key_events : List Call → ℕ
key_events [] = 0
key_events (key kc d ∷ rest) = suc (key_events rest)
key_events (_ ∷ rest) = key_events rest

pub server_state_init-IsValid :
    (keymap : Keymap) (mode : Mode) (affect flags spare : ℕ)
    → IsCompiled keymap
    → spare < 32768
    → IsValid keymap spare (server_state_init keymap mode affect flags)
unfolding server_state_init state_init derive
server_state_init-IsValid keymap mode affect flags spare compiled h = record {
  sound = record {
    base_word = unfold update_derived led_update_all in omega arith;
    latched_word = unfold update_derived led_update_all in omega arith;
    locked_word = unfold update_derived led_update_all in omega arith;
    set_word = omega arith;
    clear_word = omega arith;
    filters = tt;
  };
  effective_word = unfold update_derived led_update_all in omega arith;
  derived = update_derived-IsDerived keymap wrap 0 zero_components compiled.groups;
  held = record {
    number = refl;
    base = λ j k.
        unfold update_derived led_update_all in
        ground (arith, testbit-zero j, get_or-replicate {A = ℕ} 32 j 0);
    small = λ j k. ground (arith, get_or-replicate {A = ℕ} 32 j 0);
  };
}

module _ (keymap : Keymap) (compiled : IsCompiled keymap) where
  state_after-IsValid :
      (spare : ℕ) (s : ServerState) (p : Option (Option Policy × ℕ)) (u : Option ComponentsUpdate)
      → WordUpdate u
      → IsValid keymap spare s
      → IsValid keymap spare (state_after s (update_synthetic keymap s p u))
  state_after-IsValid spare s p u w v = elim (Option-cases (update_synthetic keymap s p u)) [
    | inl e ↦ rw e v
    | inr ((t, changed), e) ↦ rw e (update_synthetic-IsValid keymap compiled spare s p u w v e)
  ]

  calls-IsValid :
      (l : List Call) (s : ServerState) (spare : ℕ)
      → WordCalls l
      → IsValid keymap (key_events l + spare) s
      → IsValid keymap spare (calls keymap s l)
  calls-IsValid [] s spare w v = subst (λ n. IsValid keymap n s) (omega arith) v
  calls-IsValid (key kc d ∷ l) s spare w v = calls-IsValid l (update_key keymap s kc d).0 spare w (
      update_key-IsValid keymap compiled (key_events l + spare) s kc d
        (subst (λ n. IsValid keymap n s) (omega arith) v))
  calls-IsValid (controls a n ∷ l) s spare w v =
      calls-IsValid l (update_enabled_controls keymap s a n) spare w
        (update_enabled_controls-IsValid keymap compiled (key_events l + spare) s a n v)
  calls-IsValid (latched_locked al x all ll ak k akl kl ∷ l) s spare w v =
      calls-IsValid l (call keymap s (latched_locked al x all ll ak k akl kl)) spare w.2 (
        update_latched_locked-IsValid keymap compiled (key_events l + spare) s al x all ll ak k akl
          kl w.0 w.1 v)
  calls-IsValid (synthetic p u ∷ l) s spare w v =
      calls-IsValid l (call keymap s (synthetic p u)) spare w.1
        (state_after-IsValid (key_events l + spare) s p u w.0 v)

  -- On a keymap whose masks fit 32 bits and that has at most 32 groups: after any sequence of key
  -- events, control updates, latch and lock updates and synthetic updates on a new server state,
  -- with fewer than 32768 key events and where the masks of latches and locks handed over fit 32
  -- bits: the base modifiers are exactly those that some key is counted to hold; the base, latched,
  -- locked and effective modifiers fit 32 bits, and so do the masks that the filters ask to be set
  -- or cleared; the effective modifiers are the union of the other three, the effective group is the
  -- 32-bit sum of the base, latched and locked groups brought into range by the layout policy of the state,
  -- the locked and the effective group are layouts of the keymap or 0 where it has none, and the
  -- LEDs are those that their maps light.
  pub reachable-IsValid :
      (mode : Mode) (affect flags : ℕ) (l : List Call)
      → WordCalls l
      → key_events l < 32768
      → IsValid keymap 0 (calls keymap (server_state_init keymap mode affect flags) l)
  reachable-IsValid mode affect flags l w h =
      calls-IsValid l _ 0 w
        (server_state_init-IsValid keymap mode affect flags _ compiled (omega arith))

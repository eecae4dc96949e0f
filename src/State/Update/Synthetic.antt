-- ===== src/State/Update/Synthetic.antt =====
-- Changes of the state that do not come from a key (`xkb_state_update_synthetic`).
use libxkbcommon.Base.{
  ℕ, ◌<◌, ◌≡◌, arith, Option, none, some, Option-cases, Bool-cases, inl, inr, ltb,
}
use libxkbcommon.Keymap.{Keymap, Policy, wrap, clamp, redirect}
use libxkbcommon.State.Types.{ServerState}
use libxkbcommon.State.Derived.{derive}
use libxkbcommon.State.Latches.{ComponentsUpdate, clear_all_latches_and_locks}
use libxkbcommon.State.Frame.Entry.{
  clear_all_latches_and_locks-IsFrame, state_update_latched_locked-IsFrame,
}
use libxkbcommon.State.Update.{
  is_server_mode, update_enabled_controls, update_layout_policy, update_policy_of,
  update_components_of, update_synthetic,
}
use libxkbcommon.State.Update.Invariant.{
  IsCompiled, IsValid, IsHeld-of_same, derive-IsValid, enabled_controls-IsValid,
}
use libxkbcommon.State.Update.Held.{IsHeld}
use libxkbcommon.State.Frame.{IsSound}

-- The masks of latches and of locks, where there are any, are 32 bits wide.
abbrev pub WordUpdate : Option ComponentsUpdate → Type 0
WordUpdate none = Unit
WordUpdate (some update) =
    (update.affect_latched_mods < 4294967296) × (update.locked_mods < 4294967296)

module _ (keymap : Keymap) (compiled : IsCompiled keymap) where
  -- What does not depend on the layout policy.
  IsUnderived : ℕ → ServerState → Type 0
  IsUnderived spare s = IsSound s × IsHeld spare s

  policy-IsUnderived :
      (spare : ℕ) (s : ServerState) (p : Policy) (number : ℕ)
      → IsUnderived spare s
      → IsUnderived spare (record s { policy = p; redirect_group = number })
  unfolding IsUnderived
  policy-IsUnderived spare s p number (sound, held) = (
    record {
      base_word = sound.base_word;
      latched_word = sound.latched_word;
      locked_word = sound.locked_word;
      set_word = sound.set_word;
      clear_word = sound.clear_word;
      filters = sound.filters;
    },
    record { number = held.number; base = held.base; small = held.small },
  )

  update_layout_policy-IsUnderived :
      (spare : ℕ) (s : ServerState) (p : Option Policy) (number : ℕ) {t : ServerState}
      → IsUnderived spare s
      → update_layout_policy keymap s p number ≡ some t
      → IsUnderived spare t
  unfolding update_layout_policy
  update_layout_policy-IsUnderived spare s none number {t} v e = absurd (ground arith)
  update_layout_policy-IsUnderived spare s (some redirect) number {t} v e =
      elim (Bool-cases (ltb number keymap.num_groups)) [
        | inr out ↦ absurd (ground arith)
        | inl below ↦
            let same : record s { policy = redirect; redirect_group = number } ≡ t = ground arith in
            rw (← same) (policy-IsUnderived spare s redirect number v)
      ]
  update_layout_policy-IsUnderived spare s (some wrap) number {t} v e =
      let same : record s { policy = wrap } ≡ t = ground arith in
      rw (← same) (policy-IsUnderived spare s wrap s.redirect_group v)
  update_layout_policy-IsUnderived spare s (some clamp) number {t} v e =
      let same : record s { policy = clamp } ≡ t = ground arith in
      rw (← same) (policy-IsUnderived spare s clamp s.redirect_group v)

  update_policy_of-IsUnderived :
      (spare : ℕ) (s : ServerState) (p : Option (Option Policy × ℕ)) {t : ServerState}
      → IsUnderived spare s
      → update_policy_of keymap s p ≡ some t
      → IsUnderived spare t
  update_policy_of-IsUnderived spare s none {t} v e =
      let same : s ≡ t = ground arith in rw (← same) v
  update_policy_of-IsUnderived spare s (some (policy, number)) {t} v e =
      update_layout_policy-IsUnderived spare s policy number v e

  update_components_of-IsValid :
      (spare : ℕ) (s : ServerState) (u : Option ComponentsUpdate)
      → WordUpdate u
      → IsUnderived spare s
      → IsValid keymap spare (derive keymap (update_components_of keymap s u))
  unfolding update_components_of IsUnderived
  update_components_of-IsValid spare s none w v = derive-IsValid keymap compiled spare s v.0 v.1
  update_components_of-IsValid spare s (some u) w v =
      let t = update_enabled_controls keymap s u.affect_controls u.controls in
      let before =
        enabled_controls-IsValid keymap compiled spare s u.affect_controls u.controls v.0 v.1 in
      let step =
        state_update_latched_locked-IsFrame keymap compiled.mappings
          (clear_all_latches_and_locks keymap)
          (clear_all_latches_and_locks-IsFrame keymap compiled.mappings) t u before.sound w.0 w.1 in
      derive-IsValid keymap compiled spare _ step.sound
        (IsHeld-of_same spare t _ step.keeps.base_mods step.keeps.counts before.held)

  -- The update once the layout policy has been changed.
  pub updated-IsValid :
      (spare : ℕ) (s : ServerState) (p : Option (Option Policy × ℕ)) (u : Option ComponentsUpdate)
      {t : ServerState}
      → WordUpdate u
      → IsValid keymap spare s
      → update_policy_of keymap s p ≡ some t
      → IsValid keymap spare (derive keymap (update_components_of keymap t u))
  unfolding IsUnderived
  updated-IsValid spare s p u {t} w v e =
      update_components_of-IsValid spare t u w
        (update_policy_of-IsUnderived spare s p (v.sound, v.held) e)

  -- On a keymap whose masks fit 32 bits and that has at most 32 groups, a synthetic update that
  -- succeeds keeps the invariant, whether it changes the layout policy, the controls, latches and
  -- locks, or all of them, where the masks of latches and of locks, if there are any, fit 32 bits.
  pub update_synthetic-IsValid :
      (spare : ℕ) (s : ServerState) (p : Option (Option Policy × ℕ)) (u : Option ComponentsUpdate)
      {t : ServerState} {changed : ℕ}
      → WordUpdate u
      → IsValid keymap spare s
      → update_synthetic keymap s p u ≡ some (t, changed)
      → IsValid keymap spare t
  unfolding update_synthetic
  update_synthetic-IsValid spare s p u {t} {changed} w v e =
      elim (Bool-cases (is_server_mode s.mode)) [
        | inr client ↦ absurd (ground arith)
        | inl server ↦ elim (Option-cases (update_policy_of keymap s p)) [
          | inl refused ↦ absurd (ground arith)
          | inr (s', f) ↦
              let same : derive keymap (update_components_of keymap s' u) ≡ t = ground arith in
              rw (← same) (updated-IsValid spare s p u w v f)
        ]
      ]

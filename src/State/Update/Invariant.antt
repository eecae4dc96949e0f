-- ===== src/State/Update/Invariant.antt =====
-- The invariant of a server state across the entry points that change it.
use libxkbcommon.Base.{
  ℕ, suc, ◌≤◌, ◌<◌, ◌≡◌, ap, ◌∙◌, arith, Bool, not, Bool-cases, Option-cases, inl, inr, some,
  bit_and, bit_or, bit_or-lt, clear, has, ◌&&◌, if◌then◌else◌,
}
use libxkbcommon.Keymap.{Keymap, KeyRef, xkb_key}
use libxkbcommon.State.Types.{
  Components, Direction, ServerState, with_components, sticky_keys, control_all_boolean,
}
use libxkbcommon.State.Derived.{led_update_all, update_derived, derive}
use libxkbcommon.State.Derived.Effective.{IsDerived, update_derived-IsDerived}
use libxkbcommon.State.Frame.{IsSound, IsFrame}
use libxkbcommon.State.Frame.Events.{HasWordMasks, IsFrame-trans}
use libxkbcommon.State.Frame.Entry.{
  WordMappings, clear_all_latches_and_locks-IsFrame, state_update_latched_locked-IsFrame,
  filter_apply_all-IsFrame,
}
use libxkbcommon.State.Latches.{clear_all_latches_and_locks, filter_apply_all}
use libxkbcommon.State.Update.{
  apply_mod_requests, update_enabled_controls, breaks_sticky_keys, process_key, is_server_mode,
  is_ignored, update_key, update_latched_locked,
}
use libxkbcommon.State.Update.Counting.{set_loop_word, clear_loop_word}
use libxkbcommon.State.Update.Held.{
  IsHeld, set-IsRaised, clear-IsCleared, apply_mod_requests-IsHeld,
}

-- A keymap whose masks fit 32 bits and which has at most 32 groups, as compiled ones do.
pub record IsCompiled (keymap : Keymap) : Type 0 where
  pub groups : keymap.num_groups ≤ 32
  pub mappings : WordMappings keymap.mods
  pub actions : (kc : ℕ) (key : KeyRef) → xkb_key keymap kc ≡ some key → HasWordMasks key.key

-- The invariant: the masks fit 32 bits, the derived components agree with the others under the
-- state's layout policy, and the base modifiers are those that some key holds.
pub record IsValid (keymap : Keymap) (spare : ℕ) (s : ServerState) : Type 0 where
  pub sound : IsSound s
  pub effective_word : s.components.mods < 4294967296
  pub derived : IsDerived keymap s.policy s.redirect_group s.components
  pub held : IsHeld spare s

-- The base modifiers and counts pass on.
pub IsHeld-of_same :
    (spare : ℕ) (s t : ServerState)
    → t.components.base_mods ≡ s.components.base_mods
    → t.mod_key_count ≡ s.mod_key_count
    → IsHeld spare s
    → IsHeld spare t
IsHeld-of_same spare s t e c h = record {
  number = rw c h.number;
  base = λ j k. rw (e, c) (h.base j k);
  small = λ j k. rw c (h.small j k);
}

pub IsHeld-less : (spare : ℕ) (s : ServerState) → IsHeld (suc spare) s → IsHeld spare s
IsHeld-less spare s h = record {
  number = h.number;
  base = h.base;
  small = λ j k. omega (arith, h.small j k);
}

derive-IsFrame : (keymap : Keymap) (s : ServerState) → IsSound s → IsFrame s (derive keymap s)
unfolding derive update_derived led_update_all
derive-IsFrame keymap s a = ground arith

pub apply_mod_requests-IsSound :
    (s : ServerState) (spare : ℕ) → IsSound s → IsHeld spare s → IsSound (apply_mod_requests s)
apply_mod_requests-IsSound s spare a h =
    let r = set-IsRaised s a.set_word a.clear_word h.number in
    let c = clear-IsCleared s a.set_word a.clear_word h.number in
    let same_set = ap (λ (t : ServerState). t.set_mods) c.rest ∙ r.emptied in
    let same_filters =
      ap (λ (t : ServerState). t.filters) c.rest ∙ ap (λ (t : ServerState). t.filters) r.rest in
    let kept : (apply_mod_requests s).components
        ≡ record s.components { base_mods = (apply_mod_requests s).components.base_mods } =
      ap (λ (t : ServerState). t.components) c.rest
      ∙ ap
          (λ (x : Components). record x { base_mods = (apply_mod_requests s).components.base_mods })
          (ap (λ (t : ServerState). t.components) r.rest) in
    record {
      base_word =
          unfold apply_mod_requests in
          clear_loop_word 32 0 1 _ (set_loop_word 32 0 1 s (omega arith) a.base_word);
      latched_word = rw (ap (λ (x : Components). x.latched_mods) kept) a.latched_word;
      locked_word = rw (ap (λ (x : Components). x.locked_mods) kept) a.locked_word;
      set_word = omega (arith, same_set);
      clear_word = omega (arith, c.emptied);
      filters = rw same_filters a.filters;
    }

module _ (keymap : Keymap) (compiled : IsCompiled keymap) where
  pub derive-IsValid :
      (spare : ℕ) (s : ServerState)
      → IsSound s
      → IsHeld spare s
      → IsValid keymap spare (derive keymap s)
  derive-IsValid spare s a h =
      let frame = derive-IsFrame keymap s a in
      record {
        sound = frame.sound;
        effective_word =
            unfold derive update_derived led_update_all in
            bit_or-lt 32 _ _
              (bit_or-lt 32 s.components.base_mods s.components.latched_mods a.base_word
                a.latched_word)
              a.locked_word;
        derived =
            unfold derive in
            update_derived-IsDerived keymap s.policy s.redirect_group s.components compiled.groups;
        held = IsHeld-of_same spare s (derive keymap s) frame.keeps.base_mods frame.keeps.counts h;
      }

  -- The layout policy may have changed before controls are enabled and disabled.
  pub enabled_controls-IsValid :
      (spare : ℕ) (s : ServerState) (affect controls : ℕ)
      → IsSound s
      → IsHeld spare s
      → IsValid keymap spare (update_enabled_controls keymap s affect controls)
  unfolding update_enabled_controls
  enabled_controls-IsValid spare s affect controls sound held =
      let c = s.components in
      let mask = bit_and affect control_all_boolean in
      let new = bit_or (clear c.controls mask) (bit_and controls mask) in
      let t = with_components s (record c { controls = new }) in
      let changed : IsFrame s t = ground arith in
      let cleared =
        IsFrame-trans changed
          (clear_all_latches_and_locks-IsFrame keymap compiled.mappings t changed.sound) in
      elim (Bool-cases (has c.controls sticky_keys && not (has new sticky_keys))) [
        | inl off ↦ rw off (
            derive-IsValid spare _ cleared.sound
              (IsHeld-of_same spare s _ cleared.keeps.base_mods cleared.keeps.counts held))
        | inr on ↦ rw on (
            derive-IsValid spare t changed.sound
              (IsHeld-of_same spare s t changed.keeps.base_mods changed.keeps.counts held))
      ]

  -- On a keymap whose masks fit 32 bits and that has at most 32 groups, enabling and disabling
  -- controls keeps the invariant, also where it clears all latches and locks.
  pub update_enabled_controls-IsValid :
      (spare : ℕ) (s : ServerState) (affect controls : ℕ)
      → IsValid keymap spare s
      → IsValid keymap spare (update_enabled_controls keymap s affect controls)
  update_enabled_controls-IsValid spare s affect controls v =
      enabled_controls-IsValid spare s affect controls v.sound v.held

  -- A key event keeps the invariant and uses up one of the spare counts.
  pub process_key-IsValid :
      (spare : ℕ) (s : ServerState) (key : KeyRef) (d : Direction)
      → HasWordMasks key.key
      → IsValid keymap (suc spare) s
      → IsValid keymap spare (process_key keymap s key d).0
  unfolding process_key
  process_key-IsValid spare s key d w v =
      let t =
        if breaks_sticky_keys keymap s d
        then update_enabled_controls keymap s sticky_keys 0
        else s in
      let before : IsValid keymap (suc spare) t =
        elim (Bool-cases (breaks_sticky_keys keymap s d)) [
          | inl off ↦ rw off (update_enabled_controls-IsValid (suc spare) s sticky_keys 0 v)
          | inr on ↦ rw on v
        ] in
      let t' = record t { set_mods = 0; clear_mods = 0 } in
      let sound : IsSound t' = record {
        set_word = omega arith;
        clear_word = omega arith;
        base_word = before.sound.base_word;
        latched_word = before.sound.latched_word;
        locked_word = before.sound.locked_word;
        filters = before.sound.filters;
      } in
      let run = filter_apply_all-IsFrame keymap compiled.mappings t' key d sound w in
      let u = filter_apply_all keymap t' key d in
      let held = IsHeld-of_same (suc spare) t u run.keeps.base_mods run.keeps.counts before.held in
      derive-IsValid spare (apply_mod_requests u)
        (apply_mod_requests-IsSound u (suc spare) run.sound held)
        (apply_mod_requests-IsHeld u run.sound.set_word run.sound.clear_word spare held)

  -- On a keymap whose masks fit 32 bits and that has at most 32 groups, `xkb_state_update_key`
  -- keeps the invariant for every key code and direction, also where it ignores the event, and
  -- uses up at most one of the spare counts.
  pub update_key-IsValid :
      (spare : ℕ) (s : ServerState) (kc : ℕ) (d : Direction)
      → IsValid keymap (suc spare) s
      → IsValid keymap spare (update_key keymap s kc d).0
  unfolding update_key
  update_key-IsValid spare s kc d v =
      let ignored : IsValid keymap spare s = record {
        sound = v.sound;
        effective_word = v.effective_word;
        derived = v.derived;
        held = IsHeld-less spare s v.held;
      } in
      elim (Bool-cases (is_server_mode s.mode)) [
        | inr client ↦ rw client ignored
        | inl server ↦ rw server (elim (Option-cases (xkb_key keymap kc)) [
          | inl e ↦ rw (e, update_key) ignored
          | inr (key, e) ↦
              rw (e, update_key)
                (elim (Bool-cases (is_ignored keymap d key.key.repeats)) [
                  | inl skip ↦ rw skip ignored
                  | inr go_on ↦
                      rw go_on (process_key-IsValid spare s key d (compiled.actions kc key e) v)
                ])
        ])
      ]

  -- On a keymap whose masks fit 32 bits and that has at most 32 groups, setting latches and locks
  -- from outside keeps the invariant, where the mask of latches and that of locks fit 32 bits.
  pub update_latched_locked-IsValid :
      (spare : ℕ) (s : ServerState) (affect_latched latched : ℕ) (affect_latched_layout : Bool)
      (latched_layout affect_locked locked : ℕ) (affect_locked_layout : Bool) (locked_layout : ℕ)
      → affect_latched < 4294967296
      → locked < 4294967296
      → IsValid keymap spare s
      → IsValid keymap spare
          (update_latched_locked keymap s affect_latched latched affect_latched_layout
            latched_layout affect_locked locked affect_locked_layout locked_layout).0
  unfolding update_latched_locked
  update_latched_locked-IsValid spare s al l all ll ak k akl kl word word' v =
      elim (Bool-cases (is_server_mode s.mode)) [
        | inr client ↦ rw client v
        | inl server ↦ rw server (
            let step =
              state_update_latched_locked-IsFrame keymap compiled.mappings
                (clear_all_latches_and_locks keymap)
                (clear_all_latches_and_locks-IsFrame keymap compiled.mappings) s _ v.sound word
                word' in
            derive-IsValid spare _ step.sound
              (IsHeld-of_same spare s _ step.keeps.base_mods step.keeps.counts v.held))
      ]

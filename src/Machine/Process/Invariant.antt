-- ===== src/Machine/Process/Invariant.antt =====
-- The invariant of the machine's state across key events and synthetic updates.
use libxkbcommon.Base.{
  ℕ, suc, ◌≡◌, refl, ◌∙◌, arith, not, ◌&&◌, get_or, Bool-cases, Option-cases, inl, inr, Option,
  some, List, [], ◌∷◌, get_elem?, has, ◌==◌,
}
use libxkbcommon.Keymap.{Keymap, Key, KeyRef, key_at, xkb_key, Policy, layout_invalid}
use libxkbcommon.State.Types.{
  Components, component_changes, controls_component, Direction, up, down, repeated, Event,
  ServerState, sticky_keys,
}
use libxkbcommon.State.Derived.{derive}
use libxkbcommon.State.Actions.{state_key_get_layout}
use libxkbcommon.State.Frame.{IsSound}
use libxkbcommon.State.Frame.Events.{HasWordMasks}
use libxkbcommon.State.Frame.Entry.{filter_apply_all-IsFrame}
use libxkbcommon.State.Latches.{ComponentsUpdate, filter_apply_all}
use libxkbcommon.State.Update.{
  breaks_sticky_keys, is_ignored, update_policy_of, apply_mod_requests, update_components_of,
}
use libxkbcommon.State.Update.Held.{IsHeld, apply_mod_requests-IsHeld}
use libxkbcommon.State.Update.Invariant.{
  IsCompiled, IsValid, IsHeld-of_same, IsHeld-less, derive-IsValid, apply_mod_requests-IsSound,
  update_enabled_controls-IsValid,
}
use libxkbcommon.State.Update.Synthetic.{WordUpdate, updated-IsValid}
use libxkbcommon.Machine.{OverlaidKey, Machine}
use libxkbcommon.Machine.Overlays.{
  machine_update_overlays, find_entry, use_key, put_entry, latest_target, overlay_target,
  enable_overlay, process_overlayable_key,
}
use libxkbcommon.Machine.Tweaks.{
  queue_of, remap_loop, apply_remap, do_remap_modifiers, activate_target, do_shortcuts_tweak,
}
use libxkbcommon.Machine.Process.{
  with_queue, report_changes, break_sticky_keys, overlaid, run_actions, tweak, process_known_key,
  machine_process_key, machine_process_synthetic,
}

-- The queue is no part of the invariant.
with_queue-IsValid :
    (keymap : Keymap) (spare : ℕ) (s : ServerState) (queue : List Event)
    → IsValid keymap spare s
    → IsValid keymap spare (with_queue s queue)
with_queue-IsValid keymap spare s queue v = record {
  sound = record {
    base_word = v.sound.base_word;
    latched_word = v.sound.latched_word;
    locked_word = v.sound.locked_word;
    set_word = v.sound.set_word;
    clear_word = v.sound.clear_word;
    filters = v.sound.filters;
  };
  effective_word = v.effective_word;
  derived = v.derived;
  held = record { number = v.held.number; base = v.held.base; small = v.held.small };
}

-- The targets of overlaid keys have masks of 32 bits.
abbrev pub WordTargets : List OverlaidKey → Type 0
WordTargets [] = Unit
WordTargets (e ∷ rest) = HasWordMasks e.new.key × WordTargets rest

WordTargets-find_entry :
    (l : List OverlaidKey) (a : ℕ) {e : OverlaidKey}
    → WordTargets l
    → find_entry l a ≡ some e
    → HasWordMasks e.new.key
unfolding find_entry
WordTargets-find_entry [] a w h = absurd (ground arith)
WordTargets-find_entry (x ∷ l) a {e} w h = elim (Bool-cases (x.old == a)) [
  | inl t ↦ let same : x ≡ e = ground arith in rw (← same) w.0
  | inr f ↦ WordTargets-find_entry l a w.1 (rw f at h)
]

WordTargets-use_key :
    (l : List OverlaidKey) (a : ℕ) (d : Direction) → WordTargets l → WordTargets (use_key l a d)
unfolding use_key
WordTargets-use_key [] a d w = w
WordTargets-use_key (x ∷ l) a d w = elim (Bool-cases (x.old == a)) [
  | inl t ↦ rw t w
  | inr f ↦ rw f (w.0, WordTargets-use_key l a d w.1)
]

WordTargets-put_entry :
    (l : List OverlaidKey) (e : OverlaidKey)
    → WordTargets l
    → HasWordMasks e.new.key
    → WordTargets (put_entry l e)
unfolding put_entry
WordTargets-put_entry [] e w h = (h, tt)
WordTargets-put_entry (x ∷ l) e w h = elim (Bool-cases (x.old == 0)) [
  | inl t ↦ rw t (h, w.1)
  | inr f ↦ rw f (w.0, WordTargets-put_entry l e w.1 h)
]

-- Every key of the keymap's array has masks of 32 bits.
abbrev pub WordArray : Keymap → Type 0
WordArray keymap =
    (address : ℕ) (key : KeyRef) → key_at keymap address ≡ some key → HasWordMasks key.key

-- What the processing of a key needs of the machine: a valid state and sound targets.
pub record IsReadyMachine (keymap : Keymap) (spare : ℕ) (sm : Machine) : Type 0 where
  pub state : IsValid keymap spare sm.base
  pub targets : WordTargets sm.overlaid_keys

machine_update_overlays-same :
    (keymap : Keymap) (spare : ℕ) (sm : Machine)
    → IsReadyMachine keymap spare sm
    → IsReadyMachine keymap spare (machine_update_overlays keymap sm)
unfolding machine_update_overlays
machine_update_overlays-same keymap spare sm r = record { state = r.state; targets = r.targets }

module _ (keymap : Keymap) (compiled : IsCompiled keymap) (array : WordArray keymap) where
  report_changes-IsReadyMachine :
      (spare : ℕ) (sm : Machine) (c : Components) (s : ServerState) (queue : List Event)
      → IsValid keymap spare s
      → WordTargets sm.overlaid_keys
      → IsReadyMachine keymap spare (report_changes keymap sm c s queue)
  unfolding report_changes
  report_changes-IsReadyMachine spare sm c s queue v w =
      let ready : (q : List Event)
          → IsReadyMachine keymap spare (record sm { base = with_queue s q }) =
        λ q. record { state = with_queue-IsValid keymap spare s q v; targets = w } in
      elim (Bool-cases (component_changes c s.components == 0)) [
        | inl same ↦ rw same (ready queue)
        | inr changed ↦
            rw changed
              (elim (Bool-cases (has (component_changes c s.components) controls_component)) [
                | inl t ↦ rw t (machine_update_overlays-same keymap spare _ (ready _))
                | inr f ↦ rw f (ready _)
              ])
      ]

  overlay_target-HasWordMasks :
      (sm : Machine) (key : KeyRef)
      → HasWordMasks key.key
      → HasWordMasks (overlay_target keymap sm key).key
  unfolding overlay_target
  overlay_target-HasWordMasks sm key w =
      elim (Bool-cases (has key.key.overlays sm.overlays_enabled)) [
        | inr f ↦ rw f w
        | inl t ↦ rw t (elim (Option-cases (latest_target 8 key.key sm.overlays_order)) [
          | inl e ↦ rw (e, overlay_target) w
          | inr (address, e) ↦
              rw (e, overlay_target)
                (elim (Option-cases (key_at keymap address)) [
                  | inl g ↦ rw (g, overlay_target) w
                  | inr (target, g) ↦ rw (g, overlay_target) (array address target g)
                ])
        ])
      ]

  enable_overlay_sound :
      (sm : Machine) (key : KeyRef) (d : Direction)
      → WordTargets sm.overlaid_keys
      → HasWordMasks key.key
      → (WordTargets (enable_overlay keymap sm key d).0.overlaid_keys)
        × HasWordMasks (enable_overlay keymap sm key d).1.key
  unfolding enable_overlay
  enable_overlay_sound sm key down w h =
      let target = overlay_target-HasWordMasks sm key h in
      (WordTargets-put_entry sm.overlaid_keys _ w target, target)
  enable_overlay_sound sm key up w h = (w, h)
  enable_overlay_sound sm key repeated w h = (w, h)

  overlaid_sound :
      (sm : Machine) (key : KeyRef) (d : Direction)
      → WordTargets sm.overlaid_keys
      → HasWordMasks key.key
      → (WordTargets (overlaid keymap sm key d).0.overlaid_keys)
        × HasWordMasks (overlaid keymap sm key d).1.key
  unfolding overlaid process_overlayable_key
  overlaid_sound sm key d w h = elim (Bool-cases (key.key.overlays == 0)) [
    | inl t ↦ rw t (w, h)
    | inr f ↦ rw f (elim (Option-cases (find_entry sm.overlaid_keys key.address)) [
      | inl e ↦ rw (e, process_overlayable_key) (enable_overlay_sound sm key d w h)
      | inr (entry, e) ↦
          rw (e, process_overlayable_key)
            (
              WordTargets-use_key sm.overlaid_keys key.address d w,
              WordTargets-find_entry sm.overlaid_keys key.address w e,
            )
    ])
  ]

  -- The state between the tweaks and the actions: only effective components and the queue differ.
  abbrev IsTweaked : ServerState → ServerState → Type 0
  IsTweaked s t =
      IsSound t
      × (t.components.base_mods ≡ s.components.base_mods)
      × (t.mod_key_count ≡ s.mod_key_count)

  apply_remap_sound :
      (s : ServerState) (affect mods : ℕ)
      → IsSound s
      → IsTweaked s (apply_remap keymap s affect mods).0
  unfolding apply_remap
  apply_remap_sound s affect mods a = let c = s.components in ground arith

  do_remap_modifiers_sound :
      (sm : Machine) (s : ServerState) (key : Key)
      → IsSound s
      → IsTweaked s (do_remap_modifiers keymap sm s key).0
  unfolding do_remap_modifiers
  do_remap_modifiers_sound sm s key a = elim (Bool-cases (has sm.mods_mask s.components.mods)) [
    | inr f ↦ rw f ((a, refl, refl))
    | inl t ↦
        rw t (elim (Option-cases (get_elem? key.groups (state_key_get_layout s.components key))) [
          | inl e ↦ rw (e, do_remap_modifiers) ((a, refl, refl))
          | inr (group, e) ↦
              let r = remap_loop sm.mappings s.components.mods group.type.mods.mask 0 0 in
              rw (e, do_remap_modifiers) (apply_remap_sound s r.0 r.1 a)
        ])
  ]

  activate_target_sound :
      (s : ServerState) (previous : Components) (remap : Option ℕ) (target : ℕ)
      → IsSound s
      → IsTweaked s (activate_target keymap s previous remap target).0
  unfolding activate_target
  activate_target_sound s previous remap target a = (
    record {
      base_word = a.base_word;
      latched_word = a.latched_word;
      locked_word = a.locked_word;
      set_word = a.set_word;
      clear_word = a.clear_word;
      filters = a.filters;
    },
    refl,
    refl,
  )

  do_shortcuts_tweak_sound :
      (sm : Machine) (previous : Components) (s : ServerState) (remap : Option ℕ)
      → IsSound s
      → IsTweaked s (do_shortcuts_tweak keymap sm previous s remap).0
  unfolding do_shortcuts_tweak
  do_shortcuts_tweak_sound sm previous s remap a =
      let kept : IsTweaked s s = (a, refl, refl) in
      elim (Option-cases sm.targets) [
        | inl e ↦ rw (e, do_shortcuts_tweak) kept
        | inr (targets, e) ↦
            let target = get_or targets s.components.group layout_invalid in
            rw (e, do_shortcuts_tweak)
              (elim (Bool-cases
                (has s.components.mods sm.shortcuts_mask && not (target == layout_invalid))) [
                  | inl t ↦ rw t (activate_target_sound s previous remap target a)
                  | inr f ↦ rw f kept
                ])
      ]

  tweak_sound :
      (sm : Machine) (previous : Components) (s : ServerState) (key : KeyRef)
      → IsSound s
      → IsTweaked s (tweak keymap sm previous s key).0
  unfolding tweak
  tweak_sound sm previous s key a =
      let r = do_remap_modifiers keymap sm s key.key in
      let first = do_remap_modifiers_sound sm s key.key a in
      let second = do_shortcuts_tweak_sound sm previous r.0 r.1 (first.0) in
      (second.0, second.1 ∙ first.1, second.2 ∙ first.2)

  break_sticky_keys-IsValid :
      (spare : ℕ) (s : ServerState) (d : Direction)
      → IsValid keymap spare s
      → IsValid keymap spare (break_sticky_keys keymap s d)
  unfolding break_sticky_keys
  break_sticky_keys-IsValid spare s d v = elim (Bool-cases (breaks_sticky_keys keymap s d)) [
    | inl off ↦ rw off (update_enabled_controls-IsValid keymap compiled spare s sticky_keys 0 v)
    | inr on ↦ rw on v
  ]

  run_actions-IsValid :
      (spare : ℕ) (s : ServerState) (key : KeyRef) (d : Direction)
      → IsSound s
      → IsHeld (suc spare) s
      → HasWordMasks key.key
      → IsValid keymap spare (run_actions keymap s key d)
  unfolding run_actions
  run_actions-IsValid spare s key d a h w =
      let t = record s { set_mods = 0; clear_mods = 0 } in
      let sound : IsSound t = record {
        set_word = omega arith;
        clear_word = omega arith;
        base_word = a.base_word;
        latched_word = a.latched_word;
        locked_word = a.locked_word;
        filters = a.filters;
      } in
      let run = filter_apply_all-IsFrame keymap compiled.mappings t key d sound w in
      let u = filter_apply_all keymap t key d in
      let held = IsHeld-of_same (suc spare) s u run.keeps.base_mods run.keeps.counts h in
      derive-IsValid keymap compiled spare (apply_mod_requests u)
        (apply_mod_requests-IsSound u (suc spare) run.sound held)
        (apply_mod_requests-IsHeld u run.sound.set_word run.sound.clear_word spare held)

  process_known_key-IsReadyMachine :
      (spare : ℕ) (sm : Machine) (key : KeyRef) (d : Direction)
      → HasWordMasks key.key
      → IsReadyMachine keymap (suc spare) sm
      → IsReadyMachine keymap spare (process_known_key keymap sm key d)
  unfolding process_known_key
  process_known_key-IsReadyMachine spare sm key d w r =
      let previous = sm.base.components in
      let s = break_sticky_keys keymap (with_queue sm.base []) d in
      let before =
        break_sticky_keys-IsValid (suc spare) (with_queue sm.base []) d
          (with_queue-IsValid keymap (suc spare) sm.base [] r.state) in
      let o = overlaid keymap sm key d in
      let targets = overlaid_sound sm key d r.targets w in
      let t = (tweak keymap o.0 previous s o.1).0 in
      let tweaked = tweak_sound o.0 previous s o.1 before.sound in
      let held = IsHeld-of_same (suc spare) s t tweaked.1 tweaked.2 before.held in
      report_changes-IsReadyMachine spare o.0 previous _ _
        (run_actions-IsValid spare t o.1 d tweaked.0 held targets.1) targets.0

  -- On a keymap whose masks fit 32 bits and that has at most 32 groups, a key event on a machine
  -- keeps the invariant of its state and of the targets of its overlaid keys, whatever the
  -- overlays, remapped modifiers and shortcuts: the base modifiers are those that some key is
  -- counted to hold, and the tweaks leave no trace in them. It uses up at most one spare count.
  pub machine_process_key-IsReadyMachine :
      (spare : ℕ) (sm : Machine) (kc : ℕ) (d : Direction)
      → IsReadyMachine keymap (suc spare) sm
      → IsReadyMachine keymap spare (machine_process_key keymap sm kc d)
  unfolding machine_process_key
  machine_process_key-IsReadyMachine spare sm kc d r =
      let less : IsValid keymap spare sm.base = record {
        sound = r.state.sound;
        effective_word = r.state.effective_word;
        derived = r.state.derived;
        held = IsHeld-less spare sm.base r.state.held;
      } in
      let idle : IsReadyMachine keymap spare (record sm { base = with_queue sm.base [] }) = record {
        state = with_queue-IsValid keymap spare sm.base [] less;
        targets = r.targets;
      } in
      elim (Option-cases (xkb_key keymap kc)) [
        | inl e ↦ rw (e, machine_process_key) idle
        | inr (key, e) ↦
            rw (e, machine_process_key)
              (elim (Bool-cases (is_ignored keymap d key.key.repeats)) [
                | inl skip ↦ rw skip idle
                | inr go_on ↦
                    rw go_on (
                      process_known_key-IsReadyMachine spare sm key d (compiled.actions kc key e) r)
              ])
      ]

  -- On a keymap whose masks fit 32 bits and that has at most 32 groups, a synthetic update of a
  -- machine that succeeds keeps the invariant of its state and of the targets of its overlaid
  -- keys, where the masks of latches and of locks, if there are any, fit 32 bits.
  pub machine_process_synthetic-IsReadyMachine :
      (spare : ℕ) (sm : Machine) (p : Option (Option Policy × ℕ)) (u : Option ComponentsUpdate)
      {after : Machine}
      → WordUpdate u
      → IsReadyMachine keymap spare sm
      → machine_process_synthetic keymap sm p u ≡ some after
      → IsReadyMachine keymap spare after
  unfolding machine_process_synthetic
  machine_process_synthetic-IsReadyMachine spare sm p u {after} w r e =
      elim (Option-cases (update_policy_of keymap sm.base p)) [
        | inl refused ↦ absurd (ground arith)
        | inr (s, f) ↦
            let t = derive keymap (update_components_of keymap s u) in
            let same : report_changes keymap sm sm.base.components t (queue_of t) ≡ after =
              ground arith in
            rw (← same) (
              report_changes-IsReadyMachine spare sm _ t (queue_of t)
                (updated-IsValid keymap compiled spare sm.base p u w r.state f) r.targets)
      ]

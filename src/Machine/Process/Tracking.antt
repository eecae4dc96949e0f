-- ===== src/Machine/Process/Tracking.antt =====
-- The stack of overlays across the events of a machine: it follows the controls.
use libxkbcommon.Base.{
  ℕ, ◌≡◌, refl, ap, ◌∙◌, arith, false, Bool-cases, Option-cases, inl, inr, Option, some, List, [],
  has, has-pow, ◌==◌,
}
use libxkbcommon.Keymap.{Keymap, KeyRef, xkb_key, Policy}
use libxkbcommon.State.Types.{
  Components, component_changes, controls_component, Direction, up, down, repeated, Event,
  ServerState,
}
use libxkbcommon.State.Derived.{derive}
use libxkbcommon.State.Latches.{ComponentsUpdate}
use libxkbcommon.State.Update.{is_ignored, update_policy_of, update_components_of}
use libxkbcommon.State.Update.Changes.{component_changes-differs, component_changes-zero}
use libxkbcommon.Machine.{Machine}
use libxkbcommon.Machine.Overlays.{
  overlays_from_controls, machine_update_overlays, find_entry, enable_overlay,
  process_overlayable_key,
}
use libxkbcommon.Machine.Overlays.Stack.{IsStacked, machine_update_overlays-refines}
use libxkbcommon.Machine.Tweaks.{queue_of}
use libxkbcommon.Machine.Process.{
  with_queue, report_changes, overlaid, process_known_key, machine_process_key,
  machine_process_synthetic,
}

-- Some stack stands in the machine's word, of exactly the overlays that the controls enable.
pub record IsTracking (sm : Machine) : Type 0 where
  pub stack : List ℕ
  pub stacked : IsStacked sm stack
  pub enabled : sm.overlays_enabled ≡ overlays_from_controls sm.base.components.controls

same_controls :
    (a b : Components)
    → has (component_changes a b) controls_component ≡ false
    → a.controls ≡ b.controls
same_controls a b h =
    ground (arith, has-pow (component_changes a b) 9, component_changes-differs a b 9)

-- A machine with another state.
rebased :
    (sm : Machine) (s : ServerState)
    → IsTracking sm
    → sm.base.components.controls ≡ s.components.controls
    → IsTracking (record sm { base = s })
rebased sm s t e = record {
  stack = t.stack;
  stacked = record { order = t.stacked.order; stack = t.stacked.stack; word = t.stacked.word };
  enabled = t.enabled ∙ ap overlays_from_controls e;
}

module _ (keymap : Keymap) (format : keymap.v1_format ≡ false) where
  update-IsTracking :
      (sm : Machine) (l : List ℕ) → IsStacked sm l → IsTracking (machine_update_overlays keymap sm)
  update-IsTracking sm l s = record {
    stack = _;
    stacked = machine_update_overlays-refines keymap sm l format s;
    enabled = unfold machine_update_overlays in refl;
  }

  report_changes-IsTracking :
      (sm : Machine) (c : Components) (s : ServerState) (queue : List Event)
      → sm.base.components ≡ c
      → IsTracking sm
      → IsTracking (report_changes keymap sm c s queue)
  unfolding report_changes
  report_changes-IsTracking sm c s queue same t =
      let changed : ℕ = component_changes c s.components in
      let before : sm.base.components.controls ≡ c.controls =
        ap (λ (x : Components). x.controls) same in
      let again : (q : List Event) → IsStacked (record sm { base = with_queue s q }) t.stack =
        λ q. record { order = t.stacked.order; stack = t.stacked.stack; word = t.stacked.word } in
      elim (Bool-cases (changed == 0)) [
        | inl z ↦
            let e : c ≡ s.components = (component_changes-zero c s.components).0 (ground arith) in
            rw z
              (rebased sm (with_queue s queue) t (before ∙ ap (λ (x : Components). x.controls) e))
        | inr nz ↦ rw nz (elim (Bool-cases (has changed controls_component)) [
          | inl u ↦ rw u (update-IsTracking _ t.stack (again _))
          | inr f ↦ rw f (rebased sm (with_queue s _) t (before ∙ same_controls c s.components f))
        ])
      ]

  -- Overlaying a key changes neither the stack nor the state.
  overlaid-same :
      (sm : Machine) (key : KeyRef) (d : Direction)
      → ((overlaid keymap sm key d).0.overlays_order ≡ sm.overlays_order)
        × ((overlaid keymap sm key d).0.overlays_enabled ≡ sm.overlays_enabled)
        × ((overlaid keymap sm key d).0.base ≡ sm.base)
  unfolding overlaid process_overlayable_key
  overlaid-same sm key d = elim (Bool-cases (key.key.overlays == 0)) [
    | inl t ↦ rw t (refl, refl, refl)
    | inr f ↦ rw f (elim (Option-cases (find_entry sm.overlaid_keys key.address)) [
      | inl e ↦ rw (e, process_overlayable_key) (enabled_same d)
      | inr (entry, e) ↦ rw (e, process_overlayable_key) (refl, refl, refl)
    ])
  ]
    where
      enabled_same :
          (d : Direction)
          → ((enable_overlay keymap sm key d).0.overlays_order ≡ sm.overlays_order)
            × ((enable_overlay keymap sm key d).0.overlays_enabled ≡ sm.overlays_enabled)
            × ((enable_overlay keymap sm key d).0.base ≡ sm.base)
      enabled_same down = unfold enable_overlay in (refl, refl, refl)
      enabled_same up = unfold enable_overlay in (refl, refl, refl)
      enabled_same repeated = unfold enable_overlay in (refl, refl, refl)

  overlaid-IsTracking :
      (sm : Machine) (key : KeyRef) (d : Direction)
      → IsTracking sm
      → IsTracking (overlaid keymap sm key d).0
  overlaid-IsTracking sm key d t =
      let (order, enabled, base) = overlaid-same sm key d in
      record {
        stack = t.stack;
        stacked = record {
          order = order ∙ t.stacked.order;
          stack = rw enabled t.stacked.stack;
          word = rw enabled t.stacked.word;
        };
        enabled = rw (enabled, base) t.enabled;
      }

  process_known_key-IsTracking :
      (sm : Machine) (key : KeyRef) (d : Direction)
      → IsTracking sm
      → IsTracking (process_known_key keymap sm key d)
  unfolding process_known_key
  process_known_key-IsTracking sm key d t =
      let o = (overlaid keymap sm key d).0 in
      let same : o.base.components ≡ sm.base.components =
        ap (λ (s : ServerState). s.components) (overlaid-same sm key d).2 in
      report_changes-IsTracking o sm.base.components _ _ same (overlaid-IsTracking sm key d t)

  -- On a keymap that is not of the first format, a key event of a machine keeps its order word a
  -- stack of exactly the overlays that the controls enable, each once, also where the event is
  -- ignored.
  pub machine_process_key-IsTracking :
      (sm : Machine) (kc : ℕ) (d : Direction)
      → IsTracking sm
      → IsTracking (machine_process_key keymap sm kc d)
  unfolding machine_process_key
  machine_process_key-IsTracking sm kc d t =
      let idle = rebased sm (with_queue sm.base []) t refl in
      elim (Option-cases (xkb_key keymap kc)) [
        | inl e ↦ rw (e, machine_process_key) idle
        | inr (key, e) ↦
            rw (e, machine_process_key)
              (elim (Bool-cases (is_ignored keymap d key.key.repeats)) [
                | inl skip ↦ rw skip idle
                | inr go_on ↦ rw go_on (process_known_key-IsTracking sm key d t)
              ])
      ]

  -- On a keymap that is not of the first format, so does a synthetic update that succeeds.
  pub machine_process_synthetic-IsTracking :
      (sm : Machine) (p : Option (Option Policy × ℕ)) (u : Option ComponentsUpdate)
      {after : Machine}
      → IsTracking sm
      → machine_process_synthetic keymap sm p u ≡ some after
      → IsTracking after
  unfolding machine_process_synthetic
  machine_process_synthetic-IsTracking sm p u {after} t e =
      elim (Option-cases (update_policy_of keymap sm.base p)) [
        | inl refused ↦ absurd (ground arith)
        | inr (s, f) ↦
            let v = derive keymap (update_components_of keymap s u) in
            let same : report_changes keymap sm sm.base.components v (queue_of v) ≡ after =
              ground arith in
            rw (← same) (report_changes-IsTracking sm sm.base.components v (queue_of v) refl t)
      ]

-- ===== src/Machine/Process/Following.antt =====
-- A state that follows a machine through the events of its queue (`xkb_state_update_event` on what
-- `xkb_machine_process_key` and `xkb_machine_process_synthetic` queue).
use libxkbcommon.Base.{
  ℕ, ◌≡◌, refl, sym, ap, ◌∙◌, arith, true, Bool-cases, Option-cases, inl, inr, ◌⊎◌, ◌≢◌, Option,
  none, some, List, [], ◌∷◌, ◌++◌, has, ◌==◌,
}
use mathlib.Core.List.{reverse, reverse-append}
use libxkbcommon.Keymap.{Keymap, KeyRef}
use libxkbcommon.State.Types.{
  Components, component_changes, controls_component, Direction, Event, key_event, components_change,
  ServerState,
}
use libxkbcommon.State.Filters.Controls.{last_update}
use libxkbcommon.State.Update.Changes.{component_changes-zero}
use libxkbcommon.Machine.{Machine}
use libxkbcommon.Machine.Overlays.{machine_update_overlays}
use libxkbcommon.Machine.Tweaks.{queue_of, undo_tweaks}
use libxkbcommon.Machine.Events.{update_event, follow, follows_events}
use libxkbcommon.Machine.Process.{
  with_queue, add_key_event, has_key_event, undo_if_tweaked, report_changes, break_sticky_keys,
  overlaid, tweak, run_actions, process_known_key,
}

abbrev pub or_else : Option Components → Components → Components
or_else none c = c
or_else (some d) c = d

-- The components that the last update of a queue leaves, `c` if it has none.
abbrev pub left_by : List Event → Components → Components
left_by queue c = or_else (last_update (reverse queue)) c

last_update-append :
    (xs ys : List Event) (c : Components)
    → or_else (last_update (xs ++ ys)) c ≡ or_else (last_update xs) (or_else (last_update ys) c)
unfolding last_update
last_update-append [] ys c = refl
last_update-append (components_change d changed ∷ xs) ys c = refl
last_update-append (key_event d kc ∷ xs) ys c = last_update-append xs ys c

left_by-append :
    (xs ys : List Event) (c : Components) → left_by (xs ++ ys) c ≡ left_by ys (left_by xs c)
left_by-append xs ys c = rw (reverse-append xs ys) (last_update-append (reverse ys) (reverse xs) c)

left_by-cons :
    (e : Event) (l : List Event) (c : Components)
    → left_by (e ∷ l) c ≡ left_by l (left_by (e ∷ []) c)
left_by-cons e l c = left_by-append (e ∷ []) l c

left_by-key_first :
    (d : Direction) (kc : ℕ) (l : List Event) (c : Components)
    → left_by (key_event d kc ∷ l) c ≡ left_by l c
left_by-key_first d kc l c = left_by-cons (key_event d kc) l c ∙ (unfold last_update in refl)

left_by-change_first :
    (new : Components) (changed : ℕ) (l : List Event) (c : Components)
    → left_by (components_change new changed ∷ l) c ≡ left_by l new
left_by-change_first new changed l c =
    left_by-cons (components_change new changed) l c ∙ (unfold last_update in refl)

update_event-change :
    (s : ServerState) (c : Components) (changed : ℕ)
    → follows_events s.mode ≡ true
    → (update_event s (components_change c changed)).0 ≡ record s { components = c }
unfolding update_event
update_event-change s c changed h = rw h refl

update_event-key :
    (s : ServerState) (d : Direction) (kc : ℕ) → (update_event s (key_event d kc)).0 ≡ s
unfolding update_event
update_event-key s d kc = refl

-- A state that follows events ends with the components of the last update.
follow-left_by :
    (l : List Event) (s : ServerState)
    → follows_events s.mode ≡ true
    → (follow s l).components ≡ left_by l s.components
unfolding follow
follow-left_by [] s h = unfold last_update in refl
follow-left_by (key_event d kc ∷ l) s h =
    ap (λ t. (follow t l).components) (update_event-key s d kc)
    ∙ follow-left_by l s h
    ∙ sym (left_by-key_first d kc l s.components)
follow-left_by (components_change c changed ∷ l) s h =
    ap (λ t. (follow t l).components) (update_event-change s c changed h)
    ∙ follow-left_by l (record s { components = c }) h
    ∙ sym (left_by-change_first c changed l s.components)

left_by-key :
    (queue : List Event) (d : Direction) (kc : ℕ) (c : Components)
    → left_by (add_key_event queue d kc) c ≡ left_by queue c
unfolding add_key_event
left_by-key queue d kc c = elim (Bool-cases (has_key_event queue)) [
  | inl t ↦ rw t refl
  | inr f ↦ rw f (left_by-append queue (key_event d kc ∷ []) c ∙ (unfold last_update in refl))
]

left_by-undo :
    (previous : Components) (queue : List Event)
    → left_by (undo_tweaks previous queue) previous ≡ previous
unfolding undo_tweaks
left_by-undo previous queue = elim (Option-cases (last_update (reverse queue))) [
  | inl e ↦ rw (e, undo_tweaks) (rw e refl)
  | inr (c, e) ↦
      rw (e, undo_tweaks)
        (elim (Bool-cases (component_changes previous c == 0)) [
          | inl z ↦ rw (z, e) (sym ((component_changes-zero previous c).0 (ground arith)))
          | inr nz ↦ rw nz (left_by-append queue _ previous ∙ (unfold last_update in refl))
        ])
]

module _ (keymap : Keymap) where
  update_overlays-base : (sm : Machine) → (machine_update_overlays keymap sm).base ≡ sm.base
  unfolding machine_update_overlays
  update_overlays-base sm = refl

  -- The queue that is reported leaves the state's components, if the queue before leaves those that
  -- the event started from or some component has changed.
  report_changes-left_by :
      (sm : Machine) (previous : Components) (s : ServerState) (queue : List Event)
      → (component_changes previous s.components ≢ 0) ⊎ (left_by queue previous ≡ previous)
      → left_by (queue_of (report_changes keymap sm previous s queue).base) previous
        ≡ (report_changes keymap sm previous s queue).base.components
  unfolding report_changes
  report_changes-left_by sm previous s queue h =
      let changed : ℕ = component_changes previous s.components in
      let last : left_by (queue ++ (components_change s.components changed ∷ [])) previous
          ≡ s.components =
        left_by-append queue _ previous ∙ (unfold last_update in refl) in
      elim (Bool-cases (changed == 0)) [
        | inr nz ↦ rw nz (elim (Bool-cases (has changed controls_component)) [
          | inl c ↦
              rw
                (
                  c,
                  update_overlays-base (record sm {
                    base = with_queue s (queue ++ (components_change s.components changed ∷ []));
                  }),
                )
                last
          | inr f ↦ rw f last
        ])
        | inl z ↦
            let same : previous ≡ s.components =
              (component_changes-zero previous s.components).0 (ground arith) in
            rw z (elim h [ inl differs ↦ absurd (differs (ground arith)) | inr kept ↦ kept ∙ same ])
      ]

  report_changes-components :
      (sm : Machine) (previous : Components) (s : ServerState) (queue : List Event)
      → (report_changes keymap sm previous s queue).base.components ≡ s.components
  unfolding report_changes
  report_changes-components sm previous s queue =
      let changed : ℕ = component_changes previous s.components in
      elim (Bool-cases (changed == 0)) [
        | inl z ↦ rw z refl
        | inr nz ↦ rw nz (elim (Bool-cases (has changed controls_component)) [
          | inl c ↦
              rw
                (
                  c,
                  update_overlays-base (record sm {
                    base = with_queue s (queue ++ (components_change s.components changed ∷ []));
                  }),
                )
                refl
          | inr f ↦ rw f refl
        ])
      ]

  -- The same after the tweaks are undone.
  undone-left_by :
      (tweaked : Option ℕ) (sm : Machine) (previous : Components) (s : ServerState)
      (queue : List Event)
      → ((i : ℕ) × (tweaked ≡ some i))
        ⊎ ((component_changes previous s.components ≢ 0) ⊎ (left_by queue previous ≡ previous))
      → (component_changes previous s.components ≢ 0)
        ⊎ (left_by (undo_if_tweaked tweaked previous queue) previous ≡ previous)
  undone-left_by none sm previous s queue (inl (i, e)) = absurd (ground arith)
  undone-left_by none sm previous s queue (inr h) = h
  undone-left_by (some i) sm previous s queue h = inr (left_by-undo previous queue)

  -- What the actions of the key queue, and the position of the tweaks' event.
  abbrev pub actions_queue : Machine → KeyRef → Direction → List Event × Option ℕ
  actions_queue sm key d =
      let o = overlaid keymap sm key d in
      let t =
        tweak keymap o.0 sm.base.components (break_sticky_keys keymap (with_queue sm.base []) d)
          o.1 in
      (queue_of (run_actions keymap t.0 o.1 d), t.1)

  -- The reason why a follower keeps up.
  abbrev pub KeepsUp : Machine → KeyRef → Direction → Type 0
  KeepsUp sm key d =
      ((i : ℕ) × ((actions_queue sm key d).1 ≡ some i))
      ⊎ ((component_changes sm.base.components (process_known_key keymap sm key d).base.components
            ≢ 0)
          ⊎ (last_update (reverse (actions_queue sm key d).0) ≡ none))

  known_key-left_by :
      (sm : Machine) (key : KeyRef) (d : Direction)
      → KeepsUp sm key d
      → left_by (queue_of (process_known_key keymap sm key d).base) sm.base.components
        ≡ (process_known_key keymap sm key d).base.components
  unfolding process_known_key
  known_key-left_by sm key d reason =
      let previous : Components = sm.base.components in
      let o = overlaid keymap sm key d in
      let t = tweak keymap o.0 previous (break_sticky_keys keymap (with_queue sm.base []) d) o.1 in
      let u = run_actions keymap t.0 o.1 d in
      let queue = add_key_event (queue_of u) d o.1.key.key_code in
      let same = report_changes-components o.0 previous u (undo_if_tweaked t.1 previous queue) in
      report_changes-left_by o.0 previous u (undo_if_tweaked t.1 previous queue) (
        undone-left_by t.1 o.0 previous u queue (elim reason [
          | inl tweaked ↦ inl tweaked
          | inr (inl differs) ↦ inr (inl (λ e. differs (rw same e)))
          | inr (inr quiet) ↦
              inr (inr (left_by-key (queue_of u) d o.1.key.key_code previous ∙ rw quiet refl))
        ]))

  -- A client state that follows events and starts with the components of the machine ends with
  -- those of the machine after a key event, once it is handed the whole queue: where some tweak
  -- was made, where the event changes some component, or where the actions of the key queue no
  -- update.
  pub process_known_key-follows :
      (sm : Machine) (key : KeyRef) (d : Direction) (client : ServerState)
      → follows_events client.mode ≡ true
      → client.components ≡ sm.base.components
      → KeepsUp sm key d
      → (follow client (queue_of (process_known_key keymap sm key d).base)).components
        ≡ (process_known_key keymap sm key d).base.components
  process_known_key-follows sm key d client follows start reason =
      let queue = queue_of (process_known_key keymap sm key d).base in
      follow-left_by queue client follows
      ∙ ap (left_by queue) start
      ∙ known_key-left_by sm key d reason

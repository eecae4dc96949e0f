-- ===== src/Tests/Machines.antt =====
-- The theorems on machines, applied. The keymap is the example's in the second format, with an
-- overlay that puts the latch key in the place of the letter.
pub mod Overlays
use libxkbcommon.Base.{
  ℕ, zero, suc, ◌+◌, ◌-◌, ◌<◌, ◌≡◌, ◌≢◌, ◌⊎◌, refl, sym, arith, Bool, has-pow, true, false, Option,
  none, some, Option-cases, inl, inr, List, [], ◌∷◌, ◌==◌, if◌then◌else◌, get_elem?, testbit,
}
use libxkbcommon.Keymap.{Key, KeyRef, Keymap, key_at, layout_invalid}
use libxkbcommon.State.Types.{
  Direction, up, down, repeated, Event, key_event, server_companion, ServerState,
}
use libxkbcommon.State.Update.{state_init}
use libxkbcommon.State.Update.Invariant.{IsCompiled}
use libxkbcommon.Machine.{ModsMapping, MachineBuilder, Machine, OverlaidKey}
use libxkbcommon.Machine.Builder.{
  success, builder_new, remap_mods, put_mapping, remap_shortcut_layout,
}
use libxkbcommon.Machine.Builder.Remap.{
  target_of, remapped_target, IsMap, IsBuilt, BuilderCall, mods, shortcut_layout, builder_call,
  remap_mods-maps, builder_call-refused,
}
use libxkbcommon.Machine.Config.{
  cmp_mod_masks, machine_new, machine_set_mods, machine_set_shortcuts, valid_mappings,
  sort_mappings, insert_mapping, popcount, sources_mask, trim_count, copy_targets,
}
use libxkbcommon.Machine.Config.Mappings.{PartsLater}
use libxkbcommon.Machine.Config.Remaps.{remap_by, machine_new-remaps}
use libxkbcommon.Machine.Process.{machine_process_key}
use libxkbcommon.Machine.Process.Invariant.{WordArray, IsReadyMachine}
use libxkbcommon.Machine.Process.Tracking.{IsTracking}
use libxkbcommon.Machine.Process.Calls.{
  MachineCall, key, synthetic, machine_calls, reachable-IsReadyMachine, reachable-IsTracking,
}
use libxkbcommon.Machine.Tweaks.{do_remap_modifiers}
use libxkbcommon.Machine.Events.{EventBatch}
use libxkbcommon.Machine.Events.Drain.{drain, drain-queue}
use libxkbcommon.Tests.Example.{
  keymap, shift_key, letter_key, latch_key, WordKeys, WordKeys-get_elem?, IsCompiled-of_words,
  key_get_actions-WordMasks,
}
use libxkbcommon.Tests.States.{latch_update}

abbrev pub overlaid_letter : Key
overlaid_letter = record letter_key { overlays = 1; overlays_inline = true; overlay_key = 6 }

abbrev pub machine_keymap : Keymap
machine_keymap = record keymap {
  v1_format = false;
  keys = shift_key ∷ overlaid_letter ∷ latch_key ∷ [];
}

machine_keymap_words : WordKeys machine_keymap.keys
machine_keymap_words = (
  (((omega arith, tt), tt), tt),
  (((tt, (tt, tt)), tt), ((((omega arith, (omega arith, tt)), tt), tt), tt)),
)

pub machine_keymap-IsCompiled : IsCompiled machine_keymap
machine_keymap-IsCompiled =
    IsCompiled-of_words machine_keymap (omega arith)
      (
        omega arith,
        (
          omega arith,
          (
            omega arith,
            (
              omega arith,
              (omega arith, (omega arith, (omega arith, (omega arith, (omega arith, tt))))),
            ),
          ),
        ),
      )
      machine_keymap_words refl

pub machine_keymap-WordArray : WordArray machine_keymap
machine_keymap-WordArray address target e =
    elim (Option-cases (get_elem? machine_keymap.keys (address - 4))) [
      | inl f ↦ absurd (unfold key_at in ground arith)
      | inr (found, f) ↦
          let same : found ≡ target.key = unfold key_at in ground arith in
          rw (← same) (
            key_get_actions-WordMasks found
              (WordKeys-get_elem? machine_keymap.keys (address - 4) machine_keymap_words f))
    ]

-- A builder that remaps Control and Mod1 together to Lock, and Control alone to Shift, in this
-- order of the calls.
abbrev new_builder : MachineBuilder
new_builder = record {
  keymap = machine_keymap;
  a11y_affect = 0;
  a11y_flags = 0;
  mods = [];
  shortcuts_mask = 0;
  shortcuts_targets = [];
}

abbrev pub builder : MachineBuilder
builder = record new_builder {
  mods = record { source = 4; target = 1 } ∷ record { source = 12; target = 2 } ∷ [];
  shortcuts_mask = 8;
  shortcuts_targets = 1 ∷ [];
}

built :
    builder_call (builder_call new_builder (mods 4 1)).0 (mods 12 2)
    ≡ (record builder { shortcuts_mask = 0; shortcuts_targets = [] }, success)
unfolding remap_mods put_mapping
built = refl

builder-IsBuilt : IsBuilt builder
builder-IsBuilt = record {
  map = (omega arith, omega arith, refl, (omega arith, omega arith, refl, tt));
  canonical = (refl, refl, omega arith, (refl, refl, omega arith, tt));
}

remap_mods-maps_example :
    IsMap (remap_mods builder 4 0).0.mods
    × ((q : ℕ) → target_of (remap_mods builder 4 0).0.mods q ≡ remapped_target builder.mods 4 0 q)
remap_mods-maps_example =
    remap_mods-maps builder 4 0 builder-IsBuilt.map (unfold remap_mods put_mapping in refl)

builder_call-refused_example : (builder_call builder (shortcut_layout 0 2)).0 ≡ builder
builder_call-refused_example =
    builder_call-refused builder (shortcut_layout 0 2)
      (λ e. absurd (unfold remap_shortcut_layout in ground arith))

machine_new-remaps_example :
    ((q : ℕ) → target_of (machine_new builder).mappings q ≡ target_of builder.mods q)
    × PartsLater (machine_new builder).mappings
    × ((s : ServerState) (key : Key)
        → do_remap_modifiers builder.keymap (machine_new builder) s key
          ≡ remap_by builder.keymap (machine_new builder).mappings s key)
machine_new-remaps_example = machine_new-remaps builder builder-IsBuilt

-- The larger combination comes first.
sorted :
    (machine_new builder).mappings
    ≡ (record { source = 12; target = 2 } ∷ record { source = 4; target = 1 } ∷ [])
unfolding machine_new machine_set_mods machine_set_shortcuts valid_mappings sort_mappings
    insert_mapping cmp_mod_masks popcount sources_mask trim_count copy_targets
sorted = refl

abbrev pub typed : List MachineCall
typed =
    key 10 down
    ∷ key 11 down
    ∷ synthetic none (some latch_update)
    ∷ key 11 up
    ∷ key 12 down
    ∷ key 12 up
    ∷ key 10 up
    ∷ []

reachable-IsReadyMachine_example :
    IsReadyMachine machine_keymap 0 (machine_calls machine_keymap (machine_new builder) typed)
reachable-IsReadyMachine_example =
    reachable-IsReadyMachine builder typed machine_keymap-IsCompiled machine_keymap-WordArray
      (omega arith, tt) (omega arith)

reachable-IsTracking_example : IsTracking (machine_calls machine_keymap (machine_new builder) typed)
reachable-IsTracking_example = reachable-IsTracking builder typed refl

drain-queue_example :
    drain 3 (record { next = 1; queue = key_event down 10 ∷ key_event up 10 ∷ [] })
    ≡ some (key_event up 10 ∷ [])
drain-queue_example =
    drain-queue 3 (record { next = 1; queue = key_event down 10 ∷ key_event up 10 ∷ [] })
      (omega arith) (omega arith)

-- ===== src/Machine/Builder.antt =====
-- The options of a machine (`xkb_machine_builder_*` of src/state.c). An operation returns its error
-- code with the builder, as the source changes its argument.
pub mod Remap
use libxkbcommon.Base.{
  ℕ, ◌+◌, ◌-◌, Bool, not, ◌&&◌, ◌||◌, Option, none, some, List, [], ◌∷◌, ◌++◌, ◌==◌, leb,
  if◌then◌else◌, length, set, replicate, bit_and, bit_or, has, clear, not32,
}
use libxkbcommon.Keymap.{Keymap, layout_invalid}
use libxkbcommon.Machine.{ModsMapping, MachineBuilder}

-- The values of `enum xkb_error_code` that the builder returns.
pub data BuilderError : Type 0 where
  success unsupported_a11y_flags unsupported_modifier_mask unsupported_layout_index : BuilderError

-- `xkb_machine_builder_new`: no flag is defined yet, so that any is refused.
unfoldable pub builder_new : Keymap → ℕ → Option MachineBuilder
builder_new keymap flags =
    if not (flags == 0)
    then none
    else some (record {
      keymap = keymap;
      a11y_affect = 0;
      a11y_flags = 0;
      mods = [];
      shortcuts_mask = 0;
      shortcuts_targets = [];
    })

-- `~XKB_A11Y_FLAGS_VALUES`.
abbrev pub invalid_a11y_flags : ℕ
invalid_a11y_flags = not32 7

-- `xkb_machine_builder_update_a11y_flags`.
unfoldable pub update_a11y_flags : MachineBuilder → ℕ → ℕ → MachineBuilder × BuilderError
update_a11y_flags b affect flags =
    if has affect invalid_a11y_flags || has flags invalid_a11y_flags
    then (b, unsupported_a11y_flags)
    else (
      record b {
        a11y_affect = bit_or b.a11y_affect affect;
        a11y_flags = bit_or (clear b.a11y_flags affect) (bit_and flags affect);
      },
      success,
    )

-- Whether a mask has a bit outside the canonical modifiers of the keymap.
abbrev pub is_foreign : Keymap → ℕ → Bool
is_foreign keymap mask = has mask (not32 keymap.canonical_state_mask)

-- The loop over the mappings and what follows it: the mapping of the source modifiers is updated,
-- removed or appended.
unfoldable pub put_mapping : List ModsMapping → ℕ → ℕ → List ModsMapping
put_mapping [] source target =
    if target == 0 then [] else record { source = source; target = target } ∷ []
put_mapping (m ∷ rest) source target =
    let next = put_mapping rest source target in
    if m.source == source
    then (if target == 0 then rest else record m { target = target } ∷ rest)
    else m ∷ next

-- `xkb_machine_builder_remap_mods`.
unfoldable pub remap_mods : MachineBuilder → ℕ → ℕ → MachineBuilder × BuilderError
remap_mods b source target =
    if source == 0
    then (if target == 0 then (record b { mods = [] }, success) else (b, unsupported_modifier_mask))
    else if is_foreign b.keymap source || is_foreign b.keymap target
    then (b, unsupported_modifier_mask)
    else (record b { mods = put_mapping b.mods source target }, success)

-- `xkb_machine_builder_update_shortcut_mods`.
unfoldable pub update_shortcut_mods : MachineBuilder → ℕ → ℕ → MachineBuilder × BuilderError
update_shortcut_mods b affect mask =
    if is_foreign b.keymap affect || is_foreign b.keymap mask
    then (b, unsupported_modifier_mask)
    else (
      record b { shortcuts_mask = bit_or (clear b.shortcuts_mask affect) (bit_and mask affect) },
      success,
    )

-- The array resized to hold `source`, its new entries invalid.
unfoldable pub grow_targets : List ℕ → ℕ → List ℕ
grow_targets targets source =
    if leb (length targets) source
    then targets ++ replicate (source + 1 - length targets) layout_invalid
    else targets

-- `xkb_machine_builder_remap_shortcut_layout`.
unfoldable pub remap_shortcut_layout : MachineBuilder → ℕ → ℕ → MachineBuilder × BuilderError
remap_shortcut_layout b source target =
    let targets = b.shortcuts_targets in
    if leb b.keymap.num_groups source || leb b.keymap.num_groups target
    then (b, unsupported_layout_index)
    else if leb (length targets) source && (target == source)
    then (b, success)
    else (
      record b {
        shortcuts_targets =
            set (grow_targets targets source) source
              (if source == target then layout_invalid else target);
      },
      success,
    )

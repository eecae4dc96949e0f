-- ===== src/Machine.antt =====
-- The server state machine of src/state.c (`struct xkb_machine`): its data, one child module for
-- each group of its functions.
pub mod Builder
pub mod Config
pub mod Overlays
pub mod Tweaks
pub mod Events
pub mod Process
use libxkbcommon.Base.{ℕ, Bool, Option, List}
use libxkbcommon.Keymap.{Keymap, KeyRef}
use libxkbcommon.State.Types.{ServerState}

-- `struct machine_mods_mapping`.
pub record ModsMapping : Type 0 where
  pub source : ℕ
  pub target : ℕ

-- `struct xkb_machine_builder`, the flags, which have no value but 0, apart.
pub record MachineBuilder : Type 0 where
  pub keymap : Keymap
  pub a11y_affect : ℕ
  pub a11y_flags : ℕ
  pub mods : List ModsMapping
  pub shortcuts_mask : ℕ
  pub shortcuts_targets : List ℕ

-- `struct xkb_overlaid_key`. `old` is the address of the source key, 0 for `NULL`; the count is
-- the number of presses that are still to be released.
pub record OverlaidKey : Type 0 where
  pub old : ℕ
  pub new : KeyRef
  pub refcnt : ℕ

-- `struct xkb_machine`; `targets` is `none` for `NULL`.
pub record Machine : Type 0 where
  pub base : ServerState
  pub overlays_enabled : ℕ
  pub overlays_order : ℕ
  pub overlaid_keys : List OverlaidKey
  pub mods_mask : ℕ
  pub mappings : List ModsMapping
  pub shortcuts_mask : ℕ
  pub targets : Option (List ℕ)

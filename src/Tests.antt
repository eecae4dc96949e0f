-- ===== src/Tests.antt =====
-- A small keymap, and the theorems applied to it.
pub mod Example
pub mod Keymaps
pub mod States
pub mod Atoms
pub mod Compose
pub mod Utf8
pub mod Latches
pub mod Machines

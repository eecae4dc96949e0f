-- ===== src/State.antt =====
-- The keyboard state of src/state.c, one module for each group of its functions.
pub mod Types
pub mod Actions
pub mod Filters
pub mod Apply
pub mod Derived
pub mod Latches
pub mod Update
pub mod Query
pub mod Frame

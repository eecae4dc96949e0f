-- ===== src/State/Filters.antt =====
-- The handlers `xkb_filter_*_new` and `xkb_filter_*_func` of src/state.c. A handler works on a copy
-- of its filter, which the caller writes back: no other code changes the filter meanwhile, since a
-- new filter only takes a free slot.
pub mod Groups
pub mod Modifiers
pub mod Controls

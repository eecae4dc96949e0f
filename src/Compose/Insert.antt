-- ===== src/Compose/Insert.antt =====
-- Inserting a sequence: the path to its result afterwards, and what insertion leaves alone
-- (`add_production`).
pub mod Grow
pub mod Round
pub mod Loop
pub mod Root

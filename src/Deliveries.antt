-- ===== src/Deliveries.antt =====
-- webhook_store.py: the deliveries on record, keyed by their id.
pub mod Defs
pub mod Cap
pub mod Recording
pub mod Fresh
pub mod Restart

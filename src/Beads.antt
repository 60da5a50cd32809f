-- ===== src/Beads.antt =====
-- beads_loop.py: the background loop over the tasks ("beads") of every project.
pub mod State
pub mod Retries
pub mod Halting
pub mod GivingUp
pub mod View
pub mod Select
pub mod Context
pub mod Status
pub mod Spawn

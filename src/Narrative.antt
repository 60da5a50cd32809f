-- ===== src/Narrative.antt =====
-- The typed events of a run's stream and the narrative that the dashboard shows of a run.
pub mod Events
pub mod Timeline
pub mod Stats
pub mod Status
pub mod Grouping
pub mod Ended
pub mod Consumers

-- ===== src/Dashboard.antt =====
-- dashboard.py: what the dashboard reads of run logs, beads and the loop.
pub mod Tail
pub mod Cache
pub mod Beads
pub mod Counting
pub mod Runs
pub mod Stories
pub mod Graph
pub mod Agreement
pub mod Pages

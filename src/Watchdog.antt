-- ===== src/Watchdog.antt =====
-- watchdog.py: the idle watchdog of a dispatched run.
pub mod Signals
pub mod Growth
pub mod Asks
pub mod Loop
pub mod Tunables

-- ===== src/App.antt =====
-- app.py: the webhook endpoint.
pub mod Handler
pub mod Guards
pub mod Branch
pub mod Dispatch
pub mod Confined

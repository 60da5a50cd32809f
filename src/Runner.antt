-- ===== src/Runner.antt =====
-- runner.py: the identity of a dispatch and the end of its run.
pub mod Slug
pub mod Stream
pub mod Completion
pub mod Agreement
pub mod Manifest
pub mod Comments
pub mod Redacted
pub mod Start
pub mod Streaming

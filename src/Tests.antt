-- ===== src/Tests.antt =====
-- Concrete inputs on which the theorems of the other modules apply.
mod Webhook
mod Gate
mod Runs
mod Loops
mod Stores
mod Reports
mod Feeds
mod Choices
mod Branches
mod Narratives
mod Tails
mod Views
mod Workspaces
mod Tasks
mod Tokens
mod Simulator
mod Comments
mod Dispatches
mod Attempts
mod Streams

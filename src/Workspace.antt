-- ===== src/Workspace.antt =====
-- workspace.py: the directories of the projects, their clones and their worktrees.
pub mod Machine
pub mod Projects
pub mod Excluded
pub mod Worktrees

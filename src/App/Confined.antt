-- ===== src/App/Confined.antt =====
-- app.py, _safe_dispatch: the changes of the disk that the background task may make.
pub mod Task
use orchestrator_service.Prelude.{
  Text, codes, Bool, true, false, ◌≡◌, refl, Option, none, some, List, [], ◌∷◌, ◌++◌, is_empty,
  same, Bool-cases, ◌⊎◌, inl, inr, All, member, join_lines, if◌then◌else◌,
}
use orchestrator_service.Json.{Json, Py, ok, raise}
use orchestrator_service.Workspace.Machine.{
  Machine, GitEnd, done, failed, no_git, Ran, returned, raised, ◌>>=◌, checked, join_path, dashed,
}
use orchestrator_service.Workspace.Projects.{
  exclude_line, is_within, exclude_path, info_dir, excluded_lines, ensure_worktrees_excluded,
  run_all, sync_project, has_git, init_if_needed, clear_path, clone, project_workspace_path,
  init_project_workspace, ensure_project_from_clone,
}
use orchestrator_service.App.Handler.{matches_slug}
use orchestrator_service.App.Branch.{IsSafe, safe_branch, safe_branch-IsSafe}
use orchestrator_service.App.Dispatch.{
  Source, state_after, TaskEnd, no_dispatch, task_failed, dispatch, safe_dispatch,
}

-- The commands of git that are run in the directory of a project.
pub data Command : List Text → Type 0 where
  init : Command (codes "init" ∷ codes "--initial-branch=main" ∷ [])
  fetch : Command (codes "fetch" ∷ codes "origin" ∷ [])
  checkout : (branch : Text) → IsSafe branch → Command (codes "checkout" ∷ branch ∷ [])
  pull : (branch : Text) → IsSafe branch → Command (codes "pull" ∷ codes "origin" ∷ branch ∷ [])

-- An https address with a host.
pub record IsHttps (urlparse : Text → Option (Text × Text)) (url : Text) : Type 0 where
  pub netloc : Text
  pub parsed : urlparse url ≡ some (codes "https", netloc)
  pub has_host : is_empty netloc ≡ false

-- A change of the disk that concerns the project whose directory is `root`.
pub data Change {W : Type 0} (m : Machine W) (urlparse : Text → Option (Text × Text))
    (base root : Text) (w : W) : W → Type 0 where
  base_made : Change m urlparse base root w (m.make_dirs base w)
  root_made : Change m urlparse base root w (m.make_dirs root w)
  info_made : Change m urlparse base root w (m.make_dirs (info_dir m root) w)
  exclude_written :
      (t : Text) → Change m urlparse base root w (m.write_text (exclude_path m root) t w)
  root_removed : Change m urlparse base root w (m.remove_tree root w)
  cloned :
      (branch url : Text)
      → IsSafe branch
      → IsHttps urlparse url
      → Change m urlparse base root w
          (m.git [] (codes "clone" ∷ codes "--branch" ∷ branch ∷ url ∷ root ∷ []) w).1
  ran : (args : List Text) → Command args → Change m urlparse base root w (m.git root args w).1

pub data Changes {W : Type 0} (m : Machine W) (urlparse : Text → Option (Text × Text))
    (base root : Text) (w : W) : W → Type 0 where
  unchanged : Changes m urlparse base root w w
  changed :
      {v u : W}
      → Changes m urlparse base root w v
      → Change m urlparse base root v u
      → Changes m urlparse base root w u

module _ {W : Type 0} {m : Machine W} {urlparse : Text → Option (Text × Text)}
    {base root : Text} where
  one : {w v : W} → Change m urlparse base root w v → Changes m urlparse base root w v
  one c = changed unchanged c

  infixl 5 ◌>then>◌
  pub ◌>then>◌ :
      {w v u : W}
      → Changes m urlparse base root w v
      → Changes m urlparse base root v u
      → Changes m urlparse base root w u
  before >then> unchanged = before
  before >then> changed cs c = changed (before >then> cs) c

module _ {W : Type 0} (m : Machine W) (urlparse : Text → Option (Text × Text))
    (base root : Text) where
  excluded-Changes : (w : W) → Changes m urlparse base root w (ensure_worktrees_excluded m root w)
  unfolding ensure_worktrees_excluded
  excluded-Changes w = elim (Bool-cases (member exclude_line (excluded_lines m root w))) [
    | inl e ↦ rw e unchanged
    | inr e ↦ rw e (one info_made >then> one (exclude_written _))
  ]

  -- The command, and the exclude file behind it, if it did not fail.
  checked-Changes :
      (w : W) (g : GitEnd × W)
      → Change m urlparse base root w g.1
      → Changes m urlparse base root w (
          state_after (checked g >>= (λ out v. returned root (ensure_worktrees_excluded m root v))))
  unfolding checked state_after
  checked-Changes w (done out, v) h = one h >then> excluded-Changes v
  checked-Changes w (failed, v) h = one h
  checked-Changes w (no_git, v) h = one h

  run_step-Changes :
      (args : List Text) (more : List (List Text))
      → Command args
      → ((v : W) → Changes m urlparse base root v (run_all m root more v))
      → (w : W) (end : GitEnd) → (m.git root args w).0 ≡ end
      → Changes m urlparse base root w (run_all m root (args ∷ more) w)
  unfolding run_all
  run_step-Changes args more c rest w (done out) e =
      rw (run_all, e) (one (ran args c) >then> rest (m.git root args w).1)
  run_step-Changes args more c rest w failed e = rw (run_all, e) (one (ran args c))
  run_step-Changes args more c rest w no_git e = rw (run_all, e) (one (ran args c))

  run_all-Changes :
      (commands : List (List Text))
      → All Command commands
      → (w : W) → Changes m urlparse base root w (run_all m root commands w)
  unfolding run_all
  run_all-Changes [] cs w = unchanged
  run_all-Changes (args ∷ more) (c, cs) w =
      run_step-Changes args more c (run_all-Changes more cs) w (m.git root args w).0 refl

  pub sync_project-Changes :
      (branch : Text)
      → IsSafe branch
      → (w : W) → Changes m urlparse base root w (sync_project m root branch w)
  unfolding sync_project
  sync_project-Changes branch s =
      run_all-Changes
        ((codes "fetch" ∷ codes "origin" ∷ [])
          ∷ (codes "checkout" ∷ branch ∷ [])
          ∷ (codes "pull" ∷ codes "origin" ∷ branch ∷ [])
          ∷ [])
        (fetch, (checkout branch s, (pull branch s, tt)))

  init_if_needed-Changes :
      (w : W)
      → Changes m urlparse base root w (
          state_after (
            init_if_needed m root w
            >>= (λ out v. returned root (ensure_worktrees_excluded m root v))))
  unfolding init_if_needed state_after
  init_if_needed-Changes w = elim (Bool-cases (has_git m root w)) [
    | inl e ↦ rw e (excluded-Changes w)
    | inr e ↦ rw e (checked-Changes w _ (ran _ init))
  ]

  clear_path-Changes : (w : W) → Changes m urlparse base root w (clear_path m root w)
  unfolding clear_path
  clear_path-Changes w = elim (Bool-cases (m.path_exists root w)) [
    | inl e ↦ rw e (one root_removed)
    | inr e ↦ rw e unchanged
  ]

  -- For a slug whose directory is `root`.
  pub init_project_workspace-Changes :
      (slug : Text) (w : W)
      → project_workspace_path m base slug w ≡ returned root w
      → Changes m urlparse base root w (state_after (init_project_workspace m base slug w))
  unfolding init_project_workspace
  init_project_workspace-Changes slug w e =
      rw e (one root_made >then> init_if_needed-Changes (m.make_dirs root w))

  pub ensure_project_from_clone-Changes :
      (slug url branch : Text) (w : W)
      → project_workspace_path m base slug w ≡ returned root w
      → IsHttps urlparse url
      → IsSafe branch
      → Changes m urlparse base root w
          (state_after (ensure_project_from_clone m base slug url branch w))
  unfolding ensure_project_from_clone clone state_after
  ensure_project_from_clone-Changes slug url branch w e h s = elim (Bool-cases (has_git m root w)) [
    | inl there ↦ rw (e, there) (excluded-Changes w)
    | inr none_there ↦
        rw (e, none_there)
          (one base_made
            >then> clear_path-Changes (m.make_dirs base w)
            >then> checked-Changes _ _ (cloned branch url s h))
  ]

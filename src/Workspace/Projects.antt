-- ===== src/Workspace/Projects.antt =====
-- workspace.py: where the workspace of a project is, and how it is made and brought up to date.
use orchestrator_service.Prelude.{
  Text, codes, Bool, not, ◌||◌, ◌&&◌, none, some, List, [], ◌∷◌, ◌++◌, if◌then◌else◌, join_lines,
  same, starts_with, member, sorted,
}
use orchestrator_service.Runner.Stream.{splitlines}
use orchestrator_service.Workspace.Machine.{
  done, failed, no_git, Machine, escapes_base, Ran, returned, raised, ◌>>=◌, join_path, dashed,
  checked,
}

unfoldable pub exclude_line : Text
exclude_line = codes ".worktrees/"

-- {p for p in ps if test(p)}, in their order
unfoldable pub keep : (Text → Bool) → List Text → List Text
keep test [] = []
keep test (t ∷ ts) = let rest = keep test ts in if test t then t ∷ rest else rest

module _ {W : Type 0} (m : Machine W) where
  -- _assert_within_base: the test, and its exception.
  unfoldable pub is_within : Text → Text → W → Bool
  is_within base path w =
      same (m.real_path path w) (m.real_path base w)
      || starts_with (m.real_path base w ++ codes "/") (m.real_path path w)

  unfoldable pub project_workspace_path : Text → Text → W → Ran Text W
  unfolding is_within join_path dashed
  project_workspace_path base slug w =
      let path = join_path base (dashed slug) in
      if is_within base path w then returned path w else raised escapes_base w

  is_project : Text → W → Text → Bool
  unfolding join_path
  is_project base w entry =
      not (starts_with (codes ".") entry)
      && (m.is_dir (join_path base entry) w
          && m.is_dir (join_path (join_path base entry) (codes ".beads")) w)

  -- The warning on the old layout is only logged.
  unfoldable pub discover_projects : Text → W → List Text
  unfolding is_project keep
  discover_projects base w =
      if m.is_dir base w then sorted (keep (is_project base w) (m.list_dir base w)) else []

  unfoldable pub exclude_path : Text → Text
  unfolding join_path
  exclude_path root =
      join_path (join_path (join_path root (codes ".git")) (codes "info")) (codes "exclude")

  -- The directory of the exclude file.
  unfoldable pub info_dir : Text → Text
  unfolding join_path
  info_dir root = join_path (join_path root (codes ".git")) (codes "info")

  -- What is read of the exclude file: nothing where it is missing or cannot be read.
  unfoldable pub excluded_lines : Text → W → List Text
  excluded_lines root w =
      if m.is_file (exclude_path root) w
      then elim (m.read_text (exclude_path root) w) [ none ↦ [] | some t ↦ splitlines t ]
      else []

  unfoldable pub ensure_worktrees_excluded : Text → W → W
  ensure_worktrees_excluded root w =
      let lines = excluded_lines root w in
      if member exclude_line lines
      then w
      else m.write_text (exclude_path root) (join_lines (lines ++ exclude_line ∷ []) ++ codes "\n")
          (m.make_dirs (info_dir root) w)

  unfoldable pub has_git : Text → W → Bool
  unfolding join_path
  has_git root = m.is_dir (join_path root (codes ".git"))

  unfoldable pub init_if_needed : Text → W → Ran Text W
  unfolding has_git checked
  init_if_needed root w =
      if has_git root w
      then returned root w
      else checked (m.git root (codes "init" ∷ codes "--initial-branch=main" ∷ []) w)

  unfoldable pub init_project_workspace : Text → Text → W → Ran Text W
  unfolding project_workspace_path init_if_needed ensure_worktrees_excluded
  init_project_workspace base slug w = project_workspace_path base slug w >>= (λ root v.
      init_if_needed root (m.make_dirs root v)
      >>= (λ out u. returned root (ensure_worktrees_excluded root u)))

  unfoldable pub clear_path : Text → W → W
  clear_path root w = if m.path_exists root w then m.remove_tree root w else w

  unfoldable pub clone : Text → Text → Text → Text → W → Ran Text W
  unfolding clear_path checked ensure_worktrees_excluded
  clone base root url branch w =
      checked (
        m.git [] (codes "clone" ∷ codes "--branch" ∷ branch ∷ url ∷ root ∷ [])
          (clear_path root (m.make_dirs base w)))
      >>= (λ out v. returned root (ensure_worktrees_excluded root v))

  unfoldable pub ensure_project_from_clone : Text → Text → Text → Text → W → Ran Text W
  unfolding project_workspace_path has_git clone ensure_worktrees_excluded
  ensure_project_from_clone base slug url branch w =
      project_workspace_path base slug w >>= (λ root v.
        if has_git root v
        then returned root (ensure_worktrees_excluded root v)
        else clone base root url branch v)

  -- The commands up to the first that fails.
  unfoldable pub run_all : Text → List (List Text) → W → W
  run_all root [] w = w
  run_all root (args ∷ more) w =
      let (end, v) = m.git root args w in
      elim end [ done out ↦ run_all root more v | failed ↦ v | no_git ↦ v ]

  unfoldable pub sync_project : Text → Text → W → W
  unfolding run_all
  sync_project root branch = run_all root (
      (codes "fetch" ∷ codes "origin" ∷ [])
      ∷ (codes "checkout" ∷ branch ∷ [])
      ∷ (codes "pull" ∷ codes "origin" ∷ branch ∷ [])
      ∷ [])

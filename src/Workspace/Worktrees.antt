-- ===== src/Workspace/Worktrees.antt =====
-- workspace.py: the worktree of a bead, its branch and its pull request.
use orchestrator_service.Prelude.{
  Text, codes, Bool, true, false, ◌≡◌, refl, Option, none, some, [], ◌∷◌, ◌++◌, is_empty, strip,
  if◌then◌else◌, not, ◌&&◌, same, starts_with,
}
use orchestrator_service.Workspace.Machine.{
  GitEnd, done, failed, no_git, Machine, command_failed, Ran, returned, raised, ◌>>=◌, join_path,
  dashed, checked,
}

-- What a command leaves, where its end is passed over.
unfoldable pub ignored : {W : Type 0} → GitEnd × W → W
ignored (end, w) = w

unfoldable pub branch_name : Text → Text
branch_name bead_id = codes "task/" ++ bead_id

unfoldable pub worktree_path : Text → Text → Text
unfolding join_path dashed
worktree_path root bead_id = join_path (join_path root (codes ".worktrees")) (dashed bead_id)

-- The branch that `git symbolic-ref` prints, or "main".
unfoldable pub detected : GitEnd → Text
detected (done out) = if is_empty (strip out) then codes "main" else strip out
detected failed = codes "main"
detected no_git = codes "main"

module _ {W : Type 0} (m : Machine W) where
  unfoldable pub detect_default_branch : Text → W → Text × W
  unfolding detected
  detect_default_branch root w =
      let (end, v) = m.git root (codes "symbolic-ref" ∷ codes "--short" ∷ codes "HEAD" ∷ []) w in
      (detected end, v)

  unfoldable pub base_branch_of : Text → Option Text → W → Text × W
  unfolding detect_default_branch
  base_branch_of root none w = detect_default_branch root w
  base_branch_of root (some branch) w = (branch, w)

  -- `git worktree remove --force`, and the removal of the directory where that fails.
  unfoldable pub remove_directory : Text → Text → W → W
  remove_directory root path w =
      let (end, v) =
        m.git root (codes "worktree" ∷ codes "remove" ∷ codes "--force" ∷ path ∷ []) w in
      elim end [ done out ↦ v | failed ↦ m.remove_tree path v | no_git ↦ m.remove_tree path v ]

  unfoldable pub remove_bead_worktree : Text → Text → W → W
  unfolding remove_directory worktree_path branch_name ignored
  remove_bead_worktree root bead_id w =
      let path = worktree_path root bead_id in
      if m.path_exists path w
      then ignored (
          m.git root (codes "branch" ∷ codes "-D" ∷ branch_name bead_id ∷ [])
            (remove_directory root path w))
      else w

  unfoldable pub add_worktree : Text → Text → Text → W → GitEnd × W
  unfolding worktree_path branch_name
  add_worktree root bead_id branch w =
      m.git root
        (codes "worktree"
          ∷ codes "add"
          ∷ codes "-b"
          ∷ branch_name bead_id
          ∷ worktree_path root bead_id
          ∷ branch
          ∷ [])
        w

  unfoldable pub create_bead_worktree : Text → Text → Option Text → W → Ran Text W
  unfolding base_branch_of remove_bead_worktree add_worktree checked worktree_path
  create_bead_worktree root bead_id base_branch w =
      let (branch, v) =
        base_branch_of root base_branch (m.make_dirs (join_path root (codes ".worktrees")) w) in
      checked (add_worktree root bead_id branch (remove_bead_worktree root bead_id v))
      >>= (λ out u. returned (worktree_path root bead_id) u)

  unfoldable pub push_branch : Text → Text → W → Ran Text W
  unfolding branch_name checked
  push_branch path bead_id w =
      checked (m.git path (codes "push" ∷ codes "origin" ∷ branch_name bead_id ∷ []) w)

-- The title and the text of the pull request that create_pr passes to gh.
unfoldable pub pr_title : Text → Text → Text
pr_title bead_id title = codes "Implement " ++ (bead_id ++ (codes ": " ++ title))

unfoldable pub pr_body : Text → Text → Text → Text
pr_body bead_id title body =
    if is_empty body
    then codes "Automated implementation for bead " ++ (bead_id ++ (codes ": " ++ title))
    else body

-- The call ends with the exception of a command that failed.
abbrev pub Raises : {W : Type 0} → Ran Text W → Type 0
Raises (returned path w) = ⊥
Raises (raised failure w) = failure ≡ command_failed

-- A bead's id that names a directory of its own.
abbrev pub is_dir_name : Text → Bool
is_dir_name t = not (is_empty t) && not (same t (codes ".")) && not (same t (codes ".."))

-- A branch that is given is no flag.
abbrev pub IsNoFlag : Option Text → Type 0
IsNoFlag none = Unit
IsNoFlag (some branch) = starts_with (codes "-") branch ≡ false

-- `has_branch` tells the branches of a repository. Git refuses a worktree on a new branch of a name
-- that is taken (`taken`). Making `.worktrees` touches no branch, and makes no directory in it
-- (`dir_keeps`). `git symbolic-ref` touches neither, and the branch that it prints is no flag
-- (`ref_keeps`).
module _ {W : Type 0} (m : Machine W) (has_branch : Text → Text → W → Bool)
    (taken : (root bead_id branch : Text) (w : W)
      → starts_with (codes "-") branch ≡ false
      → has_branch root (branch_name bead_id) w ≡ true
      → (add_worktree m root bead_id branch w).0 ≡ failed)
    (dir_keeps : (root bead_id : Text) (w : W)
      → is_dir_name bead_id ≡ true
      → let v = m.make_dirs (join_path root (codes ".worktrees")) w in
        (has_branch root (branch_name bead_id) v ≡ has_branch root (branch_name bead_id) w)
        × (m.path_exists (worktree_path root bead_id) v
            ≡ m.path_exists (worktree_path root bead_id) w))
    (ref_keeps : (root bead_id : Text) (w : W)
      → let (branch, v) = detect_default_branch m root w in
        (starts_with (codes "-") branch ≡ false)
        × (has_branch root (branch_name bead_id) v ≡ has_branch root (branch_name bead_id) w)
        × (m.path_exists (worktree_path root bead_id) v
            ≡ m.path_exists (worktree_path root bead_id) w)) where
  base_branch-keeps :
      (root bead_id : Text) (base : Option Text) (w : W)
      → IsNoFlag base
      → let (branch, v) = base_branch_of m root base w in
        (starts_with (codes "-") branch ≡ false)
        × (has_branch root (branch_name bead_id) v ≡ has_branch root (branch_name bead_id) w)
        × (m.path_exists (worktree_path root bead_id) v
            ≡ m.path_exists (worktree_path root bead_id) w)
  unfolding base_branch_of
  base_branch-keeps root bead_id none w h = ref_keeps root bead_id w
  base_branch-keeps root bead_id (some branch) w h = (h, refl, refl)

  failed-Raises :
      (end : GitEnd × W) (rest : Text → W → Ran Text W)
      → end.0 ≡ failed
      → Raises (checked end >>= rest)
  unfolding checked
  failed-Raises (done out, w) rest h = cc
  failed-Raises (failed, w) rest h = refl
  failed-Raises (no_git, w) rest h = cc

  -- Where the directory of a worktree of a bead is gone but its branch is not, making a worktree
  -- for the bead raises: the branch is deleted only together with a directory. This is for a bead
  -- whose id names a directory of its own and a base branch that is no flag, where git refuses a
  -- new branch of a name that is taken, making the directory of the worktrees makes none in it and
  -- touches no branch, and asking git for the current branch touches neither and gives no flag.
  pub leftover_branch-create_fails :
      (root bead_id : Text) (base : Option Text) (w : W)
      → is_dir_name bead_id ≡ true
      → IsNoFlag base
      → has_branch root (branch_name bead_id) w ≡ true
      → m.path_exists (worktree_path root bead_id) w ≡ false
      → Raises (create_bead_worktree m root bead_id base w)
  unfolding create_bead_worktree remove_bead_worktree
  leftover_branch-create_fails root bead_id base w name plain branch gone =
      let made = m.make_dirs (join_path root (codes ".worktrees")) w in
      let (branch_made, path_made) = dir_keeps root bead_id w name in
      let (no_flag, branch_kept, path_kept) = base_branch-keeps root bead_id base made plain in
      rw (path_kept, path_made, gone)
        (failed-Raises
          (add_worktree m root bead_id (base_branch_of m root base made).0
            (base_branch_of m root base made).1)
          (λ out u. returned (worktree_path root bead_id) u)
          (taken root bead_id (base_branch_of m root base made).0
            (base_branch_of m root base made).1 no_flag (rw (branch_kept, branch_made) branch)))

-- ===== src/Tests/Workspaces.antt =====
-- Machines on which the theorems about workspace.py apply.
use orchestrator_service.Prelude.{
  ℕ, Text, codes, Bool, true, false, ◌≡◌, refl, Option, none, some, List, [], ◌∷◌, ◌++◌,
  if◌then◌else◌, Dict, lookup, insert, lookup-insert, same_refl, member, not, ◌&&◌, &&-true, ◌<◌,
  same, same_iff, starts_with, is_empty, length, length-append, reverse, Bool-cases, inl, inr,
  arith, ap,
}
use orchestrator_service.Workspace.Machine.{Machine, done, failed, join_path, dashed}
use orchestrator_service.Workspace.Projects.{
  exclude_line, exclude_path, excluded_lines, ensure_worktrees_excluded,
}
use orchestrator_service.Workspace.Excluded.{ensure_worktrees_excluded_lem}
use orchestrator_service.Workspace.Worktrees.{
  branch_name, add_worktree, detect_default_branch, create_bead_worktree, Raises, worktree_path,
  is_dir_name, leftover_branch-create_fails,
}

is_there : Text → Dict Text → Bool
is_there path files = elim (lookup path files) [ none ↦ false | some t ↦ true ]

there_if :
    (path : Text) (w : Dict Text) (t : Text) → lookup path w ≡ some t → is_there path w ≡ true
unfolding is_there lookup
there_if path w t h = rw (h, is_there) refl

-- A disk of files.
abbrev disk : Machine (Dict Text)
disk = record {
  is_dir = λ path w. false;
  is_file = is_there;
  path_exists = is_there;
  list_dir = λ path w. [];
  real_path = λ path w. path;
  read_text = λ path w. lookup path w;
  write_text = λ path text w. insert path text w;
  make_dirs = λ path w. w;
  remove_tree = λ path w. w;
  git = λ cwd args w. (failed, w);
}

disk_wrote :
    (path text : Text) (w : Dict Text)
    → (is_there path (insert path text w) ≡ true) × (lookup path (insert path text w) ≡ some text)
unfolding is_there
disk_wrote path text w =
    let found : lookup path (insert path text w) ≡ some text =
      rw (lookup-insert path path text w, same_refl path) refl in
    (there_if path (insert path text w) text found, found)

abbrev one_file : Dict Text
one_file = (codes "/w/a/.git/info/exclude", codes "*.log\n\ntmp") ∷ []

ensure_worktrees_excluded_lem_example :
    let lines = excluded_lines disk (codes "/w/a") one_file in
    let v = ensure_worktrees_excluded disk (codes "/w/a") one_file in
    (excluded_lines disk (codes "/w/a") v
      ≡ (if member exclude_line lines then lines else lines ++ exclude_line ∷ []))
    × (ensure_worktrees_excluded disk (codes "/w/a") v ≡ v)
ensure_worktrees_excluded_lem_example =
    ensure_worktrees_excluded_lem disk disk_wrote (codes "/w/a") one_file

-- What is written.
excluded_file :
    lookup (codes "/w/a/.git/info/exclude") (ensure_worktrees_excluded disk (codes "/w/a") one_file)
    ≡ some (codes "*.log\n\ntmp\n.worktrees/\n")
unfolding ensure_worktrees_excluded lookup member excluded_lines is_there
    orchestrator_service.Prelude.same exclude_path orchestrator_service.Prelude.starts_with
    orchestrator_service.Runner.Stream.splitlines exclude_line insert
    orchestrator_service.Prelude.join_with
excluded_file = refl

slash-dashed : (t : Text) → is_empty t ≡ false → starts_with (codes "/") (dashed t) ≡ false
unfolding dashed starts_with
slash-dashed [] h = cc
slash-dashed (c ∷ t) h = ground arith

dashed-some : (t : Text) → is_empty t ≡ false → is_empty (dashed t) ≡ false
unfolding dashed
dashed-some [] h = h
dashed-some (c ∷ t) h = refl

some-length : (t : Text) → is_empty t ≡ false → 0 < length t
some-length [] h = cc
some-length (c ∷ t) h = omega arith

length-join_path :
    (a b : Text)
    → is_empty b ≡ false
    → starts_with (codes "/") b ≡ false
    → length a < length (join_path a b)
unfolding join_path
length-join_path [] b named h = rw h (some-length b named)
length-join_path (c ∷ a) b named h =
    let n = some-length b named in
    elim (Bool-cases (starts_with (codes "/") (reverse (c ∷ a)))) [
      | inl e ↦ rw (h, e, length-append (c ∷ a) b) (omega arith)
      | inr e ↦ rw (h, e, length-append (c ∷ a) (b'/' ∷ b)) (omega arith)
    ]

-- The directories that there are, and whether the bead has its branch.
abbrev repository : Machine (List Text × Bool)
repository = record {
  is_dir = λ path w. member path w.0;
  is_file = λ path w. false;
  path_exists = λ path w. member path w.0;
  list_dir = λ path w. [];
  real_path = λ path w. path;
  read_text = λ path w. none;
  write_text = λ path text w. w;
  make_dirs = λ path w. (path ∷ w.0, w.1);
  remove_tree = λ path w. w;
  git = λ cwd args w. (if w.1 then failed else done [], w);
}

abbrev has_branch : Text → Text → List Text × Bool → Bool
has_branch root name w = w.1

taken :
    (root bead_id branch : Text) (w : List Text × Bool)
    → starts_with (codes "-") branch ≡ false
    → has_branch root (branch_name bead_id) w ≡ true
    → (add_worktree repository root bead_id branch w).0 ≡ failed
unfolding add_worktree
taken root bead_id branch w plain h = rw h refl

not_its_own :
    (root bead_id : Text)
    → is_dir_name bead_id ≡ true
    → same (worktree_path root bead_id) (join_path root (codes ".worktrees")) ≡ false
unfolding worktree_path
not_its_own root bead_id name =
    let dir = join_path root (codes ".worktrees") in
    let named : is_empty bead_id ≡ false = ground arith in
    let longer : length dir < length (join_path dir (dashed bead_id)) =
      length-join_path dir (dashed bead_id) (dashed-some bead_id named)
        (slash-dashed bead_id named) in
    elim (Bool-cases (same (worktree_path root bead_id) dir)) [
      | inl e ↦
          let equal : length (worktree_path root bead_id) ≡ length dir =
            ap length ((same_iff (worktree_path root bead_id) dir).0 e) in
          absurd (omega (arith, equal, longer))
      | inr e ↦ e
    ]

dir_keeps :
    (root bead_id : Text) (w : List Text × Bool)
    → is_dir_name bead_id ≡ true
    → let v = repository.make_dirs (join_path root (codes ".worktrees")) w in
      (has_branch root (branch_name bead_id) v ≡ has_branch root (branch_name bead_id) w)
      × (repository.path_exists (worktree_path root bead_id) v
          ≡ repository.path_exists (worktree_path root bead_id) w)
unfolding member
dir_keeps root bead_id w name = (refl, rw (not_its_own root bead_id name) refl)

ref_keeps :
    (root bead_id : Text) (w : List Text × Bool)
    → let (branch, v) = detect_default_branch repository root w in
      (starts_with (codes "-") branch ≡ false)
      × (has_branch root (branch_name bead_id) v ≡ has_branch root (branch_name bead_id) w)
      × (repository.path_exists (worktree_path root bead_id) v
          ≡ repository.path_exists (worktree_path root bead_id) w)
unfolding detect_default_branch starts_with orchestrator_service.Prelude.strip
ref_keeps root bead_id (dirs, true) = (refl, refl, refl)
ref_keeps root bead_id (dirs, false) = (refl, refl, refl)

leftover_branch-create_fails_example :
    Raises (create_bead_worktree repository (codes "/w/a") (codes "bd-1") none ([], true))
unfolding member same
leftover_branch-create_fails_example =
    leftover_branch-create_fails repository has_branch taken dir_keeps ref_keeps (codes "/w/a")
      (codes "bd-1") none ([], true) refl tt refl refl

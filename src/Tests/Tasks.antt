-- ===== src/Tests/Tasks.antt =====
-- A background task on a machine that keeps the commands of git.
use orchestrator_service.Prelude.{
  Text, codes, Bool, true, false, ◌≡◌, refl, Option, none, some, List, [], ◌∷◌, ◌++◌,
}
use orchestrator_service.Json.{Json, text, obj, field, end}
use orchestrator_service.Workspace.Machine.{Machine, done}
use orchestrator_service.App.Dispatch.{safe_dispatch}
use orchestrator_service.App.Confined.Task.{IsConfined, disk_after, safe_dispatch-IsConfined}

-- An empty disk; the newest command comes last.
abbrev recorder : Machine (List (Text × List Text))
recorder = record {
  is_dir = λ path w. false;
  is_file = λ path w. false;
  path_exists = λ path w. false;
  list_dir = λ path w. [];
  real_path = λ path w. path;
  read_text = λ path w. none;
  write_text = λ path text w. w;
  make_dirs = λ path w. w;
  remove_tree = λ path w. w;
  git = λ cwd args w. (done [], w ++ (cwd, args) ∷ []);
}

abbrev read_url : Text → Option (Text × Text)
read_url t = some (codes "https", codes "github.com")

abbrev repr : Json → Text
repr v = []

abbrev payload : Json
payload = obj (
    field (codes "repository")
      (obj (
        field (codes "full_name") (text (codes "own/app")) (
          field (codes "clone_url") (text (codes "https://github.com/own/app.git"))
            (field (codes "default_branch") (text (codes "--upload-pack=x")) end))))
      end)

safe_dispatch-IsConfined_example :
    IsConfined recorder read_url
      (codes "/w")
      []
      (disk_after (safe_dispatch recorder read_url repr (codes "/w") payload []))
safe_dispatch-IsConfined_example =
    safe_dispatch-IsConfined recorder read_url (codes "/w") repr payload []

-- The branch that git would take for a flag is replaced.
cloned_and_synced :
    disk_after (safe_dispatch recorder read_url repr (codes "/w") payload [])
    ≡ (
      [],
      codes "clone"
          ∷ codes "--branch"
          ∷ codes "main"
          ∷ codes "https://github.com/own/app.git"
          ∷ codes "/w/own-app"
          ∷ [],
    )
      ∷ (codes "/w/own-app", codes "fetch" ∷ codes "origin" ∷ [])
      ∷ (codes "/w/own-app", codes "checkout" ∷ codes "main" ∷ [])
      ∷ (codes "/w/own-app", codes "pull" ∷ codes "origin" ∷ codes "main" ∷ [])
      ∷ []
unfolding safe_dispatch orchestrator_service.Json.get_or orchestrator_service.Prelude.same
    orchestrator_service.Json.truthy orchestrator_service.Json.get
    orchestrator_service.Workspace.Projects.project_workspace_path
    orchestrator_service.Prelude.starts_with orchestrator_service.App.Dispatch.clone_url_of
    orchestrator_service.Workspace.Projects.ensure_project_from_clone
    orchestrator_service.Workspace.Projects.sync_project orchestrator_service.Prelude.member
    orchestrator_service.Workspace.Projects.excluded_lines orchestrator_service.Prelude.strip
cloned_and_synced = refl

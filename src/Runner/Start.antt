-- ===== src/Runner/Start.antt =====
-- runner.py: how a dispatch is started, and the calls of gh.
pub mod Recorded
use orchestrator_service.Prelude.{
  ℕ, ◌+◌, Text, codes, Bool, true, false, ◌&&◌, ◌||◌, Option, none, some, List, [], ◌∷◌, ◌++◌,
  length, drop, reverse, if◌then◌else◌, is_empty, is_space, lstrip, lower, same, starts_with, ◌==◌,
  Dict, lookup, insert,
}
use orchestrator_service.Json.{
  Json, null, num, text, obj, Fields, end, field, find_field, empty_text, to_text,
}
use orchestrator_service.Config.{Settings}
use orchestrator_service.Runner.Slug.{
  DispatchContext, is_alnum, is_safe, dispatch_slug, prompt_stem,
}
use orchestrator_service.Runner.Stream.{run_of}

-- [A-Za-z0-9_.-]
name_char : ℕ → Bool
name_char c = is_safe c || c == b'.'

-- [A-Za-z0-9][A-Za-z0-9_.-]*
name_at : Text → Option Text
unfolding name_char
name_at [] = none
name_at (c ∷ t) = if is_alnum c then some (c ∷ run_of name_char t) else none

-- \s*=\s* and the name
assigned_name : Text → Option Text
unfolding name_at
assigned_name t = elim (lstrip t) [
  | [] ↦ none
  | c ∷ rest ↦ if c == b'=' then name_at (lstrip rest) else none
]

name_here : Text → Option Text
unfolding assigned_name
name_here t = if starts_with (codes "$workflow_name") t then assigned_name (drop 14 t) else none

-- The first place where the pattern matches.
unfoldable pub parse_workflow_name : Text → Option Text
unfolding name_here
parse_workflow_name [] = none
parse_workflow_name (c ∷ t) =
    let later = parse_workflow_name t in
    elim (name_here (c ∷ t)) [ some name ↦ some name | none ↦ later ]

-- The characters before the first `stop`.
up_to : ℕ → Text → Text
up_to stop [] = []
up_to stop (c ∷ t) = let rest = up_to stop t in if c == stop then [] else c ∷ rest

-- Path(path).suffix, for a path without a slash at its end: the last dot of the last part begins a
-- suffix, if it neither begins nor ends the part.
unfoldable pub suffix : Text → Text
unfolding up_to
suffix path =
    let name = up_to b'/' (reverse path) in
    let ending = up_to b'.' name in
    if is_empty ending || is_empty (drop (length ending + 1) name)
    then []
    else b'.' ∷ reverse ending

unfoldable pub base_args : Settings → List Text
base_args s =
    codes "-ServerUrl"
    ∷ s.opencode_server_url
    ∷ codes "-Workspace"
    ∷ s.workspace
    ∷ codes "-Model"
    ∷ s.model
    ∷ codes "-Agent"
    ∷ s.agent
    ∷ codes "-Variant"
    ∷ s.variant
    ∷ []

-- none for a ValueError
unfoldable pub prompt_script_invocation : Settings → Text → Option (List Text)
unfolding suffix base_args
prompt_script_invocation s prompt_path =
    if same (lower (suffix s.prompt_script)) (codes ".ps1")
    then some (
        (codes "pwsh" ∷ codes "-NoProfile" ∷ codes "-File" ∷ s.prompt_script ∷ [])
        ++ (base_args s ++ codes "-PromptFile" ∷ prompt_path ∷ []))
    else none

-- What a dispatch does, in its order: the files are named by their names in the log directory.
pub data Step : Type 0 where
  write_prompt : Text → Text → Step
  start_process : List Text → Step
  write_manifest : Text → Fields → Step
  emit_started : Text → ℕ → Step
  watch_run : Text → Step

-- How it ends: with the stem of the prompt file, or with an exception; `no_process` is that of Popen.
pub data Start : Type 0 where
  started : Text → Start
  bad_script no_process : Start

unfoldable pub text_or_null : Option Text → Json
text_or_null none = null
text_or_null (some t) = text t

-- The repository, the number and the address of the triggering issue; `html_url` is the address.
unfoldable pub repo_json : Option DispatchContext → Json
repo_json none = null
repo_json (some ctx) = text ctx.repo_full_name

-- `number_of` is the number that the decimal digits write.
unfoldable pub issue_json : (Text → Json) → Option DispatchContext → Json
issue_json number_of none = null
issue_json number_of (some ctx) = number_of ctx.issue_number

-- The values of the run of which the manifest is made.
pub record Launch : Type 0 where
  pub ctx : Option DispatchContext
  pub html_url : Option Text
  pub stamp : Text
  pub random : Text

module _ (number_of : Text → Json) where
  unfoldable pub dispatch_manifest : Settings → Launch → Option Text → Text → ℕ → Fields
  unfolding repo_json issue_json text_or_null
  dispatch_manifest s l workflow stem pid = field (codes "stem") (text stem) (
      field (codes "repo_full_name") (repo_json l.ctx) (
        field (codes "issue_number") (issue_json number_of l.ctx) (
          field (codes "html_url") (text_or_null l.html_url) (
            field (codes "workflow") (text_or_null workflow) (
              field (codes "prompt_file") (text (stem ++ codes ".md")) (
                field (codes "pid") (num pid) (
                  field (codes "started_at") (text l.stamp) (
                    field (codes "model") (text s.model) (
                      field (codes "agent") (text s.agent)
                        (field (codes "log_dir") (text s.log_dir) end))))))))))

  -- `spawn` starts a process: its id, or none for an OSError. The event is emitted if there is a store.
  launch : Settings → Launch → Option Text → Text → Bool → List Text → Option ℕ → List Step × Start
  unfolding dispatch_manifest
  launch s l workflow stem has_store args none = (start_process args ∷ [], no_process)
  launch s l workflow stem has_store args (some pid) = (
    start_process args
        ∷ write_manifest (stem ++ codes ".manifest.json") (dispatch_manifest s l workflow stem pid)
        ∷ ((if has_store then emit_started (stem ++ codes ".md") pid ∷ [] else [])
            ++ watch_run stem ∷ []),
    started stem,
  )

  unfoldable pub dispatch_to_opencode :
      (List Text → Option ℕ) → Settings → Text → Bool → Launch → List Step × Start
  unfolding launch
  dispatch_to_opencode spawn s prompt has_store l =
      let workflow = parse_workflow_name prompt in
      let stem = prompt_stem (dispatch_slug l.ctx workflow l.stamp) l.random in
      let path = s.log_dir ++ (b'/' ∷ (stem ++ codes ".md")) in
      elim (prompt_script_invocation s path) [
        | none ↦ (write_prompt (stem ++ codes ".md") prompt ∷ [], bad_script)
        | some args ↦
            let (steps, end_) = launch s l workflow stem has_store args (spawn args) in
            (write_prompt (stem ++ codes ".md") prompt ∷ steps, end_)
      ]

-- os.environ.get(first) or os.environ.get(second)
env_token : Dict Text → Option Text
env_token env = elim (lookup (codes "GH_ORCHESTRATION_AGENT_TOKEN") env) [
  | none ↦ lookup (codes "GITHUB_TOKEN") env
  | some t ↦ if is_empty t then lookup (codes "GITHUB_TOKEN") env else some t
]

unfoldable pub gh_env : Dict Text → Dict Text
unfolding env_token
gh_env env = elim (env_token env) [
  | none ↦ env
  | some t ↦ if is_empty t then env else insert (codes "GH_TOKEN") t env
]

unfoldable pub view_issue_args : DispatchContext → List Text
view_issue_args ctx =
    codes "gh"
    ∷ codes "issue"
    ∷ codes "view"
    ∷ ctx.issue_number
    ∷ codes "--repo"
    ∷ ctx.repo_full_name
    ∷ codes "--json"
    ∷ codes "state"
    ∷ []

-- What gh printed, none where it could not be run; `parse` is json.loads, none for its error. A value
-- that is no dict has no `get`, and that error is caught as well.
unfoldable pub dispatch_issue_closed : (Text → Option Json) → (Json → Text) → Option Text → Bool
dispatch_issue_closed parse repr none = true
dispatch_issue_closed parse repr (some printed) = elim (parse printed) [
  | some (obj fs) ↦
      same (lower (to_text repr (find_field (codes "state") empty_text fs))) (codes "closed")
  | _ ↦ true
]

-- The call that posts a comment; its input is the body.
unfoldable pub post_comment_args : DispatchContext → List Text
post_comment_args ctx =
    codes "gh"
    ∷ codes "issue"
    ∷ codes "comment"
    ∷ ctx.issue_number
    ∷ codes "--repo"
    ∷ ctx.repo_full_name
    ∷ codes "--body-file"
    ∷ codes "-"
    ∷ []

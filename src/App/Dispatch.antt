-- ===== src/App/Dispatch.antt =====
-- app.py, _safe_dispatch: the background task of a delivery that was allowed.
use orchestrator_service.Prelude.{
  Text, codes, Bool, true, false, not, ◌&&◌, ◌||◌, Option, none, some, all, leb, ◌==◌,
  if◌then◌else◌, is_empty, strip, same,
}
use orchestrator_service.Json.{
  Json, bool, num, real, text, empty_text, empty_obj, Error, attribute_error, Py, ok, raise, ◌>>=◌,
  get, get_or, or_else, truthy, to_text,
}
use orchestrator_service.Workspace.Machine.{Machine, Ran, returned, raised}
use orchestrator_service.Workspace.Projects.{
  project_workspace_path, init_project_workspace, ensure_project_from_clone, sync_project,
}
use orchestrator_service.App.Handler.{derive_project_slug}
use orchestrator_service.App.Branch.{safe_branch}

-- _validate_clone_url: the address, if it may be cloned. `urlparse` gives scheme and host, and none
-- for a ValueError; only a text has a scheme.
unfoldable pub clone_url_of : (Text → Option (Text × Text)) → Json → Py (Option Text)
clone_url_of urlparse (text t) = if is_empty t then ok none else elim (urlparse t) [
  | none ↦ ok none
  | some (scheme, netloc) ↦
      if same scheme (codes "https") && not (is_empty netloc) then ok (some t) else ok none
]
clone_url_of urlparse v = if truthy v then raise attribute_error else ok none

-- What the task reads of the payload: the slug, the address and the branch.
pub record Source : Type 0 where
  pub slug : Text
  pub clone_url : Json
  pub default_branch : Text

unfoldable pub read_source : Json → Py Source
unfolding derive_project_slug safe_branch
read_source payload = do
  slug ← derive_project_slug payload
  repo ← get_or payload (codes "repository") empty_obj
  clone_url ← get_or repo (codes "clone_url") empty_text
  branch ← get repo (codes "default_branch")
  ok (record { slug = slug; clone_url = clone_url; default_branch = safe_branch branch })

-- The preparation ends with a refusal, or the dispatch goes on, also after an exception.
pub data Prepared (W : Type 0) : Type 0 where
  refused go_on : W → Prepared W

-- The state that a call leaves, whether it returned or raised.
unfoldable pub state_after : {A W : Type 0} → Ran A W → W
state_after (returned a w) = w
state_after (raised failure w) = w

module _ {W : Type 0} (m : Machine W) (urlparse : Text → Option (Text × Text)) where
  unfoldable pub clone_and_sync : Text → Source → Text → Text → W → W
  clone_and_sync base s resolved url w =
      elim (ensure_project_from_clone m base s.slug url s.default_branch w) [
        | returned root v ↦ sync_project m resolved s.default_branch v
        | raised failure v ↦ v
      ]

  unfoldable pub fill_workspace : Text → Source → Text → Py (Option Text) → W → W
  unfolding clone_and_sync state_after
  fill_workspace base s resolved (raise error) w = w
  fill_workspace base s resolved (ok none) w = state_after (init_project_workspace m base s.slug w)
  fill_workspace base s resolved (ok (some url)) w = clone_and_sync base s resolved url w

  unfoldable pub prepare_in : Text → Source → Ran Text W → Prepared W
  unfolding fill_workspace
  prepare_in base s (raised failure w) = go_on w
  prepare_in base s (returned resolved w) =
      if same (m.real_path resolved w) (m.real_path base w)
      then refused w
      else go_on (fill_workspace base s resolved (clone_url_of urlparse s.clone_url) w)

  unfoldable pub prepare_from : Text → Py Source → W → Prepared W
  unfolding prepare_in
  prepare_from base (raise error) w = go_on w
  prepare_from base (ok s) w = prepare_in base s (project_workspace_path m base s.slug w)

  -- The try block.
  unfoldable pub prepare_workspace : Text → Json → W → Prepared W
  unfolding prepare_from read_source
  prepare_workspace base payload w = prepare_from base (read_source payload) w

-- A DispatchContext with the values as the payload has them.
pub record IssueContext : Type 0 where
  pub repo_full_name : Json
  pub issue_number : Json
  pub html_url : Json
  pub trigger_label : Option Text

-- isinstance(v, int): the text of an integer has digits and a sign only; a bool is an int
unfoldable pub is_int : Json → Bool
is_int (num n) = true
is_int (bool b) = true
is_int (real t) = all (λ c. (leb b'0' c && leb c b'9') || c == b'-') t
is_int _ = false

some_text : Text → Option Text
some_text t = if is_empty t then none else some t

-- `repr` is str of a value that is no text.
module _ (repr : Json → Text) where
  -- str((payload.get("label") or {}).get("name") or "").strip() or None
  trigger_label_of : Json → Py (Option Text)
  unfolding some_text
  trigger_label_of payload = do
    label_part ← get payload (codes "label")
    name ← get (or_else label_part empty_obj) (codes "name")
    ok (some_text (strip (to_text repr (or_else name empty_text))))

  unfoldable pub dispatch_context_from_payload : Json → Py (Option IssueContext)
  unfolding trigger_label_of is_int
  dispatch_context_from_payload payload = do
    repo ← get_or payload (codes "repository") empty_obj
    full_name ← get repo (codes "full_name")
    issue ← get_or payload (codes "issue") empty_obj
    number ← get issue (codes "number")
    if truthy full_name && is_int number
        then (do
          label ← trigger_label_of payload
          html_url ← get issue (codes "html_url")
          ok (
              some (record {
                repo_full_name = full_name;
                issue_number = number;
                html_url = html_url;
                trigger_label = label;
              })))
        else ok none

-- How the task ends: it refuses to dispatch, an exception leaves it before the dispatch, or the agent
-- is started for the issue, if there is one.
pub data TaskEnd (W : Type 0) : Type 0 where
  no_dispatch : W → TaskEnd W
  task_failed : Error → W → TaskEnd W
  dispatch : Option IssueContext → W → TaskEnd W

unfoldable pub start_agent : {W : Type 0} → Py (Option IssueContext) → W → TaskEnd W
start_agent (raise error) w = task_failed error w
start_agent (ok ctx) w = dispatch ctx w

unfoldable pub safe_dispatch :
    {W : Type 0}
    → Machine W
    → (Text → Option (Text × Text))
    → (Json → Text)
    → Text
    → Json
    → W
    → TaskEnd W
unfolding prepare_workspace start_agent dispatch_context_from_payload
safe_dispatch m urlparse repr base payload w = elim (prepare_workspace m urlparse base payload w) [
  | refused v ↦ no_dispatch v
  | go_on v ↦ start_agent (dispatch_context_from_payload repr payload) v
]

-- ===== src/Simulator/Templates.antt =====
-- simulator_templates.py: the payloads that the simulator offers for each event.
use orchestrator_service.Prelude.{
  ℕ, Text, codes, Bool, true, false, ◌||◌, Option, none, some, List, [], ◌∷◌, ◌++◌, ◌==◌,
  if◌then◌else◌, is_empty, lower, same, member, sorted,
}
use orchestrator_service.Json.{
  Json, null, bool, num, text, arr, obj, nil, cons, Fields, end, field, Py, ok, raise, value_error,
  find_field, to_text,
}
use orchestrator_service.Runner.Manifest.{set_field}

unfoldable pub safe_events : List Text
safe_events = codes "ping" ∷ []

unfoldable pub work_events : List Text
work_events =
    codes "issues"
    ∷ codes "pull_request"
    ∷ codes "issue_comment"
    ∷ codes "workflow_run"
    ∷ codes "custom"
    ∷ []

unfoldable pub list_templates : Bool → List Text
unfolding safe_events work_events
list_templates safe_only = if safe_only then sorted safe_events else sorted work_events

-- event in ALL_EVENTS
unfoldable pub is_event : Text → Bool
unfolding safe_events work_events
is_event event = member event safe_events || member event work_events

-- `partition("/")` without the separator: what stands before the first slash, and behind it.
unfoldable pub before_slash : Text → Text
before_slash [] = []
before_slash (c ∷ t) = let rest = before_slash t in if c == b'/' then [] else c ∷ rest

unfoldable pub behind_slash : Text → Text
behind_slash [] = []
behind_slash (c ∷ t) = let rest = behind_slash t in if c == b'/' then t else rest

-- a or b, for a text
unfoldable pub text_or : Text → Text → Text
text_or a b = if is_empty a then b else a

unfoldable pub repository_part : Text → Json
unfolding before_slash behind_slash text_or
repository_part full_name = obj (
    field (codes "full_name") (text full_name) (
      field (codes "name") (text (text_or (behind_slash full_name) (codes "repo"))) (
        field (codes "owner")
          (obj (field (codes "login") (text (text_or (before_slash full_name) (codes "org"))) end))
          end)))

unfoldable pub sender_part : Json
sender_part = obj (field (codes "login") (text (codes "simulator-user")) end)

unfoldable pub base_payload : Option Text → Text → Fields
base_payload none repo =
    field (codes "repository") (repository_part repo) (field (codes "sender") sender_part end)
base_payload (some action) repo =
    field (codes "repository") (repository_part repo)
      (field (codes "sender") sender_part (field (codes "action") (text action) end))

-- `action or default`
unfoldable pub action_or : Option Text → Text → Text
unfolding text_or
action_or none default = default
action_or (some action) default = text_or action default

-- `number if number is not None else default`
unfoldable pub number_or : Option Json → ℕ → Json
number_or none default = num default
number_or (some n) default = n

unfoldable pub ping_payload : Fields
ping_payload = field (codes "zen") (text (codes "Design for failure.")) (
    field (codes "hook_id") (num 123456789) (
      field (codes "hook")
        (obj (
          field (codes "type") (text (codes "Repository")) (
            field (codes "id") (num 123456789) (
              field (codes "name") (text (codes "web")) (
                field (codes "active") (bool true) (
                  field (codes "events")
                    (arr (cons (text (codes "issues")) (cons (text (codes "pull_request")) nil)))
                    end))))))
        end))

unfoldable pub dispatch_label : Text
dispatch_label = codes "orchestration:dispatch"

unfoldable pub label_part : Text → Json
label_part name = obj (field (codes "name") (text name) end)

-- A number of the caller is an integer; `repr` gives its text.
module _ (repr : Json → Text) where
  unfoldable pub issue_part : Json → Text → Json
  issue_part number label = obj (
      field (codes "number") number (
        field (codes "title") (text (codes "Simulated issue #" ++ to_text repr number)) (
          field (codes "state") (text (codes "open"))
            (field (codes "labels") (arr (cons (label_part label) nil)) end))))

  unfoldable pub issues_payload : Text → Text → Json → Fields
  unfolding dispatch_label issue_part
  issues_payload action repo number =
      let base = base_payload (some action) repo in
      if same action (codes "labeled")
      then set_field (codes "issue") (issue_part number dispatch_label)
          (set_field (codes "label") (label_part dispatch_label) base)
      else set_field (codes "issue") (issue_part number (codes "orchestrate")) base

  unfoldable pub pull_request_payload : Text → Text → Json → Fields
  pull_request_payload action repo number =
      set_field (codes "pull_request")
        (obj (
          field (codes "number") number (
            field (codes "title") (text (codes "Simulated PR #" ++ to_text repr number)) (
              field (codes "state") (text (codes "open")) (
                field (codes "head")
                  (obj (field (codes "ref") (text (codes "feature/simulated")) end))
                  (field (codes "base") (obj (field (codes "ref") (text (codes "main")) end))
                    end))))))
        (base_payload (some action) repo)

  unfoldable pub issue_comment_payload : Text → Text → Json → Fields
  issue_comment_payload action repo number =
      set_field (codes "comment")
        (obj (
          field (codes "id") (num 9001)
            (field (codes "body") (text (codes "Simulated comment from webhook simulator.")) end)))
        (set_field (codes "issue")
          (obj (
            field (codes "number") number (
              field (codes "title") (text (codes "Simulated issue #" ++ to_text repr number)) end)))
          (base_payload (some action) repo))

  unfoldable pub workflow_run_payload : Text → Text → Fields
  workflow_run_payload action repo =
      set_field (codes "workflow_run")
        (obj (
          field (codes "id") (num 10001) (
            field (codes "name") (text (codes "CI")) (
              field (codes "conclusion") (text (codes "failure")) (
                field (codes "status") (text (codes "completed"))
                  (field (codes "head_branch") (text (codes "main")) end))))))
        (base_payload (some action) repo)

  -- The branches behind the test that the event is known; the last line of the source is not reached.
  unfoldable pub template_of : Text → Text → Option Text → Option Json → Py Fields
  unfolding action_or number_or ping_payload
  template_of event repo action number =
      if same event (codes "ping")
      then ok ping_payload
      else if same event (codes "custom")
      then ok (base_payload (some (action_or action (codes "opened"))) repo)
      else if same event (codes "issues")
      then ok (issues_payload (action_or action (codes "opened")) repo (number_or number 1))
      else if same event (codes "pull_request")
      then ok (pull_request_payload (action_or action (codes "opened")) repo (number_or number 42))
      else if same event (codes "issue_comment")
      then ok (issue_comment_payload (action_or action (codes "created")) repo (number_or number 1))
      else if same event (codes "workflow_run")
      then ok (workflow_run_payload (action_or action (codes "completed")) repo)
      else raise value_error

  unfoldable pub get_template : Text → Text → Option Text → Option Json → Py Fields
  unfolding is_event template_of
  get_template event repo action number =
      if is_event (lower event)
      then template_of (lower event) repo action number
      else raise value_error

-- payload[key]["number"] = number, if payload[key] is a dict
set_number : Json → Json → Json
set_number number (obj fs) = obj (set_field (codes "number") number fs)
set_number number v = v

has_field : Text → Fields → Bool
has_field key end = false
has_field key (field k v fs) = same k key || has_field key fs

number_under : Text → Json → Fields → Fields
unfolding set_number has_field
number_under key number fs =
    if has_field key fs then set_field key (set_number number (find_field key null fs)) fs else fs

with_repo : Option Text → Fields → Fields
with_repo none fs = fs
with_repo (some repo) fs =
    if is_empty repo then fs else set_field (codes "repository") (repository_part repo) fs

with_action : Option Text → Fields → Fields
with_action none fs = fs
with_action (some action) fs = set_field (codes "action") (text action) fs

with_number : Option Json → Fields → Fields
unfolding number_under
with_number none fs = fs
with_number (some n) fs = number_under (codes "pull_request") n (number_under (codes "issue") n fs)

-- The copy of a template with the quick fields written over it.
unfoldable pub merge_template : Fields → Option Text → Option Text → Option Json → Fields
unfolding with_repo with_action with_number
merge_template template repo action number =
    with_number number (with_action action (with_repo repo template))

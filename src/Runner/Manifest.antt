-- ===== src/Runner/Manifest.antt =====
-- runner.py: the completion fields of a run's manifest, and how they are merged into it.
use orchestrator_service.Prelude.{
  ℕ, Text, codes, Option, none, some, List, [], ◌∷◌, same, if◌then◌else◌, ℤ, pos, negsuc,
}
use orchestrator_service.Json.{
  Json, null, bool, num, real, text, arr, obj, Items, nil, cons, Fields, end, field, Py, ok, raise,
  attribute_error,
}
use orchestrator_service.Watchdog.Loop.{
  KillReason, idle_timeout, hard_ceiling, consecutive_errors, permission_deadlock,
}
use orchestrator_service.Runner.Completion.{
  RunEnd, Evidence, Classification, killed_by, failed, zero_work, incomplete, completed,
  classification,
}

-- data[key] = value
unfoldable pub set_field : Text → Json → Fields → Fields
set_field key value end = field key value end
set_field key value (field k v fs) =
    let rest = set_field key value fs in if same k key then field k value fs else field k v rest

-- data.update(fields)
unfoldable pub update : Fields → Fields → Fields
unfolding set_field
update fs end = fs
update fs (field key value more) = update (set_field key value fs) more

-- The REASON_* texts.
unfoldable pub reason_text : KillReason → Text
reason_text idle_timeout = codes "idle_timeout"
reason_text hard_ceiling = codes "hard_ceiling"
reason_text consecutive_errors = codes "consecutive_errors"
reason_text permission_deadlock = codes "permission_deadlock"

unfoldable pub classification_text : Classification → Text
unfolding reason_text
classification_text (killed_by reason) = reason_text reason
classification_text failed = codes "failed"
classification_text zero_work = codes "zero_work"
classification_text incomplete = codes "incomplete"
classification_text completed = codes "completed"

unfoldable pub reason_json : Option KillReason → Json
unfolding reason_text
reason_json none = null
reason_json (some reason) = text (reason_text reason)

texts : List Text → Items
texts [] = nil
texts (t ∷ ts) = cons (text t) (texts ts)

unfoldable pub code_json : (ℕ → Text) → ℤ → Json
code_json minus (pos n) = num n
code_json minus (negsuc n) = real (minus n)

-- `minus n` is the text of -(n + 1), `sorted` sorts the tools and `now` is the time of the end.
module _ (minus : ℕ → Text) (sorted : List Text → List Text) where
  unfoldable pub completion_fields : Text → RunEnd → Evidence → Fields
  unfolding code_json reason_json classification_text texts
  completion_fields now e v = field (codes "ended_at") (text now) (
      field (codes "exit_code") (code_json minus e.exit_code) (
        field (codes "timed_out") (bool e.timed_out) (
          field (codes "kill_reason") (reason_json e.kill_reason) (
            field (codes "classification") (text (classification_text (classification e v))) (
              field (codes "consecutive_errors") (num e.errors)
                (field (codes "tools") (arr (texts (sorted v.tools))) end))))))

  -- The manifest that is written, from what is read of the file that the dispatch wrote: none where
  -- there is no file, or it cannot be read, or holds no JSON.
  unfoldable pub update_run_manifest : Option Json → Text → RunEnd → Evidence → Py Fields
  unfolding completion_fields update
  update_run_manifest none now e v = ok (update end (completion_fields now e v))
  update_run_manifest (some (obj fs)) now e v = ok (update fs (completion_fields now e v))
  update_run_manifest (some _) now e v = raise attribute_error

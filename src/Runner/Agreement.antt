-- ===== src/Runner/Agreement.antt =====
-- runner.py, _run_completion_watcher: how manifest, comments and event of one run agree.
use orchestrator_service.Prelude.{Text, Bool, true, ◌≡◌, ◌⊎◌, none, some, List, [], ◌∷◌, arith}
use orchestrator_service.Runner.Slug.{DispatchContext}
use orchestrator_service.Runner.Completion.{
  RunEnd, Evidence, is_failed, Classification, killed_by, failed, zero_work, incomplete, completed,
  classification, Comment, failure_comment, zero_work_comment, incomplete_comment, comments,
  RunEvent, dispatch_failed, dispatch_zero_work, dispatch_incomplete, dispatch_completed, run_event,
}

-- What a classification promises an issue and the dashboard.
abbrev pub comments_for : RunEnd → List Text → Classification → List Comment
comments_for e tools (killed_by r) = failure_comment (some r) e.exit_code e.timed_out ∷ []
comments_for e tools failed = failure_comment none e.exit_code e.timed_out ∷ []
comments_for e tools zero_work = zero_work_comment tools ∷ []
comments_for e tools incomplete = incomplete_comment tools ∷ []
comments_for e tools completed = []

abbrev pub event_for : RunEnd → List Text → Classification → RunEvent
event_for e tools (killed_by r) = dispatch_failed e.exit_code e.timed_out
event_for e tools failed = dispatch_failed e.exit_code e.timed_out
event_for e tools zero_work = dispatch_zero_work tools
event_for e tools incomplete = dispatch_incomplete tools
event_for e tools completed = dispatch_completed

-- If a run that the watchdog killed did not end with code 0, then the event is the one of its
-- classification, and the triggering issue gets exactly the comment of its classification.
pub reports_agree :
    (e : RunEnd) (ctx : DispatchContext) (tools : List Text) (closed : Bool)
    → (e.kill_reason ≡ none) ⊎ (is_failed e ≡ true)
    → let v : Evidence = record { ctx = some ctx; tools = tools; issue_closed = closed } in
      (run_event e v ≡ event_for e tools (classification e v))
      × (comments e v ≡ comments_for e tools (classification e v))
unfolding run_event classification comments
reports_agree e ctx tools closed h = ground arith

-- A run without a triggering issue gets no comment.
no_issue_no_comment :
    (e : RunEnd) (tools : List Text) (closed : Bool)
    → comments e (record { ctx = none; tools = tools; issue_closed = closed }) ≡ []
unfolding comments
no_issue_no_comment e tools closed = ground arith

-- The run as if it had not been killed.
abbrev pub unkilled : RunEnd → RunEnd
unkilled e = record e { kill_reason = none }

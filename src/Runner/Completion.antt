-- ===== src/Runner/Completion.antt =====
-- runner.py, _run_completion_watcher: what is reported about a run that has ended.
use orchestrator_service.Prelude.{
  ℕ, Text, codes, Bool, true, false, ◌&&◌, ◌||◌, not, Option, none, some, List, [], ◌∷◌, ◌++◌, any,
  all, if◌then◌else◌, is_empty, member, lower, starts_with, ℤ, negsuc, is_zero,
}
use orchestrator_service.Watchdog.Loop.{KillReason, hard_ceiling, idle_timeout, WatchdogResult}
use orchestrator_service.Runner.Slug.{DispatchContext}

unfoldable pub execution_tools : List Text
execution_tools = codes "bash" ∷ codes "task" ∷ codes "write" ∷ codes "edit" ∷ []

unfoldable pub planning_leaf : List Text
planning_leaf = codes "webfetch" ∷ codes "read" ∷ codes "grep" ∷ codes "glob" ∷ codes "list" ∷ []

unfoldable pub planning_prefix : List Text
planning_prefix =
    codes "sequential-thinking"
    ∷ codes "memory-graph"
    ∷ codes "web-reader"
    ∷ codes "zread"
    ∷ codes "web-search-prime"
    ∷ codes "web-search"
    ∷ codes "microsoft-learn"
    ∷ codes "microsoft_docs"
    ∷ []

unfoldable pub is_planning_tool : Text → Bool
is_planning_tool name =
    if member name execution_tools
    then false
    else member name planning_leaf || any (λ p. starts_with p name) planning_prefix

unfoldable pub close_on_success_labels : List Text
close_on_success_labels =
    codes "orchestration:dispatch" ∷ codes "gh-issue-tracking:direct-body" ∷ []

-- How the wait for the process went: the watchdog returned; it crashed, and the bounded wait left a
-- code; or there was no watchdog, and the wait ended with a code, perhaps by its timeout.
pub data Waited : Type 0 where
  watched : WatchdogResult → Waited
  crashed : Option ℤ → Waited
  legacy : Option ℤ → Bool → Waited

-- The variables of the function behind its first part.
pub record RunEnd : Type 0 where
  pub exit_code : ℤ
  pub timed_out : Bool
  pub kill_reason : Option KillReason
  pub errors : ℕ
  pub last_error : Text

-- proc.returncode if it is not None else -1
unfoldable pub code_or : Option ℤ → ℤ
code_or none = negsuc 0
code_or (some c) = c

-- result.reason in (REASON_IDLE_TIMEOUT, REASON_HARD_CEILING)
unfoldable pub is_timeout : Option KillReason → Bool
is_timeout (some idle_timeout) = true
is_timeout (some hard_ceiling) = true
is_timeout _ = false

unfoldable pub plain_end : ℤ → Bool → RunEnd
plain_end code timed_out = record {
  exit_code = code;
  timed_out = timed_out;
  kill_reason = none;
  errors = 0;
  last_error = [];
}

unfoldable pub run_end : Waited → RunEnd
unfolding code_or is_timeout plain_end
run_end (watched r) =
    if r.killed
    then record {
      exit_code = r.exit_code;
      timed_out = is_timeout r.reason;
      kill_reason = r.reason;
      errors = r.consecutive_errors;
      last_error = r.last_error_message;
    }
    else plain_end r.exit_code false
run_end (crashed code) = plain_end (code_or code) false
run_end (legacy code timed_out) = plain_end (code_or code) timed_out

unfoldable pub is_failed : RunEnd → Bool
is_failed e = not (is_zero e.exit_code)

-- What the watcher looks at besides: the triggering issue, the tools that the stream names (none
-- where it could not be read), and whether the issue is closed, true where GitHub does not tell.
pub record Evidence : Type 0 where
  pub ctx : Option DispatchContext
  pub tools : List Text
  pub issue_closed : Bool

unfoldable pub is_zero_work : RunEnd → Evidence → Bool
unfolding is_failed
is_zero_work e v = not (is_failed e) && (not (is_empty v.tools) && all is_planning_tool v.tools)

unfoldable pub closes_on_success : Option Text → Bool
closes_on_success none = member [] close_on_success_labels
closes_on_success (some label) = member (lower label) close_on_success_labels

unfoldable pub has_closing_issue : Option DispatchContext → Bool
unfolding closes_on_success
has_closing_issue none = false
has_closing_issue (some ctx) = closes_on_success ctx.trigger_label

unfoldable pub is_incomplete : RunEnd → Evidence → Bool
unfolding is_zero_work has_closing_issue
is_incomplete e v =
    not (is_failed e) && (not (is_zero_work e v) && (has_closing_issue v.ctx && not v.issue_closed))

pub data Classification : Type 0 where
  killed_by : KillReason → Classification
  failed zero_work incomplete completed : Classification

unfoldable pub classification : RunEnd → Evidence → Classification
unfolding is_incomplete
classification e v = elim e.kill_reason [
  | some r ↦ killed_by r
  | none ↦
      if is_failed e
      then failed
      else if is_zero_work e v
      then zero_work
      else if is_incomplete e v
      then incomplete
      else completed
]

-- The comments on the triggering issue, in their order.
pub data Comment : Type 0 where
  failure_comment : Option KillReason → ℤ → Bool → Comment
  zero_work_comment incomplete_comment : List Text → Comment

when : {A : Type 0} → Bool → A → List A
when b a = if b then a ∷ [] else []

has_issue : Option DispatchContext → Bool
has_issue none = false
has_issue (some ctx) = true

unfoldable pub comments : RunEnd → Evidence → List Comment
unfolding is_incomplete when has_issue
comments e v =
    when (is_failed e && has_issue v.ctx) (failure_comment e.kill_reason e.exit_code e.timed_out)
    ++ (when (is_zero_work e v && has_issue v.ctx) (zero_work_comment v.tools)
        ++ when (is_incomplete e v) (incomplete_comment v.tools))

-- The event for the dashboard.
pub data RunEvent : Type 0 where
  dispatch_failed : ℤ → Bool → RunEvent
  dispatch_zero_work dispatch_incomplete : List Text → RunEvent
  dispatch_completed : RunEvent

unfoldable pub run_event : RunEnd → Evidence → RunEvent
unfolding is_incomplete
run_event e v =
    if is_failed e
    then dispatch_failed e.exit_code e.timed_out
    else if is_zero_work e v
    then dispatch_zero_work v.tools
    else if is_incomplete e v
    then dispatch_incomplete v.tools
    else dispatch_completed

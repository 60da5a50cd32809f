-- ===== src/Tests/Reports.antt =====
-- Runs that have ended, for runner.py.
use orchestrator_service.Prelude.{codes, true, false, ◌≡◌, refl, inr, some, [], ◌∷◌, pos, negsuc}
use orchestrator_service.Watchdog.Loop.{WatchdogResult, idle_timeout}
use orchestrator_service.Runner.Slug.{
  DispatchContext, dispatch_slug, prompt_stem, valid_run_stem, prompt_stem-valid,
}
use orchestrator_service.Runner.Completion.{RunEnd, Evidence, classification, comments, run_event}
use orchestrator_service.Runner.Agreement.{comments_for, event_for, reports_agree}

abbrev issue_seven : DispatchContext
issue_seven = record {
  repo_full_name = codes "acme/site.io";
  issue_number = codes "7";
  trigger_label = some (codes "orchestration:plan");
}

abbrev killed_run : WatchdogResult
killed_run = record {
  killed = true;
  reason = some idle_timeout;
  elapsed = 900;
  exit_code = pos 0;
  consecutive_errors = 0;
  last_error_message = [];
  last_line_time = 0;
  total_lines = 4;
}

abbrev killed_end : RunEnd
killed_end = record {
  exit_code = negsuc 14;
  timed_out = true;
  kill_reason = some idle_timeout;
  errors = 0;
  last_error = [];
}

abbrev used_bash : Evidence
used_bash = record { ctx = some issue_seven; tools = codes "bash" ∷ []; issue_closed = false }

reports_agree_example :
    (run_event killed_end used_bash
      ≡ event_for killed_end (codes "bash" ∷ []) (classification killed_end used_bash))
    × (comments killed_end used_bash
        ≡ comments_for killed_end (codes "bash" ∷ []) (classification killed_end used_bash))
unfolding classification
reports_agree_example = reports_agree killed_end issue_seven (codes "bash" ∷ []) false (inr refl)

prompt_stem-valid_example :
    valid_run_stem (
      prompt_stem
        (dispatch_slug (some issue_seven) (some (codes "a b")) (codes "20260101"))
        (codes "x_1"))
    ≡ true
unfolding dispatch_slug orchestrator_service.Runner.Slug.is_safe
prompt_stem-valid_example =
    prompt_stem-valid (some issue_seven) (some (codes "a b")) (codes "20260101") (codes "x_1") refl
      refl refl

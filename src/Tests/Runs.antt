-- ===== src/Tests/Runs.antt =====
-- Runs under the watchdog of watchdog.py.
use orchestrator_service.Prelude.{
  ℕ, zero, suc, ◌+◌, ◌-◌, ◌≤◌, ◌<◌, Text, codes, Bool, true, false, ◌≡◌, ◌↔◌, ◌⊎◌, refl, inl, inr,
  Option, none, some, List, [], ◌∷◌, ◌++◌, pos, negsuc, arith, length, reverse, Any,
}
use orchestrator_service.Watchdog.Signals.{new_state}
use orchestrator_service.Watchdog.Signals.Streak.{
  Line, read_all, leading_errors, last_time, counters_after,
}
use orchestrator_service.Watchdog.Growth.{new_monitor}
use orchestrator_service.Watchdog.Asks.{PermissionAskMonitor, ServerLog}
use orchestrator_service.Watchdog.Asks.Sessions.{Glance, Reads, poll_all, session-own}
use orchestrator_service.Watchdog.Loop.{
  WatchdogConfig, WatchdogResult, KillReason, idle_timeout, Moment, Monitors, run, verdict,
  effective_idle,
}
use orchestrator_service.Watchdog.Loop.Verdict.{Condition, rank, kills_iff}
use orchestrator_service.Watchdog.Loop.Runs.{Ending, GoesOn, run_ends}

abbrev cfg : WatchdogConfig
cfg = record {
  idle_timeout_secs = 900;
  error_grace_secs = 120;
  hard_ceiling_secs = some 3;
  poll_interval_secs = 1;
  max_consecutive_errors = 5;
  permission_ask_grace_secs = 60;
}

-- A process that never ends by itself, at a clock that ticks from 10 on.
abbrev busy : ℕ → Moment
busy k = record {
  exited = none;
  now = 10 + k;
  snap = new_state 10;
  log = record { size = none; read = λ from amount. none };
  code_if_killed = negsuc 14;
}

abbrev asks : PermissionAskMonitor
asks = record {
  enabled = true;
  directory = some (codes "/w/p");
  pos = 0;
  last_ask_time = none;
  last_ask_detail = [];
  session_id = none;
}

abbrev monitors : Monitors
monitors = record { growth = new_monitor false none 10; asks = asks }

run_ends_example :
    (r : WatchdogResult) × (n : ℕ) × (run cfg 10 busy 4 0 monitors ≡ some r)
    × Ending cfg 10 busy monitors n r
    × ((j : ℕ) → j < n → GoesOn cfg 10 busy monitors j)
    × (n ≤ 3)
run_ends_example = run_ends cfg 10 busy monitors 3 refl (λ j. omega arith)

kills_iff_example :
    (verdict cfg 2 1000 (new_state 10) (effective_idle 990 none) none ≡ some idle_timeout) ↔ (
      Condition cfg 2 1000 (new_state 10) 990 none none idle_timeout
      × ((s : KillReason)
          → rank s < rank idle_timeout
          → ¬ Condition cfg 2 1000 (new_state 10) 990 none none s))
kills_iff_example = kills_iff cfg 2 1000 (new_state 10) 990 none none idle_timeout

-- A line of the server log for a new session, which the first poll reads.
abbrev created_line : Text
created_line = codes "message=created id=ses_1 directory=/w/p parentID=undefined"

abbrev glance : Glance
glance = record {
  log = record { size = some (length created_line); read = λ from amount. some created_line };
  now = 20;
}

session-own_example :
    (asks.session_id ≡ some (codes "ses_1"))
    ⊎ Any (λ g. Reads (codes "/w/p") (codes "ses_1") g.log) (glance ∷ [])
unfolding poll_all orchestrator_service.Watchdog.Asks.poll
    orchestrator_service.Watchdog.Asks.last_reply orchestrator_service.Watchdog.Asks.matches_reply
    orchestrator_service.Prelude.starts_with orchestrator_service.Watchdog.Asks.last_ask
    orchestrator_service.Watchdog.Asks.match_ask
    orchestrator_service.Watchdog.Asks.creation_qualifies orchestrator_service.Prelude.is_space
    orchestrator_service.Prelude.same orchestrator_service.Watchdog.Asks.find_created
session-own_example = session-own (codes "/w/p") (codes "ses_1") (glance ∷ []) asks refl refl

abbrev error_line : Line
error_line = record { content = codes "ERROR boom"; at = 12 }

counters_after_example :
    let s = read_all (error_line ∷ error_line ∷ []) (new_state 10) in
    (s.consecutive_errors ≡ leading_errors (reverse (error_line ∷ error_line ∷ [])))
    × (s.total_lines ≡ length (error_line ∷ error_line ∷ []))
    × (s.last_line_time ≡ last_time 10 (error_line ∷ error_line ∷ []))
counters_after_example = counters_after 10 (error_line ∷ error_line ∷ [])

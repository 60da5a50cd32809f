-- ===== src/Watchdog/Loop.antt =====
-- watchdog.py, WatchdogConfig, WatchdogResult and IdleWatchdog: the polls of a run and its end.
pub mod Verdict
pub mod Runs
pub mod Terminate
use orchestrator_service.Prelude.{
  ℕ, zero, suc, ◌+◌, ◌-◌, min, Text, Bool, true, false, ◌&&◌, Option, none, some, ltb, leb,
  if◌then◌else◌, ℤ,
}
use orchestrator_service.Watchdog.Signals.{WatchdogState}
use orchestrator_service.Watchdog.Growth.{ServerLogMonitor, idle_secs}
use orchestrator_service.Watchdog.Asks.{PermissionAskMonitor, ServerLog, poll, pending_ask}

-- Times in one unit. The fields that only choose what is logged are left out.
pub record WatchdogConfig : Type 0 where
  pub idle_timeout_secs : ℕ
  pub error_grace_secs : ℕ
  pub hard_ceiling_secs : Option ℕ
  pub poll_interval_secs : ℕ
  pub max_consecutive_errors : ℕ
  pub permission_ask_grace_secs : ℕ

pub data KillReason : Type 0 where
  hard_ceiling consecutive_errors permission_deadlock idle_timeout : KillReason

-- `reason` is none for "process_exit"; `killed` says so a second time, as in the source.
pub record WatchdogResult : Type 0 where
  pub killed : Bool
  pub reason : Option KillReason
  pub elapsed : ℕ
  pub exit_code : ℤ
  pub consecutive_errors : ℕ
  pub last_error_message : Text
  pub last_line_time : ℕ
  pub total_lines : ℕ

-- What one turn of the loop reads: whether the process has ended, the clock, the state that the
-- readers left, the server log, and the code that `_terminate` would return.
pub record Moment : Type 0 where
  pub exited : Option ℤ
  pub now : ℕ
  pub snap : WatchdogState
  pub log : ServerLog
  pub code_if_killed : ℤ

pub record Monitors : Type 0 where
  pub growth : ServerLogMonitor
  pub asks : PermissionAskMonitor

-- The more recent of the two signals.
unfoldable pub effective_idle : ℕ → Option ℕ → ℕ
effective_idle line_idle none = line_idle
effective_idle line_idle (some log_idle) = min line_idle log_idle

unfoldable pub ceiling_hit : Option ℕ → ℕ → Bool
ceiling_hit none elapsed = false
ceiling_hit (some limit) elapsed = leb limit elapsed

unfoldable pub ask_expired : ℕ → ℕ → Option (ℕ × Text) → Bool
ask_expired grace now none = false
ask_expired grace now (some (at, detail)) = leb grace (now - at)

-- The four tests of a turn, in their order.
unfoldable pub verdict :
    WatchdogConfig → ℕ → ℕ → WatchdogState → ℕ → Option (ℕ × Text) → Option KillReason
unfolding ceiling_hit ask_expired
verdict cfg elapsed now snap idle pending =
    if ceiling_hit cfg.hard_ceiling_secs elapsed
    then some hard_ceiling
    else if leb cfg.max_consecutive_errors snap.consecutive_errors
        && leb (now - snap.last_error_time) cfg.error_grace_secs
    then some consecutive_errors
    else if ask_expired cfg.permission_ask_grace_secs now pending
    then some permission_deadlock
    else if leb cfg.idle_timeout_secs idle
    then some idle_timeout
    else none

unfoldable pub watch : Moment → Monitors → Monitors
watch m mons = record {
  growth = (idle_secs m.log.size m.now mons.growth).1;
  asks = poll m.log m.now mons.asks;
}

-- The decision of one turn for a process that still runs.
unfoldable pub turn_verdict : WatchdogConfig → ℕ → Moment → Monitors → Option KillReason
unfolding verdict effective_idle watch
turn_verdict cfg start m mons =
    let idle =
      effective_idle (m.now - m.snap.last_line_time) (idle_secs m.log.size m.now mons.growth).0 in
    verdict cfg (m.now - start) m.now m.snap idle (pending_ask (watch m mons).asks)

unfoldable pub result_of : ℕ → Moment → Option KillReason → ℤ → WatchdogResult
result_of start m reason code = record {
  killed = elim reason [ none ↦ false | some r ↦ true ];
  reason = reason;
  elapsed = m.now - start;
  exit_code = code;
  consecutive_errors = m.snap.consecutive_errors;
  last_error_message = m.snap.last_error_message;
  last_line_time = m.snap.last_line_time;
  total_lines = m.snap.total_lines;
}

-- What a turn does: it returns, or it goes on with the monitors as the polls left them.
pub data Turn : Type 0 where
  ended : WatchdogResult → Turn
  going_on : Monitors → Turn

unfoldable pub judge : ℕ → Moment → Monitors → Option KillReason → Turn
unfolding result_of
judge start m mons none = going_on mons
judge start m mons (some r) = ended (result_of start m (some r) m.code_if_killed)

unfoldable pub turn : WatchdogConfig → ℕ → Moment → Monitors → Turn
unfolding result_of judge
turn cfg start m mons = elim m.exited [
  | some code ↦ ended (result_of start m none code)
  | none ↦ judge start m (watch m mons) (turn_verdict cfg start m mons)
]

-- `while True`, on fuel: `moments k` is what turn k reads, and none means that the fuel ran out.
unfoldable pub run : WatchdogConfig → ℕ → (ℕ → Moment) → ℕ → ℕ → Monitors → Option WatchdogResult
run cfg start moments zero k mons = none
run cfg start moments (suc fuel) k mons = elim (turn cfg start (moments k) mons) [
  | ended r ↦ some r
  | going_on mons' ↦ run cfg start moments fuel (k + 1) mons'
]

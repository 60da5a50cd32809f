-- ===== src/Watchdog/Loop/Verdict.antt =====
-- watchdog.py, IdleWatchdog.run: when a turn kills the run, and for which reason.
use orchestrator_service.Prelude.{ℕ, ◌-◌, ◌≤◌, ◌<◌, Text, Option, none, some, ◌≡◌, ◌↔◌, arith}
use orchestrator_service.Watchdog.Signals.{WatchdogState}
use orchestrator_service.Watchdog.Loop.{
  WatchdogConfig, KillReason, hard_ceiling, consecutive_errors, permission_deadlock, idle_timeout,
  verdict, effective_idle,
}

-- The condition of each reason by itself.
abbrev pub CeilingReached : Option ℕ → ℕ → Type 0
CeilingReached none elapsed = ⊥
CeilingReached (some limit) elapsed = limit ≤ elapsed

abbrev pub AskExpired : ℕ → ℕ → Option (ℕ × Text) → Type 0
AskExpired grace now none = ⊥
AskExpired grace now (some (at, detail)) = grace ≤ now - at

-- No sign of life for `timeout`: none from the client, and none in a readable server log.
abbrev pub BothSilent : ℕ → ℕ → Option ℕ → Type 0
BothSilent timeout line_idle none = timeout ≤ line_idle
BothSilent timeout line_idle (some log_idle) = (timeout ≤ line_idle) × (timeout ≤ log_idle)

-- The order of the tests.
abbrev pub rank : KillReason → ℕ
rank hard_ceiling = 0
rank consecutive_errors = 1
rank permission_deadlock = 2
rank idle_timeout = 3

module _ (cfg : WatchdogConfig) (elapsed now : ℕ) (snap : WatchdogState) where
  abbrev pub Condition : ℕ → Option ℕ → Option (ℕ × Text) → KillReason → Type 0
  Condition line_idle log_idle pending hard_ceiling = CeilingReached cfg.hard_ceiling_secs elapsed
  Condition line_idle log_idle pending consecutive_errors =
      (cfg.max_consecutive_errors ≤ snap.consecutive_errors)
      × (now - snap.last_error_time ≤ cfg.error_grace_secs)
  Condition line_idle log_idle pending permission_deadlock =
      AskExpired cfg.permission_ask_grace_secs now pending
  Condition line_idle log_idle pending idle_timeout =
      BothSilent cfg.idle_timeout_secs line_idle log_idle

  module _ (line_idle : ℕ) (log_idle : Option ℕ) (pending : Option (ℕ × Text)) where
    first_of_some :
        (r : KillReason)
        → verdict cfg elapsed now snap (effective_idle line_idle log_idle) pending ≡ some r
        → Condition line_idle log_idle pending r
          × ((s : KillReason) → rank s < rank r → ¬ Condition line_idle log_idle pending s)
    unfolding verdict effective_idle
    first_of_some hard_ceiling h = (ground arith, λ s l c. omega arith)
    first_of_some consecutive_errors h =
        (ground arith, elim [ hard_ceiling ↦ λ l c. ground arith | _ ↦ λ l c. omega arith ])
    first_of_some permission_deadlock h = (
      ground arith,
      elim [
        | hard_ceiling ↦ λ l c. ground arith
        | consecutive_errors ↦ λ l c. ground arith
        | _ ↦ λ l c. omega arith
      ],
    )
    first_of_some idle_timeout h = (ground arith, λ s l c. ground arith)

    some_of_first :
        (r : KillReason)
        → Condition line_idle log_idle pending r
          × ((s : KillReason) → rank s < rank r → ¬ Condition line_idle log_idle pending s)
        → verdict cfg elapsed now snap (effective_idle line_idle log_idle) pending ≡ some r
    unfolding verdict effective_idle
    some_of_first hard_ceiling (c, h) = ground arith
    some_of_first consecutive_errors (c, h) = ground (arith, h hard_ceiling)
    some_of_first permission_deadlock (c, h) = ground (arith, h hard_ceiling, h consecutive_errors)
    some_of_first idle_timeout (c, h) =
        ground (arith, h hard_ceiling, h consecutive_errors, h permission_deadlock)

    -- A turn kills for a reason exactly if the condition of that reason holds and none of those
    -- that stand before it: ceiling, errors, permission, idleness.
    pub kills_iff :
        (r : KillReason)
        → (verdict cfg elapsed now snap (effective_idle line_idle log_idle) pending ≡ some r) ↔ (
            Condition line_idle log_idle pending r
            × ((s : KillReason) → rank s < rank r → ¬ Condition line_idle log_idle pending s))
    kills_iff r = (first_of_some r, some_of_first r)

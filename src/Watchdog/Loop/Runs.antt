-- ===== src/Watchdog/Loop/Runs.antt =====
-- watchdog.py, IdleWatchdog.run: the loop ends, and its result says what happened.
use orchestrator_service.Prelude.{
  ℕ, zero, suc, ◌+◌, ◌-◌, ◌≤◌, ◌<◌, none, some, ◌≡◌, refl, ◌⊎◌, inl, inr, arith, ℤ, Option-cases,
}
use orchestrator_service.Watchdog.Loop.{
  WatchdogConfig, KillReason, WatchdogResult, Moment, Monitors, Turn, ended, going_on, watch,
  turn_verdict, result_of, turn, run,
}

Turn-cases :
    (t : Turn) → ((r : WatchdogResult) × (t ≡ ended r)) ⊎ ((mons : Monitors) × (t ≡ going_on mons))
Turn-cases (ended r) = inl (r, refl)
Turn-cases (going_on mons) = inr (mons, refl)

module _ (cfg : WatchdogConfig) (start : ℕ) (moments : ℕ → Moment) (init : Monitors) where
  -- The monitors after `n` polls.
  pub watched : ℕ → Monitors
  watched zero = init
  watched (suc n) = watch (moments n) (watched n)

  -- Why the loop returned in turn `n`: the process had ended by itself, or it ran and the verdict
  -- of this turn was a reason to kill it.
  pub data Ending (n : ℕ) (r : WatchdogResult) : Type 0 where
    own_exit :
        (code : ℤ)
        → (moments n).exited ≡ some code
        → r ≡ result_of start (moments n) none code
        → Ending n r
    killed_for :
        (reason : KillReason)
        → (moments n).exited ≡ none
        → turn_verdict cfg start (moments n) (watched n) ≡ some reason
        → r ≡ result_of start (moments n) (some reason) (moments n).code_if_killed
        → Ending n r

  -- What holds in a turn that goes on.
  pub record GoesOn (n : ℕ) : Type 0 where
    pub still_runs : (moments n).exited ≡ none
    pub no_reason : turn_verdict cfg start (moments n) (watched n) ≡ none

  ended-Ending :
      (n : ℕ) (r : WatchdogResult) → turn cfg start (moments n) (watched n) ≡ ended r → Ending n r
  unfolding turn
  ended-Ending n r h = elim (Option-cases (moments n).exited) [
    | inr (code, e) ↦ own_exit code e (ground arith)
    | inl e ↦ elim (Option-cases (turn_verdict cfg start (moments n) (watched n))) [
      | inr (reason, v) ↦ killed_for reason e v (ground arith)
      | inl v ↦ absurd (ground arith)
    ]
  ]

  going_on-GoesOn :
      (n : ℕ) (mons : Monitors)
      → turn cfg start (moments n) (watched n) ≡ going_on mons
      → GoesOn n × (mons ≡ watched (suc n))
  unfolding turn watched
  going_on-GoesOn n mons h = (ground arith, ground arith)

  -- A turn that goes on comes before the ceiling.
  going_on-lt :
      (limit k : ℕ)
      → cfg.hard_ceiling_secs ≡ some limit
      → GoesOn k
      → (moments k).now - start < limit
  unfolding turn_verdict
  going_on-lt limit k c g = ground (arith, g.no_reason)

  GoesOn-below :
      (k n : ℕ)
      → GoesOn k
      → ((j : ℕ) → suc k ≤ j → j < n → GoesOn j)
      → (j : ℕ) → k ≤ j
      → j < n
      → GoesOn j
  GoesOn-below k n g rest j low high =
      let at_or_after : (j ≡ k) ⊎ (k < j) = omega arith in
      elim at_or_after [ inl e ↦ rw e g | inr l ↦ rest j l high ]

  -- The loop from turn `k` on: it returns in a turn `n`, and went on in all turns from `k` to `n`.
  run_from :
      (limit fuel k : ℕ)
      → cfg.hard_ceiling_secs ≡ some limit
      → ((j : ℕ) → start + j ≤ (moments j).now)
      → k ≤ limit
      → limit < fuel + k
      → (r : WatchdogResult) × (n : ℕ) × (run cfg start moments fuel k (watched k) ≡ some r)
        × Ending n r
        × ((j : ℕ) → k ≤ j → j < n → GoesOn j)
        × (n ≤ limit)
  unfolding run
  run_from limit zero k c clock low h = absurd (omega arith)
  run_from limit (suc fuel) k c clock low h =
      elim (Turn-cases (turn cfg start (moments k) (watched k))) [
        | inl (r, e) ↦
            (r, k, rw (e, run) refl, ended-Ending k r e, λ j a b. absurd (omega arith), low)
        | inr (mons, e) ↦
            let (g, same) = going_on-GoesOn k mons e in
            let early = going_on-lt limit k c g in
            let later = clock k in
            let (r, n, ran, why, before, bound) =
              run_from limit fuel (suc k) c clock (omega arith) (omega arith) in
            let next : k + 1 ≡ suc k = omega arith in
            (r, n, rw (e, run) (rw (next, same) ran), why, GoesOn-below k n g before, bound)
      ]

  -- With a hard ceiling, and a clock that goes on by a unit or more from turn to turn, the loop
  -- returns within as many turns as the ceiling has units, and one more. It returns in a turn in
  -- which the process had ended by itself, with its code, or in which the verdict was a reason, with
  -- this reason; in all turns before, the process ran and there was no reason to kill it.
  pub run_ends :
      (limit : ℕ)
      → cfg.hard_ceiling_secs ≡ some limit
      → ((j : ℕ) → start + j ≤ (moments j).now)
      → (r : WatchdogResult) × (n : ℕ) × (run cfg start moments (suc limit) 0 init ≡ some r)
        × Ending n r
        × ((j : ℕ) → j < n → GoesOn j)
        × (n ≤ limit)
  unfolding watched
  run_ends limit c clock =
      let (r, n, ran, why, before, bound) =
        run_from limit (suc limit) 0 c clock (omega arith) (omega arith) in
      (r, n, ran, why, λ j l. before j (omega arith) l, bound)

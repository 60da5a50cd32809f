-- ===== src/Watchdog/Growth.antt =====
-- watchdog.py, _ServerLogMonitor: the server log counts as active while it grows.
use orchestrator_service.Prelude.{
  ℕ, ◌-◌, ◌<◌, ◌≢◌, Bool, true, false, Option, none, some, ◌≡◌, refl, List, [], ◌∷◌, ltb,
  if◌then◌else◌, arith, All,
}

-- `enabled` is `_path is not None`.
pub record ServerLogMonitor : Type 0 where
  pub enabled : Bool
  pub pos : ℕ
  pub last_growth : ℕ

-- What `stat().st_size` gave, `none` for an OSError; 0 stands for no size at all.
abbrev size_or_zero : Option ℕ → ℕ
size_or_zero none = 0
size_or_zero (some n) = n

unfoldable pub new_monitor : Bool → Option ℕ → ℕ → ServerLogMonitor
new_monitor enabled size start = record {
  enabled = enabled;
  pos = if enabled then size_or_zero size else 0;
  last_growth = start;
}

-- The part of `idle_secs` behind a size that could be read.
unfoldable pub grow : ℕ → ℕ → ServerLogMonitor → ServerLogMonitor
grow size now m =
    let pos = if ltb size m.pos then 0 else m.pos in
    if ltb pos size then record m { pos = size; last_growth = now } else record m { pos = pos }

unfoldable pub idle_secs : Option ℕ → ℕ → ServerLogMonitor → Option ℕ × ServerLogMonitor
unfolding grow
idle_secs none now m = (none, m)
idle_secs (some size) now m =
    if m.enabled then (some (now - (grow size now m).last_growth), grow size now m) else (none, m)

-- The answer on every branch: none without a readable log; 0 if the log has grown, or was cut and
-- holds something again; the time since the last growth if it holds what it held.
pub idle_secs_lem :
    (size now : ℕ) (m : ServerLogMonitor)
    → ((idle_secs none now m).0 ≡ none)
      × (m.enabled ≡ false → (idle_secs (some size) now m).0 ≡ none)
      × (m.enabled ≡ true → size ≢ m.pos → 0 < size → (idle_secs (some size) now m).0 ≡ some 0)
      × (m.enabled ≡ true
          → size ≡ m.pos
          → (idle_secs (some size) now m).0 ≡ some (now - m.last_growth))
      × (m.enabled ≡ true → (idle_secs (some size) now m).1.pos ≡ size)
unfolding idle_secs
idle_secs_lem size now m = (ground arith, ground arith, ground arith, ground arith, ground arith)

-- One poll of the log: its size, if it could be read, and the time.
pub record Look : Type 0 where
  pub size : Option ℕ
  pub now : ℕ

pub look_all : List Look → ServerLogMonitor → ServerLogMonitor
look_all [] m = m
look_all (l ∷ ls) m = look_all ls (idle_secs l.size l.now m).1

-- A monitor that has seen no growth since the start.
record IsSilent (size start : ℕ) (m : ServerLogMonitor) : Type 0 where
  on : m.enabled ≡ true
  at_end : m.pos ≡ size
  since : m.last_growth ≡ start

idle_secs-IsSilent :
    (size start now : ℕ) (seen : Option ℕ) (m : ServerLogMonitor)
    → ((n : ℕ) → seen ≡ some n → n ≡ size)
    → IsSilent size start m
    → IsSilent size start (idle_secs seen now m).1
unfolding idle_secs
idle_secs-IsSilent size start now none m h s = s
idle_secs-IsSilent size start now (some n) m h s = ground (arith, h n refl)

look_all-IsSilent :
    (size start : ℕ) (ls : List Look) (m : ServerLogMonitor)
    → All (λ l. (n : ℕ) → l.size ≡ some n → n ≡ size) ls
    → IsSilent size start m
    → IsSilent size start (look_all ls m)
unfolding look_all
look_all-IsSilent size start [] m h s = s
look_all-IsSilent size start (l ∷ ls) m (h, hs) s =
    look_all-IsSilent size start ls _ hs (idle_secs-IsSilent size start l.now l.size m h s)

-- A log that is as long at each readable poll as when the run began never resets the idle clock:
-- the next poll says that it has been idle since the start, however long the log was before.
pub silent_log_idle :
    (size start now : ℕ) (ls : List Look)
    → All (λ l. (n : ℕ) → l.size ≡ some n → n ≡ size) ls
    → (idle_secs (some size) now (look_all ls (new_monitor true (some size) start))).0
      ≡ some (now - start)
unfolding idle_secs
silent_log_idle size start now ls h = ground (arith, silent)
  where
    silent : IsSilent size start (look_all ls (new_monitor true (some size) start))
    silent =
        look_all-IsSilent size start ls _ h
          (unfold new_monitor in record { on = refl; at_end = refl; since = refl })

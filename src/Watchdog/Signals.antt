-- ===== src/Watchdog/Signals.antt =====
-- watchdog.py: which output lines are errors, and the activity state that the readers update.
pub mod Streak
use orchestrator_service.Prelude.{
  ℕ, suc, ◌+◌, Text, codes, Bool, true, false, ◌||◌, List, [], ◌∷◌, any, contains, starts_with,
  lower, strip, lstrip, take, if◌then◌else◌,
}

-- The five patterns that are searched whatever the case, as text in lower case.
unfoldable pub error_texts : List Text
error_texts =
    codes "level=error"
    ∷ codes "ai_apicallerror"
    ∷ codes "usage limit reached"
    ∷ codes "rate limit"
    ∷ []

-- `^\s*Error:`
unfoldable pub error_start : Text
error_start = codes "error:"

-- The glyph that marks a failed tool call.
abbrev pub cross_mark : ℕ
cross_mark = 10007

pub data SignalKind : Type 0 where
  normal error : SignalKind

unfoldable pub is_error_line : Text → Bool
unfolding error_texts error_start
is_error_line line =
    any (λ p. contains p (lower line)) error_texts
    || starts_with error_start (lstrip (lower line))
    || contains (cross_mark ∷ []) line

unfoldable pub classify_line : Text → SignalKind
classify_line line = if is_error_line line then error else normal

-- The fields are read together under the lock, so the state is its own snapshot.
pub record WatchdogState : Type 0 where
  pub start_time : ℕ
  pub last_line_time : ℕ
  pub consecutive_errors : ℕ
  pub last_error_time : ℕ
  pub last_error_message : Text
  pub total_lines : ℕ

unfoldable pub new_state : ℕ → WatchdogState
new_state start = record {
  start_time = start;
  last_line_time = start;
  consecutive_errors = 0;
  last_error_time = 0;
  last_error_message = [];
  total_lines = 0;
}

unfoldable pub count_line : SignalKind → Text → ℕ → WatchdogState → WatchdogState
count_line error line now s = record s {
  last_line_time = now;
  total_lines = s.total_lines + 1;
  consecutive_errors = s.consecutive_errors + 1;
  last_error_time = now;
  last_error_message = take 200 (strip line);
}
count_line normal line now s = record s {
  last_line_time = now;
  total_lines = s.total_lines + 1;
  consecutive_errors = 0;
}

-- `now` is time.monotonic() at the call.
unfoldable pub record_line : Text → ℕ → WatchdogState → WatchdogState
unfolding count_line
record_line line now s = count_line (classify_line line) line now s

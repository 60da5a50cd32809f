-- ===== src/Watchdog/Signals/Streak.antt =====
-- watchdog.py: what the counters say about the lines read so far.
use mathlib.Core.List.{append-nil}
use orchestrator_service.Prelude.{
  ℕ, ◌+◌, Text, ◌≡◌, refl, List, [], ◌∷◌, ◌++◌, length, reverse, reverse-cons-append, if◌then◌else◌,
  arith, ◌∙◌, ap,
}
use orchestrator_service.Watchdog.Signals.{
  WatchdogState, new_state, is_error_line, classify_line, record_line,
}

-- A line and the time at which a reader passed it on.
pub record Line : Type 0 where
  pub content : Text
  pub at : ℕ

-- The lines in the order in which the readers took the lock.
unfoldable pub read_all : List Line → WatchdogState → WatchdogState
read_all [] s = s
read_all (l ∷ ls) s = read_all ls (record_line l.content l.at s)

-- How many error lines the list begins with.
abbrev pub leading_errors : List Line → ℕ
leading_errors [] = 0
leading_errors (l ∷ ls) = let n = leading_errors ls in if is_error_line l.content then n + 1 else 0

abbrev pub last_time : ℕ → List Line → ℕ
last_time t [] = t
last_time t (l ∷ ls) = last_time l.at ls

record_line-counts :
    (l : Line) (past : List Line) (s : WatchdogState)
    → s.consecutive_errors ≡ leading_errors past
    → s.total_lines ≡ length past
    → ((record_line l.content l.at s).consecutive_errors ≡ leading_errors (l ∷ past))
      × ((record_line l.content l.at s).total_lines ≡ length (l ∷ past))
      × ((record_line l.content l.at s).last_line_time ≡ l.at)
unfolding record_line classify_line
record_line-counts l past s e t = ground arith

-- `past` is what was read before, the latest first.
read_all-counts :
    (ls past : List Line) (s : WatchdogState)
    → s.consecutive_errors ≡ leading_errors past
    → s.total_lines ≡ length past
    → ((read_all ls s).consecutive_errors ≡ leading_errors (reverse ls ++ past))
      × ((read_all ls s).total_lines ≡ length past + length ls)
      × ((read_all ls s).last_line_time ≡ last_time s.last_line_time ls)
unfolding read_all
read_all-counts [] past s e t = (e, omega arith, refl)
read_all-counts (l ∷ ls) past s e t =
    let (e', t', at) = record_line-counts l past s e t in
    let (errors, total, last) =
      read_all-counts ls (l ∷ past) (record_line l.content l.at s) e' t' in
    (rw reverse-cons-append errors, omega arith, last ∙ ap (λ t. last_time t ls) at)

-- After any lines, the error counter is the number of error lines at the end of them, the line
-- counter is their number, and the activity time is that of the last line, or the start.
pub counters_after :
    (start : ℕ) (ls : List Line)
    → let s = read_all ls (new_state start) in
      (s.consecutive_errors ≡ leading_errors (reverse ls))
      × (s.total_lines ≡ length ls)
      × (s.last_line_time ≡ last_time start ls)
unfolding new_state
counters_after start ls =
    let (errors, total, last) = read_all-counts ls [] (new_state start) refl refl in
    (errors ∙ ap leading_errors (append-nil (reverse ls)), omega arith, last)

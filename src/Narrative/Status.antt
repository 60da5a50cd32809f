-- ===== src/Narrative/Status.antt =====
-- run_narrative.py: how a run ended, and parse_narrative.
use orchestrator_service.Prelude.{
  ℕ, Text, codes, Bool, false, Option, none, some, List, [], ◌∷◌, ◌++◌, same, if◌then◌else◌, Dict,
  lookup, ◌==◌,
}
use orchestrator_service.Json.{
  Json, null, bool, text, arr, obj, empty_text, empty_arr, Py, ok, raise, type_error,
  attribute_error, ◌>>=◌, truthy, to_text, Fields, find_field,
}
use orchestrator_service.Narrative.Events.{parse_events}
use orchestrator_service.Narrative.Timeline.{Entry, build_timeline, group_timeline}
use orchestrator_service.Narrative.Stats.{Stats, build_stats}

-- _CLASSIFICATION_STATUS
unfoldable pub classification_status : Dict Text
classification_status =
    (codes "completed", codes "completed")
    ∷ (codes "failed", codes "failed")
    ∷ (codes "zero_work", codes "zero_work")
    ∷ (codes "incomplete", codes "incomplete")
    ∷ (codes "idle_timeout", codes "timeout")
    ∷ (codes "hard_ceiling", codes "timeout")
    ∷ (codes "consecutive_errors", codes "error")
    ∷ (codes "permission_deadlock", codes "error")
    ∷ []

-- _KILL_REASON_MESSAGE
unfoldable pub kill_reason_message : Dict Text
kill_reason_message =
    (codes "idle_timeout", codes "Watchdog killed: agent went idle (no output)")
    ∷ (codes "hard_ceiling", codes "Watchdog killed: hit the hard runtime ceiling")
    ∷ (codes "consecutive_errors", codes "Watchdog killed: consecutive errors exceeded threshold")
    ∷ (
      codes "permission_deadlock",
      codes "Watchdog killed: stuck on an unanswered permission prompt",
    )
    ∷ (codes "process_exit", codes "Process exited")
    ∷ []

-- table.get(value, default), for a table whose keys are texts: a list or a dict has no hash
unfoldable pub get_or_default : Dict Text → Json → Text → Py Text
get_or_default table (text t) default = elim (lookup t table) [ none ↦ ok default | some v ↦ ok v ]
get_or_default table (arr vs) default = raise type_error
get_or_default table (obj fs) default = raise type_error
get_or_default table _ default = ok default

-- value == "..."
unfoldable pub equals : Text → Json → Bool
equals t (text s) = same s t
equals t _ = false

-- `repr` is str of a value that is no text.
module _ (repr : Json → Text) where
  -- The message of a run that was not killed.
  unfoldable pub exit_message : Json → Json → Bool → Text
  exit_message classification exit_code timed_out =
      if equals (codes "completed") classification
      then codes "Completed successfully"
      else if equals (codes "zero_work") classification
      then codes "Exited cleanly but no execution tools were used (planning only)"
      else if equals (codes "incomplete") classification
      then codes "Exited cleanly but the dispatch issue is still open (incomplete)"
      else if equals (codes "failed") classification
      then codes "Failed (exit code " ++ (to_text repr exit_code ++ codes ")")
      else if timed_out
      then codes "Timed out"
      else codes "Exited (code " ++ (to_text repr exit_code ++ codes ")")

  unfoldable pub message_of : Json → Json → Json → Bool → Py Text
  unfolding exit_message kill_reason_message
  message_of kill_reason classification exit_code timed_out =
      if truthy kill_reason
      then get_or_default kill_reason_message kill_reason
          (codes "Killed (" ++ (to_text repr kill_reason ++ codes ")"))
      else ok (exit_message classification exit_code timed_out)

  unfoldable pub determine_status : Fields → Py (Text × Text)
  unfolding message_of classification_status
  determine_status manifest =
      let classification = find_field (codes "classification") empty_text manifest in
      let exit_code = find_field (codes "exit_code") null manifest in
      let kill_reason = find_field (codes "kill_reason") null manifest in
      let timed_out = truthy (find_field (codes "timed_out") (bool false) manifest) in
      if truthy (find_field (codes "ended_at") null manifest)
      then get_or_default classification_status classification (codes "unknown") >>= (λ status.
        message_of kill_reason classification exit_code timed_out
        >>= (λ message. ok (status, message)))
      else ok (codes "running", codes "Run in progress…")

-- ts.replace("Z", "+00:00")
unfoldable pub replace_zone : Text → Text
replace_zone [] = []
replace_zone (c ∷ t) =
    let rest = replace_zone t in if c == b'Z' then codes "+00:00" ++ rest else c ∷ rest

-- `from_iso` is datetime.fromisoformat with none for a ValueError, `seconds` the rounded difference
-- of two times, which raises for one with a zone and one without.
module _ {Stamp Real : Type 0} (from_iso : Text → Option Stamp)
    (seconds : Stamp → Stamp → Py Real) where
  unfoldable pub parse_iso : Json → Py (Option Stamp)
  unfolding replace_zone
  parse_iso (text t) = if truthy (text t) then ok (from_iso (replace_zone t)) else ok none
  parse_iso v = if truthy v then raise attribute_error else ok none

  difference : Option Stamp → Option Stamp → Py (Option Real)
  difference none end = ok none
  difference (some s) none = ok none
  difference (some s) (some e) = seconds e s >>= (λ d. ok (some d))

  unfoldable pub duration_s : Json → Json → Py (Option Real)
  unfolding parse_iso difference
  duration_s started_at ended_at =
      parse_iso started_at >>= (λ start. parse_iso ended_at >>= (λ end. difference start end))

-- What parse_narrative returns: its summary, timeline and stats.
pub record Narrative (Real : Type 0) : Type 0 where
  pub status : Text
  pub duration : Option Real
  pub started_at : Json
  pub ended_at : Json
  pub exit_code : Json
  pub exit_message : Text
  pub classification : Json
  pub tools : Json
  pub timeline : List (Entry Real)
  pub stats : Stats

module _ {Stamp Real : Type 0} (from_iso : Text → Option Stamp) (seconds : Stamp → Stamp → Py Real)
    (repr : Json → Text) (decimal : ℕ → Text) (nothing : Real) (is_nothing : Real → Bool)
    (portion : Real → ℕ → ℕ → Real) where
  unfoldable pub parse_narrative : Text → Fields → Py (Narrative Real)
  unfolding duration_s determine_status
  parse_narrative stderr manifest =
      let events = parse_events stderr in
      let field = λ (key : Text). find_field key null manifest in
      duration_s from_iso seconds (field (codes "started_at")) (field (codes "ended_at"))
      >>= (λ dur. determine_status repr manifest >>= (λ (status, message). ok (record {
        status = status;
        duration = dur;
        started_at = field (codes "started_at");
        ended_at = field (codes "ended_at");
        exit_code = field (codes "exit_code");
        exit_message = message;
        classification = field (codes "classification");
        tools = find_field (codes "tools") empty_arr manifest;
        timeline = group_timeline decimal (build_timeline nothing is_nothing portion events dur);
        stats = build_stats events;
      })))

-- ===== src/Tests/Narratives.antt =====
-- Runs that have ended, and their events, for run_narrative.py.
use orchestrator_service.Prelude.{
  ℕ, All, ◌++◌, Text, codes, true, ◌≡◌, refl, none, some, List, [], ◌∷◌, map, negsuc, ◌==◌, sorted,
}
use orchestrator_service.Json.{Json, Fields, end, field, text, ok, to_text}
use orchestrator_service.Watchdog.Loop.{idle_timeout}
use orchestrator_service.Runner.Completion.{RunEnd, Evidence, classification}
use orchestrator_service.Runner.Manifest.{update, completion_fields, update_run_manifest, code_json}
use orchestrator_service.Narrative.Events.{Kind, read, tool, Event, parse_events}
use orchestrator_service.Runner.Stream.{extract_tool_names}
use orchestrator_service.Narrative.Consumers.{IsCounted, parse_events-extract_tool_names}
use orchestrator_service.Narrative.Timeline.{Entry, build_timeline, group_timeline}
use orchestrator_service.Narrative.Grouping.{all_shown, AreApart, group_timeline-shown}
use orchestrator_service.Narrative.Status.{determine_status}
use orchestrator_service.Narrative.Ended.{narrated, determine_status-update_run_manifest}

abbrev idle_end : RunEnd
idle_end = record {
  exit_code = negsuc 14;
  timed_out = true;
  kill_reason = some idle_timeout;
  errors = 0;
  last_error = [];
}

abbrev planned : Evidence
planned = record { ctx = none; tools = codes "read" ∷ codes "bash" ∷ []; issue_closed = true }

abbrev no_repr : Json → Text
no_repr v = codes "-15"

abbrev minus : ℕ → Text
minus n = codes "-15"

abbrev started : Fields
started = field (codes "stem") (text (codes "prompt-1")) end

abbrev ended : Fields
ended = update started (completion_fields minus sorted (codes "2026-07-23") idle_end planned)

determine_status-update_run_manifest_example :
    determine_status no_repr ended
    ≡ ok
        (narrated (to_text no_repr (code_json minus (negsuc 14))) (classification idle_end planned))
unfolding update_run_manifest
determine_status-update_run_manifest_example =
    determine_status-update_run_manifest no_repr minus sorted (some (Json.obj started))
      (codes "2026-07-23") idle_end planned ended refl refl

abbrev event : ℕ → Kind → Text → Event
event seq kind detail = record { seq = seq; kind = kind; agent = none; detail = detail }

abbrev three_events : List Event
three_events =
    event 1 read (codes "src/a.py")
    ∷ event 2 read (codes "src/b.py")
    ∷ event 3 tool (codes "bash")
    ∷ []

abbrev digit : ℕ → Text
digit n = codes "2"

-- Times in whole units.
abbrev share : ℕ → ℕ → ℕ → ℕ
share total k n = k

group_timeline-shown_example :
    (all_shown (group_timeline digit (build_timeline 0 (λ n. n == 0) share three_events (some 9)))
      ≡ map (λ (e : Event). (e.kind, e.detail)) three_events)
    × AreApart (group_timeline digit (build_timeline 0 (λ n. n == 0) share three_events (some 9)))
group_timeline-shown_example =
    group_timeline-shown 0 (λ n. n == 0) share digit three_events (some 9)

-- The two reads are one entry.
grouped_reads :
    map
      (λ (e : Entry ℕ). e.summary)
      (group_timeline digit (build_timeline 0 (λ n. n == 0) share three_events (some 9)))
    ≡ codes "Read 2 files" ∷ codes "bash" ∷ []
unfolding group_timeline build_timeline update_run_manifest
    orchestrator_service.Narrative.Timeline.same_kind
grouped_reads = refl

-- A read, a cut call and a line that is no event.
abbrev stream : Text
stream = 8594 ∷ codes " Read src/a.py\nINFO boot\n" ++ 9881 ∷ codes " bash ls -la"

parse_events-extract_tool_names_example :
    All (IsCounted (extract_tool_names stream)) (parse_events stream)
parse_events-extract_tool_names_example = parse_events-extract_tool_names stream

two_tools : extract_tool_names stream ≡ codes "read" ∷ codes "bash" ∷ []
unfolding extract_tool_names orchestrator_service.Prelude.strip
    orchestrator_service.Runner.Stream.ansi_length orchestrator_service.Prelude.member
    orchestrator_service.Prelude.same orchestrator_service.Prelude.lower
    orchestrator_service.Runner.Stream.token_char
two_tools = refl

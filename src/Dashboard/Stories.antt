-- ===== src/Dashboard/Stories.antt =====
-- dashboard.py, _run_narrative_for: the narrative of a run, from its files.
use orchestrator_service.Prelude.{ℕ, Text, Bool, Option, List}
use orchestrator_service.Json.{Json, Py}
use orchestrator_service.Narrative.Status.{Narrative, parse_narrative}
use orchestrator_service.Dashboard.Runs.{
  LogDir, Answer, answer, refused, read_run_logs, load_single_manifest,
}

module _ {Stamp Real : Type 0} (from_iso : Text → Option Stamp) (seconds : Stamp → Stamp → Py Real)
    (repr : Json → Text) (decimal : ℕ → Text) (nothing : Real) (is_nothing : Real → Bool)
    (portion : Real → ℕ → ℕ → Real) (parse : List ℕ → Option Json) (decode : List ℕ → Text) where
  -- The factory of the cached value.
  unfoldable pub build_narrative : LogDir → Text → Answer (Py (Narrative Real))
  unfolding parse_narrative read_run_logs load_single_manifest
  build_narrative logs stem = elim (read_run_logs decode logs stem 10000) [
    | refused status ↦ refused status
    | answer found ↦ answer (
        parse_narrative from_iso seconds repr decimal nothing is_nothing portion found.stderr
          (load_single_manifest parse logs stem))
  ]

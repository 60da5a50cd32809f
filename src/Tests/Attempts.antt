-- ===== src/Tests/Attempts.antt =====
-- An attempt of an agent that closes its bead.
use orchestrator_service.Prelude.{
  ℕ, Text, codes, [], pos, true, false, ◌≡◌, refl, Option, some, lower, same, starts_with, strip,
}
use orchestrator_service.Json.{Json, text, obj, field, end}
use orchestrator_service.Beads.Select.{printed}
use orchestrator_service.Beads.State.{new_loop, process_bead}
use orchestrator_service.Beads.Spawn.{World, spawn_agent}
use orchestrator_service.Beads.Spawn.Closed.{SaysClosed, process_bead-SaysClosed}
use orchestrator_service.Tests.Dispatches.{settings}

abbrev bead : Json
bead = obj (field (codes "id") (text (codes "b1")) end)

abbrev parse_shown : Text → Option Json
parse_shown t = some (obj (field (codes "status") (text (codes "Closed")) end))

abbrev no_repr : Json → Text
no_repr v = []

abbrev world : World
world = record {
  process = some 41;
  exit_code = pos 0;
  shown = printed (codes "{}");
  stderr = [];
  failure_text = [];
}

process_bead-SaysClosed_example :
    (true ≡ true) × ((pid : ℕ) × (some 41 ≡ some pid)) × SaysClosed parse_shown no_repr world.shown
unfolding process_bead spawn_agent same lower starts_with strip
    orchestrator_service.Beads.Status.check_bead_status orchestrator_service.Beads.Status.status_in
    orchestrator_service.Beads.Status.first_of orchestrator_service.Json.get
    orchestrator_service.Json.get_or orchestrator_service.Json.to_text
    orchestrator_service.Runner.Start.prompt_script_invocation
    orchestrator_service.Runner.Start.suffix orchestrator_service.Beads.State.retry_of
    orchestrator_service.Prelude.lookup orchestrator_service.Prelude.insert
    orchestrator_service.Beads.Spawn.attempt_of orchestrator_service.Beads.Spawn.attempt_end
    orchestrator_service.Beads.State.run_agent orchestrator_service.Prelude.lstrip
    orchestrator_service.Prelude.is_space
process_bead-SaysClosed_example =
    process_bead-SaysClosed parse_shown no_repr 3 (codes "p:b1") true false settings bead
      (codes "/w") 0 (codes "/logs/b1.md") world new_loop refl

-- ===== src/Beads/Spawn.antt =====
-- beads_loop.py, _plan_tracked, _build_bead_prompt and _spawn_agent: one attempt of an agent.
pub mod Closed
use orchestrator_service.Prelude.{
  ℕ, ◌+◌, Text, codes, Bool, true, false, Option, none, some, List, [], ◌∷◌, ◌++◌, if◌then◌else◌,
  is_empty, same, ℤ, is_zero,
}
use orchestrator_service.Json.{Json, empty_text, to_text, Py, ok, raise}
use orchestrator_service.Config.{Settings}
use orchestrator_service.Runner.Start.{prompt_script_invocation}
use orchestrator_service.Dashboard.Beads.{field_or}
use orchestrator_service.Beads.Select.{Printed}
use orchestrator_service.Beads.State.{Outcome, success, failure, raised, Attempt}
use orchestrator_service.Beads.Status.{check_bead_status}

unfoldable pub plan_args : List Text
plan_args =
    codes "git" ∷ codes "cat-file" ∷ codes "-e" ∷ codes "HEAD:plan_docs/application_plan.md" ∷ []

-- The exit code of git, none where it cannot be run.
unfoldable pub plan_tracked : Option ℤ → Bool
plan_tracked none = false
plan_tracked (some code) = is_zero code

closing_part : Text → Text → Text
closing_part id logs =
    if is_empty logs
    then codes "\n\nWhen completed and ALL tests pass, you MUST run: `br close "
      ++ (id ++ codes "`.")
    else codes "\n\nWARNING: Your previous attempt failed. Review logs:\n"
      ++ (logs
          ++ (codes "\n\nFix the code, ensure tests pass, and run `br close "
              ++ (id ++ codes "`.")))

-- What the snapshot makes of an exception.
snapshot_part : Py Text → Text
snapshot_part (ok snapshot) = snapshot
snapshot_part (raise error) = codes "(Progress snapshot unavailable.)"

-- The prompt; writing the context files is best effort. `repr` is str of a value that is no text.
unfoldable pub build_bead_prompt : (Json → Text) → Json → Py Text → Text → Text
unfolding closing_part snapshot_part
build_bead_prompt repr bead snapshot logs =
    let id = field_or (codes "id") empty_text bead in
    let title = to_text repr (field_or (codes "title") id bead) in
    let description = to_text repr (field_or (codes "description") empty_text bead) in
    codes "You have been assigned Bead "
    ++ (to_text repr id
        ++ (codes ": "
            ++ (title
                ++ (codes
                      ".\n\n## Project & Tooling Context\nThis workspace contains `BEADS_AGENT_GUIDE.md` and `plan_docs/application_plan.md` — READ THEM FIRST for the full application overview, available commands (`br`/`bvr`), and the completion workflow.\n\n## Progress\n"
                    ++ (snapshot_part snapshot
                        ++ (codes "\n\n## Context & Requirements\n"
                            ++ (description
                                ++ (codes "\n" ++ closing_part (to_text repr id) logs))))))))

-- What an attempt meets: the process that is started, none for an exception of Popen, the code with
-- which it ends, what br shows of the bead then, what the agent printed on stderr, and the text of an
-- exception.
pub record World : Type 0 where
  pub process : Option ℕ
  pub exit_code : ℤ
  pub shown : Printed
  pub stderr : Text
  pub failure_text : Text

pub data SpawnEvent : Type 0 where
  agent_spawned : Json → ℕ → ℕ → Text → SpawnEvent
  agent_completed : Json → ℤ → Text → SpawnEvent

-- What follows the end of the process: an exception leaves the attempt failed.
unfoldable pub attempt_end : Json → World → Py Text → List SpawnEvent × Outcome
attempt_end id w (raise error) = ([], failure w.failure_text)
attempt_end id w (ok status) = (
  agent_completed id w.exit_code status ∷ [],
  if same status (codes "closed") then success else failure w.stderr,
)

-- `parse` is json.loads, none for its error.
module _ (parse : Text → Option Json) (repr : Json → Text) where
  run_process : Json → Text → ℕ → World → Option ℕ → List SpawnEvent × Outcome
  unfolding attempt_end
  run_process id workspace retries w none = ([], failure w.failure_text)
  run_process id workspace retries w (some pid) =
      let (events, outcome) = attempt_end id w (check_bead_status parse repr w.shown) in
      (agent_spawned id pid (retries + 1) workspace ∷ events, outcome)

  -- The prompt file is written before; a script that is no .ps1 raises.
  unfoldable pub spawn_agent : Settings → Json → Text → ℕ → Text → World → List SpawnEvent × Outcome
  unfolding run_process
  spawn_agent s bead workspace retries prompt_path w =
      elim (prompt_script_invocation (record s { workspace = workspace }) prompt_path) [
        | none ↦ ([], raised)
        | some args ↦
            run_process (field_or (codes "id") empty_text bead) workspace retries w w.process
      ]

  -- The attempt as the loop meets it.
  unfoldable pub attempt_of : Bool → Bool → List SpawnEvent × Outcome → Attempt
  attempt_of worktree_made cleanup_raises (events, outcome) = record {
    worktree_made = worktree_made;
    started = elim events [ [] ↦ false | e ∷ es ↦ true ];
    outcome = outcome;
    cleanup_raises = cleanup_raises;
  }

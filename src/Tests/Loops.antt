-- ===== src/Tests/Loops.antt =====
-- Polls of the loop of beads_loop.py.
use orchestrator_service.Prelude.{
  lookup, ℕ, Text, codes, Bool, true, false, ◌≡◌, refl, inl, inr, Option, none, some, List, [], ◌∷◌,
  member, same_refl,
}
use orchestrator_service.Beads.State.{
  LoopState, new_loop, failure, success, Poll, poll_project, scan, key_of,
}
use orchestrator_service.Beads.Retries.{IsResting, new_loop-IsResting, poll_project-IsResting}
use orchestrator_service.Beads.Halting.{StaysHalted, scan-StaysHalted}
use orchestrator_service.Beads.View.{state_for_project, state_for_project-key_of}
use orchestrator_service.Beads.GivingUp.{visits_of, failing_bead_halts}

abbrev broken : Poll
broken = record {
  plan_tracked = true;
  next_bead = some (codes "b1");
  now = 5;
  attempt = record {
    worktree_made = true;
    started = true;
    outcome = failure (codes "no");
    cleanup_raises = false;
  };
}

abbrev working : Poll
working = record broken {
  attempt = record {
    worktree_made = true;
    started = true;
    outcome = success;
    cleanup_raises = false;
  };
}

failing_bead_halts_example :
    member
      (key_of (codes "p") (codes "b1"))
      (scan 1 (visits_of (codes "p") (broken ∷ broken ∷ [])) new_loop).state.halted_beads
    ≡ true
failing_bead_halts_example =
    failing_bead_halts 1 (codes "p") (codes "b1") (broken ∷ broken ∷ [])
      (
        record { planned = refl; offered = refl; fails = inr (codes "no", refl) },
        (record { planned = refl; offered = refl; fails = inr (codes "no", refl) }, tt),
      )
      refl

abbrev halted_loop : LoopState
halted_loop = record new_loop { halted_beads = codes "p:b1" ∷ [] }

scan-StaysHalted_example :
    StaysHalted
      (codes "p:b1")
      (scan 1 ((record { slug = codes "p"; poll = working }) ∷ []) halted_loop)
unfolding member orchestrator_service.Prelude.same
scan-StaysHalted_example =
    scan-StaysHalted 1 (codes "p:b1") ((record { slug = codes "p"; poll = working }) ∷ [])
      halted_loop refl

poll_project-IsResting_example : IsResting 1 (poll_project 1 (codes "p") broken new_loop).state
poll_project-IsResting_example =
    poll_project-IsResting 1 (codes "p") broken new_loop (new_loop-IsResting 1)

state_for_project-key_of_example :
    let v = state_for_project (codes "p") halted_loop in
    let key = key_of (codes "p") (codes "b1") in
    (member (codes "b1") v.active ≡ member key halted_loop.active_beads)
    × (member (codes "b1") v.halted ≡ member key halted_loop.halted_beads)
    × (lookup (codes "b1") v.retry ≡ lookup key halted_loop.retry_state)
    × (lookup (codes "b1") v.start_times ≡ lookup key halted_loop.bead_start_times)
state_for_project-key_of_example = state_for_project-key_of (codes "p") (codes "b1") halted_loop

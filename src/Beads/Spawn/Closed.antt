-- ===== src/Beads/Spawn/Closed.antt =====
-- beads_loop.py: a bead is taken for closed only where br says so.
use orchestrator_service.Prelude.{
  ℕ, Text, codes, Bool, true, false, ◌≡◌, refl, inl, inr, Option, none, some, List, [], ◌∷◌, same,
  same_iff, strip, Option-cases, Bool-cases, leb, is_empty, ap,
}
use orchestrator_service.Json.{Json, empty_text, Py, ok, raise}
use orchestrator_service.Dashboard.Beads.{field_or}
use orchestrator_service.Config.{Settings}
use orchestrator_service.Runner.Start.{prompt_script_invocation}
use orchestrator_service.Beads.Select.{Printed, missing, failed, printed}
use orchestrator_service.Beads.State.{
  LoopState, LoopEvent, bead_closed, retry_of, set_default, Outcome, success, failure, raised,
  Attempt, run_agent, attempt_bead, process_bead,
}
use orchestrator_service.Beads.Status.{first_of, status_in, check_bead_status}
use orchestrator_service.Beads.Spawn.{World, attempt_end, run_process, spawn_agent, attempt_of}

-- Whether the events say that a bead was closed.
abbrev pub says_closed : List LoopEvent → Bool
says_closed [] = false
says_closed (bead_closed key ∷ es) = true
says_closed (_ ∷ es) = says_closed es

run_agent-says_closed :
    (key : Text) (n : ℕ) (b c : Bool) (o : Outcome) (s : LoopState)
    → says_closed (run_agent key n b c o s).events ≡ true
    → o ≡ success
unfolding run_agent
run_agent-says_closed key n b c success s said = refl
run_agent-says_closed key n true c (failure logs) s said = cc
run_agent-says_closed key n false c (failure logs) s said = cc
run_agent-says_closed key n true c raised s said = cc
run_agent-says_closed key n false c raised s said = cc

attempt_bead-says_closed :
    (max_retries : ℕ) (key : Text) (a : Attempt) (s : LoopState)
    → says_closed (attempt_bead max_retries key a s).events ≡ true
    → (a.worktree_made ≡ true) × (a.outcome ≡ success)
unfolding attempt_bead
attempt_bead-says_closed max_retries key a s said =
    let n = (retry_of key s.retry_state).count in
    elim (Bool-cases (leb max_retries n)) [
      | inl e ↦ cc (rw (e, attempt_bead) at said)
      | inr e ↦ elim (Bool-cases a.worktree_made) [
        | inr f ↦ cc (rw (e, f, attempt_bead) at said)
        | inl f ↦ (
          f,
          run_agent-says_closed key n a.started a.cleanup_raises a.outcome s
              (rw (e, f, attempt_bead) at said),
        )
      ]
    ]

module _ (parse : Text → Option Json) (repr : Json → Text) where
  -- br has printed the bead as closed.
  pub record SaysClosed (shown : Printed) : Type 0 where
    pub output : Text
    pub value : Json
    pub shown_is : shown ≡ printed output
    pub parsed : parse (strip output) ≡ some value
    pub status : status_in repr (first_of value) ≡ ok (codes "closed")

  check_bead_status-SaysClosed :
      (shown : Printed)
      → check_bead_status parse repr shown ≡ ok (codes "closed")
      → SaysClosed shown
  unfolding check_bead_status
  check_bead_status-SaysClosed missing h = absurd (cc)
  check_bead_status-SaysClosed failed h = absurd (cc)
  check_bead_status-SaysClosed (printed t) h = elim (Bool-cases (is_empty (strip t))) [
    | inl e ↦ absurd (cc (rw (e, check_bead_status) at h))
    | inr e ↦ elim (Option-cases (parse (strip t))) [
      | inl n ↦ absurd (cc (rw (e, n, check_bead_status) at h))
      | inr (value, n) ↦ record {
        output = t;
        value = value;
        shown_is = refl;
        parsed = n;
        status = rw (e, n, check_bead_status) at h;
      }
    ]
  ]

  attempt_end-success :
      (id : Json) (w : World) (status : Py Text)
      → (attempt_end id w status).1 ≡ success
      → status ≡ ok (codes "closed")
  unfolding attempt_end
  attempt_end-success id w (raise error) h = cc
  attempt_end-success id w (ok status) h = elim (Bool-cases (same status (codes "closed"))) [
    | inl e ↦ ap ok ((same_iff status (codes "closed")).0 e)
    | inr e ↦ cc (rw (e, attempt_end) at h)
  ]

  run_process-success :
      (id : Json) (workspace : Text) (retries : ℕ) (w : World) (process : Option ℕ)
      → (run_process parse repr id workspace retries w process).1 ≡ success
      → ((pid : ℕ) × (process ≡ some pid)) × SaysClosed w.shown
  unfolding run_process
  run_process-success id workspace retries w none h = cc
  run_process-success id workspace retries w (some pid) h = (
    (pid, refl),
    check_bead_status-SaysClosed w.shown
        (attempt_end-success id w (check_bead_status parse repr w.shown) h),
  )

  -- The loop says that a bead is closed only after an attempt for which the worktree was made and the
  -- process of the agent was started, and after which br has printed the bead as closed.
  pub process_bead-SaysClosed :
      (max_retries : ℕ) (key : Text) (worktree_made cleanup_raises : Bool) (cfg : Settings)
      (bead : Json) (workspace : Text) (retries : ℕ) (prompt_path : Text) (w : World)
      (s : LoopState)
      → says_closed
          (process_bead max_retries key
            (attempt_of parse repr worktree_made cleanup_raises
              (spawn_agent parse repr cfg bead workspace retries prompt_path w))
            s).events
        ≡ true
      → (worktree_made ≡ true) × ((pid : ℕ) × (w.process ≡ some pid)) × SaysClosed w.shown
  unfolding process_bead attempt_of spawn_agent
  process_bead-SaysClosed max_retries key worktree_made cleanup_raises cfg bead workspace retries
        prompt_path w s said =
      let run = spawn_agent parse repr cfg bead workspace retries prompt_path w in
      let a = attempt_of parse repr worktree_made cleanup_raises run in
      let (made, done) = attempt_bead-says_closed max_retries key a (set_default key s) said in
      let script = prompt_script_invocation (record cfg { workspace = workspace }) prompt_path in
      elim (Option-cases script) [
        | inl n ↦ absurd (cc (rw (n, spawn_agent) at done))
        | inr (args, n) ↦
            let id = field_or (codes "id") empty_text bead in
            let (started, closed) =
              run_process-success id workspace retries w w.process (rw (n, spawn_agent) at done) in
            (made, started, closed)
      ]

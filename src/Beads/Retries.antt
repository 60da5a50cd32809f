-- ===== src/Beads/Retries.antt =====
-- beads_loop.py: the bound on retries, and that nothing stays active between two polls.
use orchestrator_service.Prelude.{
  ℕ, ◌+◌, ◌-◌, ◌≤◌, ltb, not, if◌then◌else◌, Text, Bool, true, false, ◌||◌, Option, none, some, ◌≡◌,
  refl, [], arith, leb, member, Dict, lookup, insert, remove, lookup-insert, lookup-remove,
  same_refl, Option-cases, Bool-cases, inl, inr,
}
use orchestrator_service.Beads.State.{
  Retry, LoopState, new_loop, Attempt, Outcome, success, failure, raised, no_retry, retry_of,
  increment_retry, set_default, run_agent, attempt_bead, process_bead, warn_missing_plan, Poll,
  register, unregister, take_bead, poll_project, key_of, add, discard,
}

-- Between two polls no bead is active, and no count of retries is above the bound.
pub record IsResting (max_retries : ℕ) (s : LoopState) : Type 0 where
  pub active : s.active_beads ≡ []
  pub start_times : s.bead_start_times ≡ []
  pub projects : s.bead_projects ≡ []
  pub bounded : (key : Text) (r : Retry) → lookup key s.retry_state ≡ some r → r.count ≤ max_retries

pub new_loop-IsResting : (max_retries : ℕ) → IsResting max_retries new_loop
new_loop-IsResting max_retries = record {
  active = refl;
  start_times = refl;
  projects = refl;
  bounded = λ key r h. absurd (unfold lookup in cc);
}

-- What processing a bead leaves alone.
record IsFramed (s t : LoopState) : Type 0 where
  same_active : t.active_beads ≡ s.active_beads
  same_times : t.bead_start_times ≡ s.bead_start_times
  same_projects : t.bead_projects ≡ s.bead_projects

set_default-IsFramed : (key : Text) (s : LoopState) → IsFramed s (set_default key s)
unfolding set_default
set_default-IsFramed key s = ground arith

run_agent-IsFramed :
    (key : Text) (n : ℕ) (b c : Bool) (o : Outcome) (s : LoopState)
    → IsFramed s (run_agent key n b c o s).state
unfolding run_agent
run_agent-IsFramed key n b c o s = ground arith

process_bead-IsFramed :
    (max_retries : ℕ) (key : Text) (a : Attempt) (s : LoopState)
    → IsFramed s (process_bead max_retries key a s).state
unfolding process_bead attempt_bead increment_retry
process_bead-IsFramed max_retries key a s =
    let t = set_default key s in
    let n = (retry_of key t.retry_state).count in
    ground (
      arith,
      set_default-IsFramed key s,
      run_agent-IsFramed key n a.started a.cleanup_raises a.outcome t,
    )

abbrev IsBounded : ℕ → Dict Retry → Type 0
IsBounded max_retries d = (key : Text) (r : Retry) → lookup key d ≡ some r → r.count ≤ max_retries

insert-IsBounded :
    (max_retries : ℕ) (key : Text) (r : Retry) (d : Dict Retry)
    → r.count ≤ max_retries
    → IsBounded max_retries d
    → IsBounded max_retries (insert key r d)
insert-IsBounded max_retries key r d le h j q e = ground (arith, lookup-insert key j r d, h j q)

remove-IsBounded :
    (max_retries : ℕ) (key : Text) (d : Dict Retry)
    → IsBounded max_retries d
    → IsBounded max_retries (remove key d)
remove-IsBounded max_retries key d h j q e = ground (arith, lookup-remove key j d, h j q)

set_default-IsBounded :
    (max_retries : ℕ) (key : Text) (s : LoopState)
    → IsBounded max_retries s.retry_state
    → IsBounded max_retries (set_default key s).retry_state
unfolding set_default
set_default-IsBounded max_retries key s h = elim (Option-cases (lookup key s.retry_state)) [
  | inr (r, e) ↦ rw (e, set_default) h
  | inl e ↦
      rw (e, set_default) (insert-IsBounded max_retries key no_retry s.retry_state (omega arith) h)
]

increment_retry-IsBounded :
    (max_retries : ℕ) (key : Text) (logs : Option Text) (s : LoopState)
    → (retry_of key s.retry_state).count + 1 ≤ max_retries
    → IsBounded max_retries s.retry_state
    → IsBounded max_retries (increment_retry key logs s).retry_state
unfolding increment_retry
increment_retry-IsBounded max_retries key logs s le h =
    insert-IsBounded max_retries key _ s.retry_state le h

run_agent-IsBounded :
    (max_retries : ℕ) (key : Text) (n : ℕ) (b c : Bool) (o : Outcome) (s : LoopState)
    → (retry_of key s.retry_state).count + 1 ≤ max_retries
    → IsBounded max_retries s.retry_state
    → IsBounded max_retries (run_agent key n b c o s).state.retry_state
unfolding run_agent
run_agent-IsBounded max_retries key n b c success s le h =
    remove-IsBounded max_retries key s.retry_state h
run_agent-IsBounded max_retries key n b c (failure logs) s le h =
    increment_retry-IsBounded max_retries key (some logs) s le h
run_agent-IsBounded max_retries key n b c raised s le h = h

attempt_bead-IsBounded :
    (max_retries : ℕ) (key : Text) (a : Attempt) (s : LoopState)
    → IsBounded max_retries s.retry_state
    → IsBounded max_retries (attempt_bead max_retries key a s).state.retry_state
unfolding attempt_bead
attempt_bead-IsBounded max_retries key a s h =
    let n = (retry_of key s.retry_state).count in
    elim (Bool-cases (leb max_retries n)) [
      | inl e ↦ rw e h
      | inr e ↦ rw e (elim (Bool-cases a.worktree_made) [
        | inl w ↦ rw w (
            run_agent-IsBounded max_retries key n a.started a.cleanup_raises a.outcome s
              (ground arith) h)
        | inr w ↦ rw w (increment_retry-IsBounded max_retries key none s (ground arith) h)
      ])
    ]

process_bead-IsBounded :
    (max_retries : ℕ) (key : Text) (a : Attempt) (s : LoopState)
    → IsBounded max_retries s.retry_state
    → IsBounded max_retries (process_bead max_retries key a s).state.retry_state
unfolding process_bead
process_bead-IsBounded max_retries key a s h =
    attempt_bead-IsBounded max_retries key a (set_default key s)
      (set_default-IsBounded max_retries key s h)

unregister-IsResting :
    (max_retries : ℕ) (key slug : Text) (now : ℕ) (s t : LoopState)
    → IsResting max_retries s
    → IsFramed (register key slug now s) t
    → IsBounded max_retries t.retry_state
    → IsResting max_retries (unregister key t)
unfolding register unregister add discard insert remove member
unregister-IsResting max_retries key slug now s t h f b = record {
  active = ground (arith, h.active, f.same_active, same_refl key);
  start_times = ground (arith, h.start_times, f.same_times, same_refl key);
  projects = ground (arith, h.projects, f.same_projects, same_refl key);
  bounded = b;
}

take_bead-IsResting :
    (max_retries : ℕ) (slug key : Text) (now : ℕ) (a : Attempt) (s : LoopState)
    → IsResting max_retries s
    → IsResting max_retries (take_bead max_retries slug key now a s).state
unfolding take_bead
take_bead-IsResting max_retries slug key now a s h =
    elim (Bool-cases (member key s.active_beads || member key s.halted_beads)) [
      | inl e ↦ rw e h
      | inr e ↦ rw e (
          let s' = register key slug now s in
          unregister-IsResting max_retries key slug now s (process_bead max_retries key a s').state
            h (process_bead-IsFramed max_retries key a s')
            (process_bead-IsBounded max_retries key a s' (unfold register in h.bounded)))
    ]

-- The warnings about plans are no part of what rests.
plan_warned-IsResting :
    (max_retries : ℕ) (s : LoopState) (d : Dict ℕ)
    → IsResting max_retries s
    → IsResting max_retries (record s { plan_warned = d })
plan_warned-IsResting max_retries s d h = record {
  active = h.active;
  start_times = h.start_times;
  projects = h.projects;
  bounded = h.bounded;
}

warn_missing_plan-IsResting :
    (max_retries : ℕ) (slug : Text) (now : ℕ) (s : LoopState)
    → IsResting max_retries s
    → IsResting max_retries (warn_missing_plan slug now s)
unfolding warn_missing_plan
warn_missing_plan-IsResting max_retries slug now s h =
    rests_if
      (elim (lookup slug s.plan_warned) [ none ↦ true | some last ↦ not (ltb (now - last) 60) ])
  where
    rests_if :
        (due : Bool)
        → IsResting max_retries
            (if due then record s { plan_warned = insert slug now s.plan_warned } else s)
    rests_if true = plan_warned-IsResting max_retries s (insert slug now s.plan_warned) h
    rests_if false = h

-- Every poll of a project, whatever it meets and whether or not it raises, leaves a state in which
-- no bead is active and no count of retries is above the bound, if it found one.
pub poll_project-IsResting :
    (max_retries : ℕ) (slug : Text) (p : Poll) (s : LoopState)
    → IsResting max_retries s
    → IsResting max_retries (poll_project max_retries slug p s).state
unfolding poll_project
poll_project-IsResting max_retries slug p s h = elim (Bool-cases p.plan_tracked) [
  | inr e ↦ rw e (warn_missing_plan-IsResting max_retries slug p.now s h)
  | inl e ↦
      let s' = record s { plan_warned = remove slug s.plan_warned } in
      let h' = plan_warned-IsResting max_retries s (remove slug s.plan_warned) h in
      elim (Option-cases p.next_bead) [
        | inl n ↦ rw (e, n) h'
        | inr (id, n) ↦
            rw (e, n) (take_bead-IsResting max_retries slug (key_of slug id) p.now p.attempt s' h')
      ]
]

-- ===== src/Beads/State.antt =====
-- beads_loop.py: the state of BeadsLoop and one poll of a project.
use orchestrator_service.Prelude.{
  ℕ, ◌+◌, ◌-◌, Text, Bool, true, false, ◌||◌, not, Option, none, some, List, [], ◌∷◌, ◌++◌, length,
  drop, ltb, leb, if◌then◌else◌, member, same, Dict, lookup, insert, remove,
}

pub record Retry : Type 0 where
  pub count : ℕ
  pub logs : Text

pub record LoopState : Type 0 where
  pub active_beads : List Text
  pub retry_state : Dict Retry
  pub bead_start_times : Dict ℕ
  pub halted_beads : List Text
  pub bead_projects : Dict Text
  pub plan_warned : Dict ℕ

abbrev pub new_loop : LoopState
new_loop = record {
  active_beads = [];
  retry_state = [];
  bead_start_times = [];
  halted_beads = [];
  bead_projects = [];
  plan_warned = [];
}

-- f"{project_slug}:{bead_id}"
unfoldable pub key_of : Text → Text → Text
key_of slug bead_id = slug ++ (b':' ∷ bead_id)

-- set.add and set.discard
unfoldable pub add : Text → List Text → List Text
add x xs = if member x xs then xs else x ∷ xs

unfoldable pub discard : Text → List Text → List Text
discard x [] = []
discard x (y ∷ ys) = let rest = discard x ys in if same x y then rest else y ∷ rest

-- What the loop tells the event store; the data that only repeat the arguments are left out.
pub data LoopEvent : Type 0 where
  bead_picked_up bead_closed : Text → LoopEvent
  bead_halted bead_failed : Text → ℕ → LoopEvent
  agent_spawned : Text → ℕ → LoopEvent

-- What _spawn_agent does: it returns success, or failure with logs, or raises.
pub data Outcome : Type 0 where
  success : Outcome
  failure : Text → Outcome
  raised : Outcome

-- The world as one call of _process_bead meets it: whether the worktree can be made, whether the
-- process of the agent is started, how that ends, and whether the removal of the worktree raises.
pub record Attempt : Type 0 where
  pub worktree_made : Bool
  pub started : Bool
  pub outcome : Outcome
  pub cleanup_raises : Bool

-- A state, the events emitted, and whether an exception left the call.
pub record Effect : Type 0 where
  pub state : LoopState
  pub events : List LoopEvent
  pub raises : Bool

abbrev pub no_retry : Retry
no_retry = record { count = 0; logs = [] }

-- self._retry_state[key], which `setdefault` has made
unfoldable pub retry_of : Text → Dict Retry → Retry
retry_of key d = elim (lookup key d) [ none ↦ no_retry | some r ↦ r ]

-- text[-3000:]
unfoldable pub last_chars : ℕ → Text → Text
last_chars n t = drop (length t - n) t

-- `logs` is none where the caller passes none.
unfoldable pub increment_retry : Text → Option Text → LoopState → LoopState
increment_retry key logs s =
    let r = retry_of key s.retry_state in
    let kept : Text = elim logs [ none ↦ r.logs | some t ↦ last_chars 3000 t ] in
    record s {
      retry_state = insert key (record { count = r.count + 1; logs = kept }) s.retry_state;
    }

unfoldable pub set_default : Text → LoopState → LoopState
set_default key s = elim (lookup key s.retry_state) [
  | some r ↦ s
  | none ↦ record s { retry_state = insert key no_retry s.retry_state }
]

-- The event of an agent whose process is started.
unfoldable pub spawned : Text → ℕ → Bool → List LoopEvent
spawned key attempt started = if started then agent_spawned key attempt ∷ [] else []

-- The part of _process_bead behind a worktree that was made; a failure to push or to open a pull
-- request is logged and changes nothing.
unfoldable pub run_agent : Text → ℕ → Bool → Bool → Outcome → LoopState → Effect
unfolding increment_retry spawned
run_agent key retries started cleanup_raises success s = record {
  state = record s { retry_state = remove key s.retry_state };
  events = spawned key (retries + 1) started ++ bead_closed key ∷ [];
  raises = cleanup_raises;
}
run_agent key retries started cleanup_raises (failure logs) s = record {
  state = increment_retry key (some logs) s;
  events = spawned key (retries + 1) started ++ bead_failed key (retries + 1) ∷ [];
  raises = cleanup_raises;
}
run_agent key retries started cleanup_raises raised s = record {
  state = s;
  events = spawned key (retries + 1) started;
  raises = true;
}

unfoldable pub attempt_bead : ℕ → Text → Attempt → LoopState → Effect
unfolding run_agent
attempt_bead max_retries key a s =
    let retries = (retry_of key s.retry_state).count in
    if leb max_retries retries
    then record {
      state = record s { halted_beads = add key s.halted_beads };
      events = bead_halted key retries ∷ [];
      raises = false;
    }
    else if a.worktree_made
    then run_agent key retries a.started a.cleanup_raises a.outcome s
    else record { state = increment_retry key none s; events = []; raises = false }

unfoldable pub process_bead : ℕ → Text → Attempt → LoopState → Effect
unfolding attempt_bead set_default
process_bead max_retries key a s = attempt_bead max_retries key a (set_default key s)

abbrev pub plan_rewarn_seconds : ℕ
plan_rewarn_seconds = 60

unfoldable pub warn_missing_plan : Text → ℕ → LoopState → LoopState
warn_missing_plan slug now s =
    let due : Bool = elim (lookup slug s.plan_warned) [
      | none ↦ true
      | some last ↦ not (ltb (now - last) plan_rewarn_seconds)
    ] in
    if due then record s { plan_warned = insert slug now s.plan_warned } else s

-- One poll of a project: whether its plan is committed, the id of the next bead (none if there is
-- none, if it has no id, and if choosing one raises, which leaves the same state), the time, and what
-- an attempt would meet.
pub record Poll : Type 0 where
  pub plan_tracked : Bool
  pub next_bead : Option Text
  pub now : ℕ
  pub attempt : Attempt

unfoldable pub register : Text → Text → ℕ → LoopState → LoopState
register key slug now s = record s {
  active_beads = add key s.active_beads;
  bead_start_times = insert key now s.bead_start_times;
  bead_projects = insert key slug s.bead_projects;
}

-- The `finally` of the poll.
unfoldable pub unregister : Text → LoopState → LoopState
unregister key s = record s {
  active_beads = discard key s.active_beads;
  bead_start_times = remove key s.bead_start_times;
  bead_projects = remove key s.bead_projects;
}

abbrev pub nothing : LoopState → Effect
nothing s = record { state = s; events = []; raises = false }

unfoldable pub take_bead : ℕ → Text → Text → ℕ → Attempt → LoopState → Effect
unfolding register unregister
take_bead max_retries slug key now a s =
    if member key s.active_beads || member key s.halted_beads
    then nothing s
    else let e = process_bead max_retries key a (register key slug now s) in
      record e { state = unregister key e.state; events = bead_picked_up key ∷ e.events }

unfoldable pub poll_project : ℕ → Text → Poll → LoopState → Effect
unfolding take_bead warn_missing_plan
poll_project max_retries slug p s =
    if p.plan_tracked
    then (let s' = record s { plan_warned = remove slug s.plan_warned } in
        elim p.next_bead [
          | none ↦ nothing s'
          | some id ↦ take_bead max_retries slug (key_of slug id) p.now p.attempt s'
        ])
    else nothing (warn_missing_plan slug p.now s)

-- _scan_and_process, one entry for each project: an exception is logged and the next one follows.
pub record Visit : Type 0 where
  pub slug : Text
  pub poll : Poll

unfoldable pub scan : ℕ → List Visit → LoopState → Effect
scan max_retries [] s = nothing s
scan max_retries (v ∷ vs) s =
    let e = poll_project max_retries v.slug v.poll s in
    let rest = scan max_retries vs e.state in record rest { events = e.events ++ rest.events }

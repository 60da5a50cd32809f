-- ===== src/Dashboard/Beads.antt =====
-- dashboard.py: the beads of a project with what the loop is doing with them.
use orchestrator_service.Prelude.{
  ℕ, ◌+◌, ◌-◌, Text, codes, Bool, true, false, not, ◌&&◌, ◌||◌, Option, none, some, List, [], ◌∷◌,
  map, length, if◌then◌else◌, is_empty, same, lower, ◌==◌, Dict, lookup,
}
use orchestrator_service.Json.{
  bool, Json, null, num, real, text, obj, empty_text, find_field, to_text, Py, ok, ◌>>=◌, iterate,
}
use orchestrator_service.Beads.Select.{issues_of, dicts_in}
use orchestrator_service.Beads.State.{LoopState}
use orchestrator_service.Beads.View.{ProjectState, state_for_project}

-- b.get(key, default), for a bead that is a dict
unfoldable pub field_or : Text → Json → Json → Json
field_or key default (obj fs) = find_field key default fs
field_or key default _ = default

-- What _parse_beads makes of the output of br; `parse` is json.loads, none for a JSONDecodeError.
unfoldable pub parse_beads : (Text → Option Json) → Text → Py (List Json)
unfolding issues_of dicts_in
parse_beads parse stdout = if is_empty stdout then ok [] else elim (parse stdout) [
  | none ↦ ok []
  | some value ↦ (do issues ← issues_of value; entries ← iterate issues; ok (dicts_in entries))
]

-- Python's `==` of two ids; a list or a dict has no hash and is no id. An id is not compared with one of
-- another type: that a number equals a bool or a float is left out.
unfoldable pub same_id : Json → Json → Bool
same_id (text s) (text t) = same s t
same_id (real s) (real t) = same s t
same_id (num m) (num n) = m == n
same_id null null = true
same_id (bool a) (bool b) = if a then b else not b
same_id _ _ = false

-- id in ids
unfoldable pub is_in : Json → List Json → Bool
unfolding same_id
is_in id [] = false
is_in id (other ∷ ids) = same_id id other || is_in id ids

-- What both routes use of the beads: all of them, and {b.get("id") for b in ready}.
pub record BeadsView : Type 0 where
  pub all_beads : List Json
  pub ready_ids : List Json

unfoldable pub fetch_beads_view : (Text → Option Json) → Text → Text → Py BeadsView
unfolding parse_beads field_or
fetch_beads_view parse list_out ready_out = do
  all_beads ← parse_beads parse list_out
  ready ← parse_beads parse ready_out
  ok (record { all_beads = all_beads; ready_ids = map (field_or (codes "id") null) ready })

-- The statuses that _ui_status names, and any other that br gives.
pub data UiStatus : Type 0 where
  active halted closed ready blocked : UiStatus
  other_status : Text → UiStatus

unfoldable pub ui_status : Json → Text → List Json → List Json → List Json → UiStatus
unfolding is_in
ui_status id db_status active_ids halted_ids ready_ids =
    if is_in id active_ids
    then active
    else if is_in id halted_ids
    then halted
    else if same db_status (codes "closed")
    then closed
    else if is_in id ready_ids
    then ready
    else if same db_status (codes "open") || is_empty db_status
    then blocked
    else other_status db_status

-- _loop_state: none where there is no loop or no project.
unfoldable pub loop_state : Option LoopState → Option Text → Option ProjectState
loop_state none slug = none
loop_state (some s) none = none
loop_state (some s) (some slug) = if is_empty slug then none else some (state_for_project slug s)

unfoldable pub active_ids : Option ProjectState → List Json
active_ids none = []
active_ids (some s) = map text s.active

unfoldable pub halted_ids : Option ProjectState → List Json
halted_ids none = []
halted_ids (some s) = map text s.halted

-- d.get(id), for a dict whose keys are texts
unfoldable pub entry_for {ℓ} : {V : Type ℓ} → Json → Dict V → Option V
entry_for (text t) d = lookup t d
entry_for _ d = none

pub record Enriched : Type 0 where
  pub id : Json
  pub title : Json
  pub type : Json
  pub priority : Json
  pub status : Text
  pub shown : UiStatus
  pub retry_count : ℕ
  pub is_active : Bool
  pub elapsed_s : Option ℕ
  pub description : Json

retries_in : Json → Option ProjectState → ℕ
retries_in id none = 0
retries_in id (some s) = elim (entry_for id s.retry) [ none ↦ 0 | some r ↦ r.count ]

elapsed_in : ℕ → Json → Option ProjectState → Option ℕ
elapsed_in now id none = none
elapsed_in now id (some s) = elim (entry_for id s.start_times) [
  | none ↦ none
  | some start ↦ some (now - start)
]

-- `repr` is str of a value that is no text.
module _ (repr : Json → Text) where
  -- str(b.get("status", "")).lower()
  unfoldable pub db_status_of : Json → Text
  unfolding field_or
  db_status_of b = lower (to_text repr (field_or (codes "status") empty_text b))

  unfoldable pub enrich_bead : ℕ → BeadsView → Option ProjectState → Json → Enriched
  unfolding field_or active_ids halted_ids retries_in elapsed_in entry_for db_status_of ui_status
  enrich_bead now view state b =
      let id = field_or (codes "id") empty_text b in
      let db_status = db_status_of b in
      record {
        id = id;
        title = field_or (codes "title") id b;
        type = field_or (codes "type") (text (codes "task")) b;
        priority = field_or (codes "priority") (num 999) b;
        status = if is_empty db_status then codes "open" else db_status;
        shown = ui_status id db_status (active_ids state) (halted_ids state) view.ready_ids;
        retry_count = retries_in id state;
        is_active = is_in id (active_ids state);
        elapsed_s = elapsed_in now id state;
        description = field_or (codes "description") empty_text b;
      }

-- `less` is Python's `<` on two values, which raises for values that have no order.
module _ (less : Json → Json → Py Bool) where
  is_shown_active : Enriched → Bool
  is_shown_active e = elim e.shown [ active ↦ true | _ ↦ false ]

  -- The order of the keys (not active, priority, id).
  unfoldable pub precedes : Enriched → Enriched → Py Bool
  unfolding is_shown_active same_id
  precedes a b =
      if is_shown_active a && not (is_shown_active b)
      then ok true
      else if not (is_shown_active a) && is_shown_active b
      then ok false
      else if same_id a.priority b.priority
      then less a.id b.id
      else less a.priority b.priority

  -- A stable sort.
  unfoldable pub insert_bead : Enriched → List Enriched → Py (List Enriched)
  unfolding precedes
  insert_bead e [] = ok (e ∷ [])
  insert_bead e (f ∷ fs) =
      let later = insert_bead e fs in
      precedes f e
      >>= (λ first. if first then later >>= (λ rest. ok (f ∷ rest)) else ok (e ∷ f ∷ fs))

  unfoldable pub sort_beads : List Enriched → Py (List Enriched)
  unfolding insert_bead
  sort_beads [] = ok []
  sort_beads (e ∷ es) = sort_beads es >>= insert_bead e

module _ (repr : Json → Text) (less : Json → Json → Py Bool) where
  unfoldable pub enrich_beads : ℕ → BeadsView → Option ProjectState → Py (List Enriched)
  unfolding enrich_bead sort_beads
  enrich_beads now view state =
      sort_beads less (map (enrich_bead repr now view state) view.all_beads)

-- The counts of the overview.
pub record Counts : Type 0 where
  pub total : ℕ
  pub open_count : ℕ
  pub ready_count : ℕ
  pub blocked_count : ℕ
  pub active_count : ℕ
  pub closed_count : ℕ
  pub halted_count : ℕ

-- len([x for x in xs if p(x)])
unfoldable pub count_if {ℓ} : {A : Type ℓ} → (A → Bool) → List A → ℕ
count_if p [] = 0
count_if p (x ∷ xs) = (if p x then 1 else 0) + count_if p xs

unfoldable pub keep_if {ℓ} : {A : Type ℓ} → (A → Bool) → List A → List A
keep_if p [] = []
keep_if p (x ∷ xs) = let rest = keep_if p xs in if p x then x ∷ rest else rest

module _ (repr : Json → Text) where
  unfoldable pub is_closed : Json → Bool
  unfolding db_status_of
  is_closed b = same (db_status_of repr b) (codes "closed")

  unfoldable pub overview_counts : BeadsView → Option ProjectState → Counts
  unfolding is_closed active_ids halted_ids is_in field_or count_if keep_if
  overview_counts view state =
      let id_of = field_or (codes "id") null in
      let excluded =
        λ (b : Json). is_in (id_of b) (active_ids state) || is_in (id_of b) (halted_ids state) in
      let open_beads = keep_if (λ (b : Json). not (is_closed b)) view.all_beads in
      let ready_count =
        count_if (λ (b : Json). is_in (id_of b) view.ready_ids && not (excluded b)) open_beads in
      record {
        total = length view.all_beads;
        open_count = length open_beads;
        ready_count = ready_count;
        blocked_count = length open_beads - ready_count - count_if excluded open_beads;
        active_count = length (active_ids state);
        closed_count = count_if is_closed view.all_beads;
        halted_count = length (halted_ids state);
      }

-- The agents that run, each with its bead's title, attempts and time.
pub record ActiveAgent : Type 0 where
  pub bead_id : Text
  pub title : Json
  pub retry_count : ℕ
  pub elapsed_s : Option ℕ

-- {b.get("id", ""): b for b in beads}.get(id, {}): of beads with one id, the last counts.
unfoldable pub bead_with_id : Text → List Json → Option Json
unfolding field_or same_id
bead_with_id id [] = none
bead_with_id id (b ∷ bs) = elim (bead_with_id id bs) [
  | some found ↦ some found
  | none ↦ if same_id (field_or (codes "id") empty_text b) (text id) then some b else none
]

active_agent : ℕ → BeadsView → ProjectState → Text → ActiveAgent
unfolding bead_with_id retries_in elapsed_in field_or
active_agent now view s id = record {
  bead_id = id;
  title = elim (bead_with_id id view.all_beads) [
    | none ↦ text id
    | some b ↦ field_or (codes "title") (text id) b
  ];
  retry_count = retries_in (text id) (some s);
  elapsed_s = elapsed_in now (text id) (some s);
}

unfoldable pub active_agents : ℕ → BeadsView → Option ProjectState → List ActiveAgent
unfolding active_agent
active_agents now view none = []
active_agents now view (some s) = map (active_agent now view s) s.active

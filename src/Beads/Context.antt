-- ===== src/Beads/Context.antt =====
-- bead_context.py: what an agent is told of its project and of the beads around its own.
use orchestrator_service.Prelude.{
  ℕ, ◌-◌, Text, codes, Bool, true, false, Option, none, some, List, [], ◌∷◌, ◌++◌, map, length,
  take, ltb, ◌==◌, if◌then◌else◌, is_empty, strip, same, join_lines,
}
use orchestrator_service.Json.{
  Json, null, text, arr, cons, nil, empty_arr, to_text, Py, ok, ◌>>=◌, get_or, iterate, is_dict,
  or_else,
}
use orchestrator_service.Narrative.Events.{rstrip}
use orchestrator_service.Dashboard.Beads.{
  field_or, parse_beads, same_id, is_in, count_if, db_status_of,
}
use orchestrator_service.Beads.Select.{Printed, missing, failed, printed}

no_plan : Text
no_plan = codes "(No application_plan.md found in this workspace.)"

-- read_project_overview; none where the file cannot be read or decoded.
unfoldable pub read_project_overview : ℕ → Option Text → Text
unfolding no_plan
read_project_overview limit none = no_plan
read_project_overview limit (some t) =
    let plan = strip t in
    if is_empty plan
    then no_plan
    else if ltb limit (length plan)
    then rstrip (take limit plan)
      ++ codes "\n\n(truncated — see plan_docs/application_plan.md for the full plan.)"
    else plan

-- What a command printed, stripped; nothing where it fails.
unfoldable pub output_of : Printed → Text
output_of (printed t) = strip t
output_of missing = []
output_of failed = []

-- value.get(key, []) or []
list_under : Text → Json → Py Json
list_under key value = get_or value key empty_arr >>= (λ v. ok (or_else v empty_arr))

-- The dependency of an edge [dependent, dependency] of the bead.
unfoldable pub dependency_of : Text → Json → Option Json
unfolding same_id
dependency_of bead_id (arr (cons dependent (cons dependency nil))) =
    if same_id dependent (text bead_id) then some dependency else none
dependency_of bead_id _ = none

-- `found` is what was found already, in its order.
unfoldable pub add_blockers : Text → List Json → List Json → List Json
unfolding dependency_of is_in
add_blockers bead_id found [] = found
add_blockers bead_id found (edge ∷ edges) =
    add_blockers bead_id
      (elim (dependency_of bead_id edge) [
        | none ↦ found
        | some d ↦ if is_in d found then found else found ++ d ∷ []
      ])
      edges

unfoldable pub blockers_in : Text → List Json → List Json → Py (List Json)
unfolding add_blockers list_under
blockers_in bead_id found [] = ok found
blockers_in bead_id found (component ∷ components) = elim (is_dict component) [
  | false ↦ blockers_in bead_id found components
  | true ↦
      list_under (codes "edges") component
      >>= iterate
      >>= (λ edges. blockers_in bead_id (add_blockers bead_id found edges) components)
]

-- `parse` is json.loads with none for a JSONDecodeError, `repr` is str of a value that is no text and
-- `decimal` str of an int. Ids that are lists or dicts are left out.
module _ (parse : Text → Option Json) (repr : Json → Text) (decimal : ℕ → Text) where
  unfoldable pub blockers_for : Text → Printed → Py (List Json)
  unfolding output_of list_under blockers_in
  blockers_for bead_id graph =
      if is_empty (output_of graph) then ok [] else elim (parse (output_of graph)) [
        | none ↦ ok []
        | some value ↦
            if is_dict value
            then list_under (codes "components") value >>= iterate >>= blockers_in bead_id []
            else ok []
      ]

  -- status_by_id.get(id, "unknown"): of beads with one id, the last counts.
  unfoldable pub status_by_id : Json → List Json → Option Text
  unfolding field_or same_id
  status_by_id id [] = none
  status_by_id id (b ∷ bs) = elim (status_by_id id bs) [
    | some status ↦ some status
    | none ↦ if same_id (field_or (codes "id") null b) id then some (db_status_of repr b) else none
  ]

  blocker_line : List Json → Json → Text
  unfolding status_by_id
  blocker_line beads id =
      codes "  - "
      ++ (to_text repr id
          ++ (codes " ["
              ++ ((elim (status_by_id id beads) [ none ↦ codes "unknown" | some s ↦ s ])
                  ++ codes "]")))

  -- How many beads are closed, open, and neither.
  unfoldable pub bead_counts : List Json → ℕ × ℕ × ℕ
  unfolding count_if
  bead_counts beads =
      let closed = count_if (λ (b : Json). same (db_status_of repr b) (codes "closed")) beads in
      let open_ = count_if (λ (b : Json). same (db_status_of repr b) (codes "open")) beads in
      (closed, open_, length beads - closed - open_)

  progress_line : List Json → Text
  unfolding bead_counts
  progress_line beads =
      let (closed, open_, other) = bead_counts beads in
      codes "Progress: "
      ++ (decimal closed
          ++ (codes "/"
              ++ (decimal (length beads)
                  ++ (codes " beads closed, " ++ (decimal open_ ++ codes " open.")))))

  other_line : List Json → List Text
  unfolding bead_counts
  other_line beads =
      let (closed, open_, other) = bead_counts beads in
      if other == 0
      then []
      else (codes "(" ++ (decimal other ++ codes " in other states: ready/blocked/halted/active.)"))
        ∷ []

  blocker_lines : List Json → List Json → List Text
  unfolding blocker_line
  blocker_lines beads [] = []
  blocker_lines beads (b ∷ bs) =
      codes "This bead's prerequisites (already complete; their output is available):"
      ∷ map (blocker_line beads) (b ∷ bs)

  unfoldable pub progress_snapshot : Text → Printed → Printed → Py Text
  unfolding output_of blockers_for progress_line other_line blocker_lines parse_beads
  progress_snapshot bead_id listed graph = parse_beads parse (output_of listed) >>= (λ beads.
      blockers_for bead_id graph >>= (λ blockers.
        ok (join_lines (progress_line beads ∷ (other_line beads ++ blocker_lines beads blockers)))))

-- What write_context_files does with a file.
pub data Written : Type 0 where
  written skipped : Written

-- The files in their order, for a workspace that can be written: the guide always, AGENTS.md only
-- where there is none. A workspace that cannot be written gets none.
unfoldable pub write_context_files : Bool → Bool → List (Text × Written)
write_context_files writable has_agents =
    if writable
    then (codes "BEADS_AGENT_GUIDE.md", written)
      ∷ (codes "AGENTS.md", if has_agents then skipped else written)
      ∷ []
    else []

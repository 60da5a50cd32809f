-- ===== src/Dashboard/Graph.antt =====
-- dashboard.py: the routes for the graph of the beads and for one bead, and the project of a request.
use orchestrator_service.Prelude.{
  ℕ, Text, codes, Bool, true, false, not, ◌||◌, Option, none, some, List, [], ◌∷◌, ◌++◌, map,
  if◌then◌else◌, is_empty, same, lower,
}
use orchestrator_service.Json.{
  Json, null, num, text, arr, obj, nil, cons, empty_text, empty_arr, empty_obj, to_text, truthy,
  or_else, is_dict, Py, ok, ◌>>=◌, get_or, iterate,
}
use orchestrator_service.Beads.View.{ProjectState}
use orchestrator_service.Workspace.Machine.{Machine, Ran, returned}
use orchestrator_service.Workspace.Projects.{discover_projects, project_workspace_path}
use orchestrator_service.Dashboard.Beads.{
  field_or, parse_beads, same_id, BeadsView, UiStatus, ui_status, active_ids, halted_ids, Enriched,
  enrich_beads,
}
use orchestrator_service.Dashboard.Runs.{Answer, answer, refused, valid_bead_id}

-- The project of a request: the one that it names, or the first that is found.
unfoldable pub resolve_project : {W : Type 0} → Machine W → Text → Option Text → W → Option Text
resolve_project m base project w =
    let found : Option Text = elim (discover_projects m base w) [
      | [] ↦ none
      | slug ∷ slugs ↦ some slug
    ] in
    elim project [ none ↦ found | some slug ↦ if is_empty slug then found else some slug ]

unfoldable pub workspace : {W : Type 0} → Machine W → Text → Option Text → W → Ran Text W
unfolding resolve_project
workspace m base project w = elim (resolve_project m base project w) [
  | none ↦ returned base w
  | some slug ↦ if is_empty slug then returned base w else project_workspace_path m base slug w
]

-- What is read of the graph and of the beads; an edge is a pair (dependent, dependency).
pub record BeadsGraph : Type 0 where
  pub nodes : List Json
  pub edges : List (Json × Json)
  pub initialized : Bool
  pub beads : List Json
  pub ready_ids : List Json

-- The edges that are lists of two.
unfoldable pub edges_in : List Json → List (Json × Json)
edges_in (arr (cons source (cons target nil)) ∷ es) = (source, target) ∷ edges_in es
edges_in (_ ∷ es) = edges_in es
edges_in [] = []

unfoldable pub dict_items : List Json → List Json
dict_items [] = []
dict_items (v ∷ vs) = let rest = dict_items vs in if is_dict v then v ∷ rest else rest

-- value.get(key, []) or []
list_in : Text → Json → Py (List Json)
list_in key value = get_or value key empty_arr >>= (λ v. iterate (or_else v empty_arr))

-- The nodes and the edges of the components that are dicts.
unfoldable pub components_in : List Json → Py (List Json × List (Json × Json))
unfolding list_in dict_items edges_in
components_in [] = ok ([], [])
components_in (component ∷ components) =
    let rest = components_in components in
    if is_dict component
    then (do
      nodes ← list_in (codes "nodes") component
      edges ← list_in (codes "edges") component
      found ← rest
      ok (dict_items nodes ++ found.0, edges_in edges ++ found.1))
    else rest

-- The nodes, the edges and whether the graph is there; json.loads gives none for a JSONDecodeError.
unfoldable pub graph_in : Option Json → Py (List Json × List (Json × Json) × Bool)
unfolding components_in list_in
graph_in (some (obj fs)) = do
  components ← list_in (codes "components") (obj fs)
  found ← components_in components
  total ← get_or (obj fs) (codes "total_nodes") null
  ok (found.0, found.1, truthy total || not (is_empty found.0))
graph_in _ = ok ([], [], false)

unfoldable pub fetch_beads_graph : (Text → Option Json) → Text → Text → Text → Py BeadsGraph
unfolding graph_in field_or
fetch_beads_graph parse graph_out list_out ready_out = do
  found ← if is_empty graph_out then ok ([], [], false) else graph_in (parse graph_out)
  beads ← parse_beads parse list_out
  ready ← parse_beads parse ready_out
  ok (record {
    nodes = found.0;
    edges = found.1;
    initialized = found.2;
    beads = beads;
    ready_ids = map (field_or (codes "id") null) ready;
  })

-- {b.get("id"): b for b in beads}: of beads with one id, the last counts.
unfoldable pub last_with : Json → List Json → Option Json
unfolding field_or same_id
last_with id [] = none
last_with id (b ∷ bs) = elim (last_with id bs) [
  | some found ↦ some found
  | none ↦ if same_id (field_or (codes "id") null b) id then some b else none
]

-- meta.get(id, {})
unfoldable pub meta_of : Json → List Json → Json
meta_of id beads = elim (last_with id beads) [ none ↦ empty_obj | some b ↦ b ]

pub record GraphNode : Type 0 where
  pub id : Json
  pub title : Json
  pub type : Json
  pub priority : Json
  pub status : Text
  pub depth : Json
  pub shown : UiStatus

-- `repr` is str of a value that is no text.
module _ (repr : Json → Text) where
  unfoldable pub graph_node : BeadsGraph → Option ProjectState → Json → GraphNode
  unfolding field_or
  graph_node g state n =
      let id = field_or (codes "id") empty_text n in
      let m = meta_of id g.beads in
      let either =
        λ (key in_node : Text) (default : Json). field_or key (field_or in_node default n) m in
      let db_status = lower (to_text repr (either (codes "status") (codes "status") empty_text)) in
      record {
        id = id;
        title = either (codes "title") (codes "title") id;
        type = either (codes "issue_type") (codes "type") (text (codes "task"));
        priority = either (codes "priority") (codes "priority") (num 999);
        status = if is_empty db_status then codes "open" else db_status;
        depth = field_or (codes "depth") (num 0) n;
        shown = ui_status id db_status (active_ids state) (halted_ids state) g.ready_ids;
      }

  -- The nodes, the edges and whether the graph is there.
  unfoldable pub graph :
      BeadsGraph → Option ProjectState → List GraphNode × List (Json × Json) × Bool
  graph g state = (map (graph_node g state) g.nodes, g.edges, g.initialized)

-- The first bead of the list with the id.
first_with : Text → List Enriched → Option Enriched
unfolding same_id
first_with id [] = none
first_with id (e ∷ es) =
    let rest = first_with id es in if same_id e.id (text id) then some e else rest

found_or_404 : Option Enriched → Answer Enriched
found_or_404 none = refused 404
found_or_404 (some e) = answer e

module _ (repr : Json → Text) (less : Json → Json → Py Bool) where
  unfoldable pub bead_detail : Text → ℕ → BeadsView → Option ProjectState → Py (Answer Enriched)
  unfolding first_with found_or_404
  bead_detail id now view state =
      if valid_bead_id id
      then enrich_beads repr less now view state >>= (λ es. ok (found_or_404 (first_with id es)))
      else ok (refused 400)

-- What is shown of the bundle after a forced export: the error, none where it is there.
pub record Refreshed : Type 0 where
  pub error : Option Text
  pub initialized : Bool

unfoldable pub pages_refresh : Option Text → Refreshed
pages_refresh none = record { error = none; initialized = true }
pages_refresh (some e) = record {
  error = some e;
  initialized = not (same e (codes "not_initialized"));
}

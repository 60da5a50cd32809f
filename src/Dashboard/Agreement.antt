-- ===== src/Dashboard/Agreement.antt =====
-- dashboard.py: the graph and the list of beads show a bead alike.
use orchestrator_service.Prelude.{
  ℕ, Text, codes, true, ◌≡◌, refl, sym, ap, ◌∙◌, inl, inr, Option, some, List, [], ◌∷◌, same_iff,
  arith, Bool-cases, Option-cases,
}
use orchestrator_service.Json.{Json, null, text, obj, Fields, end, field, empty_text, find_field}
use orchestrator_service.Beads.View.{ProjectState}
use orchestrator_service.Dashboard.Beads.{
  field_or, same_id, BeadsView, Enriched, db_status_of, enrich_bead,
}
use orchestrator_service.Dashboard.Graph.{BeadsGraph, last_with, meta_of, GraphNode, graph_node}

-- The bead has the key.
abbrev pub HasField : Text → Json → Type 0
HasField key b = field_or key null b ≡ field_or key empty_text b

find_field-default :
    (key : Text) (fs : Fields) (d : Json)
    → find_field key null fs ≡ find_field key empty_text fs
    → find_field key d fs ≡ find_field key null fs
unfolding find_field
find_field-default key end d h = cc
find_field-default key (field k v fs) d h = ground (arith, find_field-default key fs d)

-- With the key, the default does not count.
field_or-default :
    (key : Text) (b d : Json) → HasField key b → field_or key d b ≡ field_or key null b
unfolding field_or
field_or-default key (obj fs) d h = find_field-default key fs d h
field_or-default key b d h = cc

field_or-text :
    (key i : Text) (b : Json)
    → same_id (field_or key null b) (text i) ≡ true
    → field_or key null b ≡ text i
unfolding same_id
field_or-text key i b h = text_of (field_or key null b) h
  where
    text_of : (v : Json) → same_id v (text i) ≡ true → v ≡ text i
    text_of (text s) h = ap text ((same_iff s i).0 h)
    text_of _ h = cc

find_field-null :
    (key : Text) (fs : Fields) (i : Text)
    → find_field key null fs ≡ text i
    → find_field key empty_text fs ≡ text i
unfolding find_field
find_field-null key end i h = cc
find_field-null key (field k v fs) i h = ground (arith, find_field-null key fs i)

field_or-null :
    (key : Text) (b : Json) (i : Text)
    → field_or key null b ≡ text i
    → field_or key empty_text b ≡ text i
unfolding field_or
field_or-null key (obj fs) i h = find_field-null key fs i h
field_or-null key b i h = cc

-- The bead that is found has the id.
last_with-id :
    (i : Text) (bs : List Json) (b : Json)
    → last_with (text i) bs ≡ some b
    → field_or (codes "id") null b ≡ text i
unfolding last_with
last_with-id i [] b h = cc
last_with-id i (c ∷ bs) b h = elim (Option-cases (last_with (text i) bs)) [
  | inr (d, e) ↦ last_with-id i bs b (e ∙ (rw (e, last_with) at h))
  | inl e ↦ elim (Bool-cases (same_id (field_or (codes "id") null c) (text i))) [
    | inl f ↦
        let is : some c ≡ some b = rw (e, f, last_with) at h in
        let same_bead : c ≡ b = cc in
        ap (field_or (codes "id") null) (sym same_bead) ∙ field_or-text (codes "id") i c f
    | inr f ↦ cc (rw (e, f, last_with) at h)
  ]
]

meta_of-last_with :
    (id : Json) (bs : List Json) (b : Json) → last_with id bs ≡ some b → meta_of id bs ≡ b
unfolding meta_of
meta_of-last_with id bs b h = rw (h, meta_of) refl

module _ (repr : Json → Text) (now : ℕ) (state : Option ProjectState) where
  -- What the graph and the list show of one bead.
  abbrev pub ShownAlike : GraphNode → Enriched → Type 0
  ShownAlike node bead =
      (node.id ≡ bead.id) × (node.status ≡ bead.status) × (node.shown ≡ bead.shown)

  -- A node of the graph whose id is a text, that of a bead with a status, is shown with the id, the
  -- status and the state that the list shows of the last bead with that id, whatever the node itself
  -- says of its status; the graph and the list have been read of the same beads.
  pub graph_node-enrich_bead :
      (g : BeadsGraph) (view : BeadsView) (node bead : Json) (i : Text)
      → g.beads ≡ view.all_beads
      → g.ready_ids ≡ view.ready_ids
      → field_or (codes "id") empty_text node ≡ text i
      → last_with (text i) view.all_beads ≡ some bead
      → HasField (codes "status") bead
      → ShownAlike (graph_node repr g state node) (enrich_bead repr now view state bead)
  unfolding graph_node enrich_bead db_status_of
  graph_node-enrich_bead g view node bead i beads ready named found status =
      let id : field_or (codes "id") empty_text bead ≡ text i =
        field_or-null (codes "id") bead i (last_with-id i view.all_beads bead found) in
      let given =
        field_or-default (codes "status") bead (field_or (codes "status") empty_text node) status in
      let empty = field_or-default (codes "status") bead empty_text status in
      let meta = meta_of-last_with (text i) view.all_beads bead found in
      rw (named, beads, ready, meta, id, given, empty) (refl, refl, refl)

-- ===== src/Tests/Views.antt =====
-- Beads as the dashboard shows them.
use orchestrator_service.Prelude.{
  ℕ, ◌+◌, true, same, Text, codes, ◌≡◌, refl, Option, none, some, List, [], ◌∷◌, map,
}
use orchestrator_service.Json.{Json, text, obj, field, end, find_field}
use orchestrator_service.Beads.View.{ProjectState}
use orchestrator_service.Dashboard.Beads.{
  BeadsView, field_or, enrich_bead, overview_counts, count_if,
}
use orchestrator_service.Dashboard.Counting.{is_ready, is_waiting, overview-enrich_beads}

abbrev bead : Text → Text → Json
bead id status = obj (field (codes "id") (text id) (field (codes "status") (text status) end))

abbrev no_text : Json → Text
no_text v = []

abbrev four_beads : BeadsView
four_beads = record {
  all_beads =
      bead (codes "a") (codes "closed")
      ∷ bead (codes "b") (codes "open")
      ∷ bead (codes "c") (codes "in_progress")
      ∷ bead (codes "d") (codes "open")
      ∷ [];
  ready_ids = text (codes "b") ∷ text (codes "d") ∷ [];
}

abbrev one_active : Option ProjectState
one_active =
    some (record {
      active = codes "d" ∷ [];
      halted = [];
      retry = [];
      start_times = (codes "d", 5) ∷ [];
    })

overview-enrich_beads_example :
    let c = overview_counts no_text four_beads one_active in
    let shown = map (enrich_bead no_text 9 four_beads one_active) four_beads.all_beads in
    (c.total ≡ c.closed_count + c.open_count)
    × (c.ready_count ≡ count_if is_ready shown)
    × (c.blocked_count ≡ count_if is_waiting shown)
unfolding field_or find_field same
overview-enrich_beads_example =
    overview-enrich_beads no_text 9 four_beads one_active (refl, (refl, (refl, (refl, tt))))

-- One ready, one blocked, one active, one closed.
counted :
    let c = overview_counts no_text four_beads one_active in
    (c.ready_count ≡ 1) × (c.blocked_count ≡ 1) × (c.active_count ≡ 1) × (c.closed_count ≡ 1)
unfolding overview_counts orchestrator_service.Prelude.same orchestrator_service.Prelude.lower
    orchestrator_service.Json.to_text orchestrator_service.Json.find_field
counted = (refl, refl, refl, refl)

-- ===== src/Dashboard/Counting.antt =====
-- dashboard.py: how the counts of the overview and the list of beads agree.
use orchestrator_service.Prelude.{
  ℕ, ◌+◌, ◌-◌, Text, codes, Bool, true, false, not, ◌&&◌, ◌||◌, ◌≡◌, refl, Option, List, [], ◌∷◌,
  map, length, if◌then◌else◌, arith, Bool-cases, inl, inr, All,
}
use orchestrator_service.Json.{Json, null, empty_text}
use orchestrator_service.Beads.View.{ProjectState}
use orchestrator_service.Dashboard.Beads.{
  field_or, is_in, BeadsView, ready, blocked, other_status, ui_status, active_ids, halted_ids,
  Enriched, enrich_bead, count_if, keep_if, is_closed, overview_counts,
}

-- What the list shows as ready, and as waiting: open, and not taken, given up or ready.
abbrev pub is_ready : Enriched → Bool
is_ready e = elim e.shown [ ready ↦ true | _ ↦ false ]

abbrev pub is_waiting : Enriched → Bool
is_waiting e = elim e.shown [ blocked ↦ true | other_status s ↦ true | _ ↦ false ]

-- A bead with an id.
abbrev pub HasId : Json → Type 0
HasId b = field_or (codes "id") null b ≡ field_or (codes "id") empty_text b

keep-count :
    (p : Json → Bool) (bs : List Json)
    → length bs ≡ count_if p bs + length (keep_if (λ b. not (p b)) bs)
unfolding count_if keep_if
keep-count p [] = refl
keep-count p (b ∷ bs) = ground (arith, keep-count p bs)

module _ (repr : Json → Text) (now : ℕ) (view : BeadsView) (state : Option ProjectState) where
  id_in : List Json → Json → Bool
  id_in ids b = is_in (field_or (codes "id") null b) ids

  taken : Json → Bool
  unfolding id_in
  taken b = id_in (active_ids state) b || id_in (halted_ids state) b

  ready_free : Json → Bool
  unfolding id_in taken
  ready_free b = id_in view.ready_ids b && not (taken b)

  open_of : List Json → List Json
  open_of bs = keep_if (λ (b : Json). not (is_closed repr b)) bs

  enriched : List Json → List Enriched
  enriched = map (enrich_bead repr now view state)

  -- What one bead is shown as, against what the overview counts it as.
  shown_lem :
      (b : Json)
      → HasId b
      → (is_ready (enrich_bead repr now view state b) ≡ (not (is_closed repr b) && ready_free b))
        × (is_waiting (enrich_bead repr now view state b)
            ≡ (not (is_closed repr b) && not (ready_free b || taken b)))
  unfolding enrich_bead ui_status is_closed taken ready_free id_in
  shown_lem b h = rw h (ground arith)

  not_both :
      (r t : Bool)
      → (r && t) ≡ false
      → (if r then 1 else 0) + (if not (r || t) then 1 else 0) + (if t then 1 else 0) ≡ 1
  not_both r t h = ground arith

  ready_free-not_taken : (b : Json) → (ready_free b && taken b) ≡ false
  unfolding ready_free
  ready_free-not_taken b = ground arith

  counts_lem :
      (bs : List Json)
      → All HasId bs
      → (count_if ready_free (open_of bs) ≡ count_if is_ready (enriched bs))
        × (length (open_of bs)
            ≡ count_if ready_free (open_of bs)
              + count_if is_waiting (enriched bs)
              + count_if taken (open_of bs))
  unfolding count_if keep_if open_of enriched
  counts_lem [] h = (refl, refl)
  counts_lem (b ∷ bs) (h, hs) =
      let (same_ready, split) = counts_lem bs hs in
      let (is, waits) = shown_lem b h in
      elim (Bool-cases (is_closed repr b)) [
        | inl e ↦ rw (is, waits, e) (omega (arith, same_ready), omega (arith, split))
        | inr e ↦
            let apart = not_both (ready_free b) (taken b) (ready_free-not_taken b) in
            rw (is, waits, e) (omega (arith, same_ready), omega (arith, split, apart))
      ]

remaining : (n r w t : ℕ) → n ≡ r + w + t → n - r - t ≡ w
remaining n r w t h = omega arith

-- For beads that have an id, the overview counts every bead once as closed or open, its ready beads
-- are as many as the list shows as ready, and its blocked ones as many as the list shows as blocked
-- or with another status of br, such as in_progress.
pub overview-enrich_beads :
    (repr : Json → Text) (now : ℕ) (view : BeadsView) (state : Option ProjectState)
    → All HasId view.all_beads
    → let c = overview_counts repr view state in
      let shown = map (enrich_bead repr now view state) view.all_beads in
      (c.total ≡ c.closed_count + c.open_count)
      × (c.ready_count ≡ count_if is_ready shown)
      × (c.blocked_count ≡ count_if is_waiting shown)
unfolding overview_counts taken ready_free open_of enriched id_in
overview-enrich_beads repr now view state h =
    let (same_ready, split) = counts_lem repr now view state view.all_beads h in
    (keep-count (is_closed repr) view.all_beads, same_ready, remaining _ _ _ _ split)

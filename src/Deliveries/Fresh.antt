-- ===== src/Deliveries/Fresh.antt =====
-- webhook_store.py, record: a delivery that arrives now is not evicted by its own arrival.
use orchestrator_service.Prelude.{
  ℕ, zero, suc, ◌-◌, ◌≤◌, ◌<◌, Text, false, ◌≡◌, refl, ap, ◌∙◌, inl, inr, List, [], ◌∷◌, ◌++◌,
  length, take, leb, same_iff, same_refl, member, arith, Dict, Bool-cases, none, some, All,
  length-append,
}
use orchestrator_service.Json.{Json}
use orchestrator_service.Deliveries.Defs.{
  Delivery, WebhookStore, ids_of, ts_of, find, place, sort, enforce_cap, record_event, current, put,
  update_fields, new_delivery,
}
use orchestrator_service.Deliveries.Cap.{persist-events, length-sort}
use orchestrator_service.Deliveries.Recording.{find-delete_all, find-put}

-- No entry is younger than `t`.
abbrev pub AllBy : ℕ → List Delivery → Type 0
AllBy t = All (λ d. ts_of d ≤ t)

put-fresh :
    (d : Delivery) (ds : List Delivery) → find d.delivery_id ds ≡ none → put d ds ≡ ds ++ d ∷ []
unfolding put find
put-fresh d [] h = refl
put-fresh d (e ∷ es) h = ground (arith, put-fresh d es)

place-append_last :
    (e d : Delivery) (es : List Delivery)
    → ts_of e ≤ ts_of d
    → place e (es ++ d ∷ []) ≡ place e es ++ d ∷ []
unfolding place
place-append_last e d [] h = ground arith
place-append_last e d (x ∷ xs) h = ground (arith, place-append_last e d xs h)

sort-append_last :
    (d : Delivery) (ds : List Delivery)
    → AllBy (ts_of d) ds
    → sort (ds ++ d ∷ []) ≡ sort ds ++ d ∷ []
unfolding sort place
sort-append_last d [] h = refl
sort-append_last d (e ∷ es) (h, hs) =
    ap (place e) (sort-append_last d es hs) ∙ place-append_last e d (sort es) h

member-place :
    (id : Text) (d : Delivery) (es : List Delivery)
    → member id (ids_of (place d es)) ≡ member id (ids_of (d ∷ es))
unfolding place member
member-place id d [] = refl
member-place id d (e ∷ es) = ground (arith, member-place id d es)

member-sort :
    (id : Text) (ds : List Delivery) → find id ds ≡ none → member id (ids_of (sort ds)) ≡ false
unfolding sort find member
member-sort id [] h = refl
member-sort id (d ∷ ds) h = ground (
  arith,
  member-place id d (sort ds),
  member-sort id ds,
  same_iff id d.delivery_id,
  same_iff d.delivery_id id,
)

member-take :
    (id last : Text) (k : ℕ) (ids : List Text)
    → k ≤ length ids
    → member id ids ≡ false
    → member id (take k (ids ++ last ∷ [])) ≡ false
unfolding member
member-take id last zero ids le h = refl
member-take id last (suc k) [] le h = absurd (omega arith)
member-take id last (suc k) (x ∷ xs) le h = ground (arith, member-take id last k xs)

ids_of-append_last :
    (ds : List Delivery) (d : Delivery) → ids_of (ds ++ d ∷ []) ≡ ids_of ds ++ d.delivery_id ∷ []
ids_of-append_last [] d = refl
ids_of-append_last (e ∷ es) d = ap (λ ids. e.delivery_id ∷ ids) (ids_of-append_last es d)

length-ids_of : (ds : List Delivery) → length (ids_of ds) ≡ length ds
length-ids_of [] = refl
length-ids_of (d ∷ ds) = ap suc (length-ids_of ds)

module _ (n : ℕ) (d : Delivery) (ds : List Delivery) (room : 0 < n)
    (fresh : find d.delivery_id ds ≡ none) (newest : AllBy (ts_of d) ds) where
  -- The cap evicts from the front of the sorted list, and the newest entry is its last.
  spared : member d.delivery_id (take (length (put d ds) - n) (ids_of (sort (put d ds)))) ≡ false
  spared =
      let evicted = length (ds ++ d ∷ []) - n in
      let few : evicted ≤ length (ids_of (sort ds)) =
        omega (arith, length-append ds (d ∷ []), length-ids_of (sort ds), length-sort ds) in
      let order : ids_of (sort (put d ds)) ≡ ids_of (sort ds) ++ d.delivery_id ∷ [] =
        rw (put-fresh d ds fresh, sort-append_last d ds newest) (ids_of-append_last (sort ds) d) in
      rw (order, put-fresh d ds fresh)
        (member-take d.delivery_id d.delivery_id evicted (ids_of (sort ds)) few
          (member-sort d.delivery_id ds fresh))

  find-enforce_cap_fresh : find d.delivery_id (enforce_cap n (put d ds)) ≡ some d
  unfolding enforce_cap
  find-enforce_cap_fresh =
      let known : find d.delivery_id (put d ds) ≡ some d =
        rw (find-put d d.delivery_id ds, same_refl) refl in
      elim (Bool-cases (leb (length (put d ds)) n)) [
        | inl e ↦ rw e known
        | inr e ↦
            rw
              (
                e,
                find-delete_all (take (length (put d ds) - n) (ids_of (sort (put d ds))))
                    d.delivery_id (put d ds),
                spared,
              )
              known
      ]

current-fresh :
    (id : Text) (now : ℕ) (ds : List Delivery)
    → find id ds ≡ none
    → current id now ds ≡ new_delivery id now
unfolding current
current-fresh id now ds h = ground arith

-- A delivery that is recorded for the first time, in a store that keeps one at least and holds none
-- that is younger, is found afterwards with the time of its arrival and the given fields.
pub record_event-fresh :
    (id : Text) (fields : Dict Json) (now : ℕ) (s : WebhookStore)
    → 0 < s.max_events
    → find id s.events ≡ none
    → AllBy now s.events
    → let d = new_delivery id now in
      find id (record_event id fields now s).events
      ≡ some (record d { fields = update_fields fields d.fields })
unfolding record_event new_delivery
record_event-fresh id fields now s room fresh newest =
    let d = new_delivery id now in
    let d' : Delivery = record d { fields = update_fields fields d.fields } in
    rw (current-fresh id now s.events fresh, persist-events)
      (find-enforce_cap_fresh s.max_events d' s.events room fresh newest)

-- ===== src/Deliveries/Cap.antt =====
-- webhook_store.py, _enforce_cap: the bound on the number of events.
use orchestrator_service.Prelude.{
  ℕ, zero, suc, ◌+◌, ◌-◌, ◌≤◌, min, Text, ◌≡◌, refl, List, [], ◌∷◌, length, take, leb,
  if◌then◌else◌, same_refl, member, arith, Dict, Bool-cases, inl, inr,
}
use orchestrator_service.Json.{Json}
use orchestrator_service.Deliveries.Defs.{
  Delivery, WebhookStore, ids_of, place, sort, delete_all, enforce_cap, persist, record_event,
  current, put, update_fields,
}

-- How many entries have their id in the list.
abbrev named : List Text → List Delivery → ℕ
named ids [] = 0
named ids (d ∷ ds) = (if member d.delivery_id ids then 1 else 0) + named ids ds

length-delete_all :
    (ids : List Text) (ds : List Delivery) → length (delete_all ids ds) + named ids ds ≡ length ds
unfolding delete_all
length-delete_all ids [] = omega arith
length-delete_all ids (d ∷ ds) = ground (arith, length-delete_all ids ds)

named-place :
    (ids : List Text) (d : Delivery) (es : List Delivery)
    → named ids (place d es) ≡ named ids (d ∷ es)
unfolding place
named-place ids d [] = refl
named-place ids d (e ∷ es) = ground (arith, named-place ids d es)

named-sort : (ids : List Text) (ds : List Delivery) → named ids (sort ds) ≡ named ids ds
unfolding sort
named-sort ids [] = refl
named-sort ids (d ∷ ds) = omega (arith, named-place ids d (sort ds), named-sort ids ds)

-- More names, more entries.
named_mono : (x : Text) (ids : List Text) (ds : List Delivery) → named ids ds ≤ named (x ∷ ids) ds
unfolding member
named_mono x ids [] = omega arith
named_mono x ids (d ∷ ds) = ground (arith, named_mono x ids ds)

min-le-named : (k : ℕ) (ds : List Delivery) → min k (length ds) ≤ named (take k (ids_of ds)) ds
unfolding member
min-le-named zero ds = omega arith
min-le-named (suc k) [] = omega arith
min-le-named (suc k) (d ∷ ds) = ground (
  arith,
  same_refl d.delivery_id,
  min-le-named k ds,
  named_mono d.delivery_id (take k (ids_of ds)) ds,
)

length-place : (d : Delivery) (es : List Delivery) → length (place d es) ≡ suc (length es)
unfolding place
length-place d [] = refl
length-place d (e ∷ es) = ground (arith, length-place d es)

pub length-sort : (ds : List Delivery) → length (sort ds) ≡ length ds
unfolding sort
length-sort [] = refl
length-sort (d ∷ ds) = omega (arith, length-place d (sort ds), length-sort ds)

pub length-enforce_cap :
    (max_events : ℕ) (ds : List Delivery) → length (enforce_cap max_events ds) ≤ max_events
unfolding enforce_cap
length-enforce_cap max_events ds = elim (Bool-cases (leb (length ds) max_events)) [
  | inl e ↦ rw e (ground arith)
  | inr e ↦
      let k = length ds - max_events in
      let ids = take k (ids_of (sort ds)) in
      rw e (
        omega (
          arith,
          length-delete_all ids ds,
          named-sort ids ds,
          min-le-named k (sort ds),
          length-sort ds,
        ))
]

pub persist-events : (s : WebhookStore) → (persist s).events ≡ s.events
unfolding persist
persist-events s = ground arith

-- After each record there are at most `max_events` events, however many there were before.
pub record_event-capped :
    (id : Text) (fields : Dict Json) (now : ℕ) (s : WebhookStore)
    → length (record_event id fields now s).events ≤ s.max_events
unfolding record_event
record_event-capped id fields now s =
    let d = current id now s.events in
    let events = put (record d { fields = update_fields fields d.fields }) s.events in
    let capped = length-enforce_cap s.max_events events in rw persist-events capped

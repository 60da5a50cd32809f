-- ===== src/Deliveries/Recording.antt =====
-- webhook_store.py, record: what is found afterwards.
use orchestrator_service.Prelude.{
  ℕ, ◌-◌, Text, false, ◌≡◌, refl, sym, ◌⊎◌, inl, inr, List, [], ◌∷◌, length, take, if◌then◌else◌,
  same, same_iff, member, arith, Dict, Option-cases, none, some,
}
use orchestrator_service.Json.{Json}
use orchestrator_service.Deliveries.Defs.{
  Delivery, WebhookStore, ids_of, find, sort, delete_all, enforce_cap, record_event, current, put,
  update_fields, new_delivery,
}
use orchestrator_service.Deliveries.Cap.{persist-events}

pub find-delete_all :
    (ids : List Text) (j : Text) (ds : List Delivery)
    → find j (delete_all ids ds) ≡ (if member j ids then none else find j ds)
unfolding find delete_all
find-delete_all ids j [] = ground arith
find-delete_all ids j (d ∷ ds) = ground (arith, find-delete_all ids j ds, same_iff d.delivery_id j)

pub find-put :
    (d : Delivery) (j : Text) (ds : List Delivery)
    → find j (put d ds) ≡ (if same d.delivery_id j then some d else find j ds)
unfolding find put
find-put d j [] = refl
find-put d j (e ∷ es) = ground (
  arith,
  find-put d j es,
  same_iff d.delivery_id j,
  same_iff e.delivery_id j,
  same_iff e.delivery_id d.delivery_id,
)

find-enforce_cap :
    (n : ℕ) (j : Text) (ds : List Delivery)
    → (find j (enforce_cap n ds) ≡ none) ⊎ (find j (enforce_cap n ds) ≡ find j ds)
unfolding enforce_cap
find-enforce_cap n j ds =
    ground (arith, find-delete_all (take (length ds - n) (ids_of (sort ds))) j ds)

find-id : (id : Text) (d : Delivery) (ds : List Delivery) → find id ds ≡ some d → d.delivery_id ≡ id
unfolding find
find-id id d [] e = ground arith
find-id id d (x ∷ xs) e = ground (arith, same_iff x.delivery_id id, find-id id d xs)

pub id_of-current :
    (id : Text) (now : ℕ) (ds : List Delivery) → (current id now ds).delivery_id ≡ id
unfolding current new_delivery
id_of-current id now ds = elim (Option-cases (find id ds)) [
  | inl e ↦ rw (e, current) refl
  | inr (d, e) ↦ rw (e, current) (find-id id d ds e)
]

-- Recording one delivery leaves each other one as it was, or evicts it.
pub record_event-other :
    (id j : Text) (fields : Dict Json) (now : ℕ) (s : WebhookStore)
    → same id j ≡ false
    → (find j (record_event id fields now s).events ≡ none)
      ⊎ (find j (record_event id fields now s).events ≡ find j s.events)
unfolding record_event
record_event-other id j fields now s ne =
    let d = current id now s.events in
    let d' : Delivery = record d { fields = update_fields fields d.fields } in
    let events = put d' s.events in
    let kept : find j events ≡ find j s.events =
      rw (find-put d' j s.events, id_of-current id now s.events, ne) refl in
    rw (persist-events, sym kept) (find-enforce_cap s.max_events j events)

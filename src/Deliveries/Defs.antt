-- ===== src/Deliveries/Defs.antt =====
-- webhook_store.py: WebhookStore. The JSON file is the list of the events that were written last.
use orchestrator_service.Prelude.{
  ℕ, ◌-◌, ◌*◌, Text, codes, Bool, Option, none, some, List, [], ◌∷◌, map, length, take, ltb, leb,
  if◌then◌else◌, same, is_empty, member, Dict, insert,
}
use orchestrator_service.Json.{Json, text}

-- One event: its id, its `received_ts` if it has one, and its other fields.
pub record Delivery : Type 0 where
  pub delivery_id : Text
  pub received_ts : Option ℕ
  pub fields : Dict Json

-- ev.get("received_ts", 0)
abbrev pub ts_of : Delivery → ℕ
ts_of d = elim d.received_ts [ none ↦ 0 | some t ↦ t ]

-- The dict in the order of insertion; the keys are the ids. `file` is none for a file that is
-- missing or cannot be read, and `writable` tells whether writing it succeeds.
pub record WebhookStore : Type 0 where
  pub max_events : ℕ
  pub events : List Delivery
  pub file : Option (List Delivery)
  pub writable : Bool

-- self._events.get(id)
unfoldable pub find : Text → List Delivery → Option Delivery
find id [] = none
find id (d ∷ ds) = if same d.delivery_id id then some d else find id ds

-- self._events[id] = d
unfoldable pub put : Delivery → List Delivery → List Delivery
put d [] = d ∷ []
put d (e ∷ es) = if same e.delivery_id d.delivery_id then d ∷ es else e ∷ put d es

-- del self._events[id], for each id of a list
unfoldable pub delete_all : List Text → List Delivery → List Delivery
delete_all ids [] = []
delete_all ids (d ∷ ds) =
    let rest = delete_all ids ds in if member d.delivery_id ids then rest else d ∷ rest

-- sorted(…, key=ts_of) is stable: an entry stays before those of its age that follow it.
unfoldable pub place : Delivery → List Delivery → List Delivery
place d [] = d ∷ []
place d (e ∷ es) = if leb (ts_of d) (ts_of e) then d ∷ e ∷ es else e ∷ place d es

unfoldable pub sort : List Delivery → List Delivery
unfolding place
sort [] = []
sort (d ∷ ds) = place d (sort ds)

-- With reverse=True too, entries of one age keep their order.
unfoldable pub place_down : Delivery → List Delivery → List Delivery
place_down d [] = d ∷ []
place_down d (e ∷ es) = if leb (ts_of e) (ts_of d) then d ∷ e ∷ es else e ∷ place_down d es

unfoldable pub sort_down : List Delivery → List Delivery
unfolding place_down
sort_down [] = []
sort_down (d ∷ ds) = place_down d (sort_down ds)

abbrev pub ids_of : List Delivery → List Text
ids_of = map (λ d. d.delivery_id)

unfoldable pub enforce_cap : ℕ → List Delivery → List Delivery
unfolding sort delete_all
enforce_cap max_events events =
    if leb (length events) max_events
    then events
    else delete_all (take (length events - max_events) (ids_of (sort events))) events

unfoldable pub persist : WebhookStore → WebhookStore
unfolding sort
persist s = if s.writable then record s { file = some (sort s.events) } else s

-- ev.update(fields)
unfoldable pub update_fields : Dict Json → Dict Json → Dict Json
update_fields [] d = d
update_fields ((k, v) ∷ new) d = update_fields new (insert k v d)

unfoldable pub new_delivery : Text → ℕ → Delivery
new_delivery id now = record {
  delivery_id = id;
  received_ts = some now;
  fields = (codes "decision", text (codes "pending")) ∷ [];
}

unfoldable pub current : Text → ℕ → List Delivery → Delivery
unfolding new_delivery
current id now events = elim (find id events) [ none ↦ new_delivery id now | some d ↦ d ]

-- The fields that callers give hold neither `delivery_id` nor `received_ts`.
unfoldable pub record_event : Text → Dict Json → ℕ → WebhookStore → WebhookStore
unfolding current update_fields put
record_event id fields now s =
    let d = current id now s.events in
    let events = put (record d { fields = update_fields fields d.fields }) s.events in
    persist (record s { events = enforce_cap s.max_events events })

unfoldable pub list_events : ℕ → WebhookStore → List Delivery
unfolding sort_down
list_events limit s = take limit (sort_down s.events)

unfoldable pub stale_ids : ℕ → List Delivery → List Text
stale_ids cutoff [] = []
stale_ids cutoff (d ∷ ds) =
    if ltb (ts_of d) cutoff then d.delivery_id ∷ stale_ids cutoff ds else stale_ids cutoff ds

-- The count of what was removed, and the store. Times are seconds.
unfoldable pub cleanup_old : ℕ → ℕ → WebhookStore → ℕ × WebhookStore
unfolding stale_ids delete_all
cleanup_old max_age_days now s =
    let stale = stale_ids (now - max_age_days * 86400) s.events in
    let s' = record s { events = delete_all stale s.events } in
    (length stale, if is_empty stale then s else persist s')

-- The loop of _load: an event without an id is skipped, and a later one replaces an earlier one.
unfoldable pub load_all : List Delivery → List Delivery → List Delivery
load_all [] events = events
load_all (d ∷ ds) events = load_all ds (if is_empty d.delivery_id then events else put d events)

unfoldable pub load : Option (List Delivery) → List Delivery
unfolding load_all
load none = []
load (some ds) = load_all ds []

-- The constructor.
unfoldable pub open_store : ℕ → Option (List Delivery) → Bool → ℕ → WebhookStore
unfolding load
open_store max_events file writable now =
    let events = enforce_cap max_events (load file) in
    let s : WebhookStore = record {
      max_events = max_events;
      events = events;
      file = file;
      writable = writable;
    } in
    (cleanup_old 30 now (if is_empty events then s else persist s)).1

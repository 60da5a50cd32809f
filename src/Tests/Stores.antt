-- ===== src/Tests/Stores.antt =====
-- Events and deliveries on record, for event_store.py and webhook_store.py.
use orchestrator_service.Prelude.{
  List, ◌≡◌, refl, codes, true, none, some, [], ◌∷◌, length, min, same, ◌≤◌, arith,
}
use orchestrator_service.Json.{text, end}
use orchestrator_service.EventStore.{Event, new, recent}
use orchestrator_service.EventStore.Ring.{Call, emit_all, numbered, last_of, recent-emit_all}
use orchestrator_service.EventStore.Threads.{
  World, Reach, here, more, number, publish, subscribe, fresh,
}
use orchestrator_service.EventStore.Once.{delivered_once}
use orchestrator_service.EventStore.Once.Counts.{copies}
use orchestrator_service.Deliveries.Defs.{
  Delivery, WebhookStore, find, open_store, record_event, new_delivery, update_fields,
}
use orchestrator_service.Deliveries.Cap.{record_event-capped}
use orchestrator_service.Deliveries.Fresh.{record_event-fresh}
use orchestrator_service.Deliveries.Restart.{Arrival, IsKept, record_all, find-open_store}

abbrev hello : Call
hello = record { kind = codes "hello"; body = end; now = 7 }

recent-emit_all_example :
    recent 2 (emit_all (hello ∷ hello ∷ hello ∷ []) (new 5))
    ≡ last_of (min 2 5) (numbered 1 (hello ∷ hello ∷ hello ∷ []))
recent-emit_all_example = recent-emit_all 5 2 (hello ∷ hello ∷ hello ∷ [])

abbrev first : Event
first = record { id = 1; kind = codes "hello"; ts = 7; body = end }

-- A subscriber comes, and one event is emitted.
emitted : (w : World) × Reach (fresh 5) w
unfolding fresh
emitted = (_, more (more (more here subscribe) (number first refl)) (publish [] [] first refl))

delivered_once_example : (copies 1 emitted.0.events ≤ 1) × (copies 1 (emitted.0.inbox 0).seen ≤ 1)
delivered_once_example = delivered_once 5 emitted.0 emitted.1 1 0

abbrev old_delivery : Delivery
old_delivery = record { delivery_id = codes "a"; received_ts = some 3; fields = [] }

abbrev small_store : WebhookStore
small_store = record { max_events = 1; events = old_delivery ∷ []; file = none; writable = true }

record_event-capped_example :
    length (record_event (codes "b") ((codes "repo", text (codes "r")) ∷ []) 9 small_store).events
    ≤ 1
record_event-capped_example =
    record_event-capped (codes "b") ((codes "repo", text (codes "r")) ∷ []) 9 small_store

record_event-fresh_example :
    let d = new_delivery (codes "b") 9 in
    find (codes "b") (record_event (codes "b") [] 9 small_store).events
    ≡ some (record d { fields = update_fields [] d.fields })
unfolding find same
record_event-fresh_example =
    record_event-fresh (codes "b") [] 9 small_store (omega arith) refl (omega arith, tt)

-- The store of one event, whose file holds it.
abbrev saved_store : WebhookStore
saved_store = record {
  max_events = 2;
  events = old_delivery ∷ [];
  file = some (old_delivery ∷ []);
  writable = true;
}

saved_store-IsKept : IsKept saved_store
unfolding orchestrator_service.Deliveries.Defs.load orchestrator_service.Deliveries.Defs.load_all
    orchestrator_service.Deliveries.Defs.sort orchestrator_service.Deliveries.Defs.place
    orchestrator_service.Deliveries.Defs.put
saved_store-IsKept = record {
  distinct = (tt, tt);
  named = (refl, tt);
  fits = omega arith;
  saved = refl;
}

abbrev arrivals : List Arrival
arrivals =
    record { delivery_id = codes "b"; fields = []; now = 9 }
    ∷ record { delivery_id = codes "c"; fields = []; now = 9 }
    ∷ []

find-open_store_example :
    let t = record_all arrivals saved_store in
    find (codes "b") (open_store t.max_events t.file true 20).events ≡ find (codes "b") t.events
unfolding record_event same find orchestrator_service.Deliveries.Defs.persist
    orchestrator_service.Deliveries.Defs.enforce_cap orchestrator_service.Deliveries.Defs.delete_all
    orchestrator_service.Deliveries.Defs.current orchestrator_service.Deliveries.Defs.new_delivery
    orchestrator_service.Deliveries.Defs.put orchestrator_service.Deliveries.Defs.sort
    orchestrator_service.Deliveries.Defs.place orchestrator_service.Prelude.member
find-open_store_example =
    find-open_store arrivals saved_store true 20 (codes "b") saved_store-IsKept refl
      (refl, (refl, tt)) (refl, (refl, tt))

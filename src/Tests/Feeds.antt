-- ===== src/Tests/Feeds.antt =====
-- A subscriber of event_store.py.
use orchestrator_service.Prelude.{◌≡◌, codes, [], ◌∷◌, ◌++◌, map, arith}
use orchestrator_service.Json.{end}
use orchestrator_service.EventStore.{EventStore, new, emit, append_bounded, subscribe}
use orchestrator_service.EventStore.Ring.{Call, emit_all, numbered}
use orchestrator_service.EventStore.Feed.{deliver_all, subscribe-emit_all}

abbrev hello : Call
hello = record { kind = codes "hello"; body = end; now = 7 }

abbrev two_events : EventStore
two_events = emit_all (hello ∷ hello ∷ []) (new 5)

-- Two events are emitted to one who has subscribed after another two.
subscribe-emit_all_example :
    (emit_all (hello ∷ hello ∷ []) (subscribe 3 two_events)).subscribers
    ≡ map (deliver_all (numbered two_events.counter (hello ∷ hello ∷ []))) two_events.subscribers
      ++ (record {
        name = 3;
        waiting = two_events.events ++ numbered two_events.counter (hello ∷ hello ∷ []);
      })
        ∷ []
unfolding emit new append_bounded emit_all
subscribe-emit_all_example = subscribe-emit_all 3 (hello ∷ hello ∷ []) two_events (omega arith)

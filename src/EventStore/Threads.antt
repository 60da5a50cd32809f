-- ===== src/EventStore/Threads.antt =====
-- event_store.py with several threads: what runs under the lock, or in one call of a thread-safe
-- object, is one step. `emit` takes its number, then publishes under the lock and notes the
-- subscribers, then puts the event into their queues, one after the other and without the lock.
use orchestrator_service.Prelude.{
  ℕ, ◌+◌, ◌≡◌, List, [], ◌∷◌, ◌++◌, ltb, length, if◌then◌else◌, ◌==◌,
}
use orchestrator_service.EventStore.{Event, append_bounded, put_nowait, prefill, queue_size}

-- An `emit` under way: numbered, or published with the queues that it has still to serve.
pub data Flight : Type 0 where
  numbered : Event → Flight
  serving : Event → List ℕ → Flight

-- A queue object with what waits in it, and `seen`, all that was ever put into it.
pub record Inbox : Type 0 where
  pub waiting : List Event
  pub seen : List Event

pub record World : Type 0 where
  pub maxlen : ℕ
  pub counter : ℕ
  pub events : List Event
  pub registered : List ℕ
  pub next_queue : ℕ
  pub inbox : ℕ → Inbox
  pub flights : List Flight

unfoldable pub put_inbox : Event → Inbox → Inbox
unfolding put_nowait
put_inbox e b =
    if ltb (length b.waiting) queue_size
    then record { waiting = put_nowait e b.waiting; seen = b.seen ++ e ∷ [] }
    else b

unfoldable pub update {ℓ} : {A : Type ℓ} → (ℕ → A) → ℕ → A → ℕ → A
update f k a j = if j == k then a else f j

-- The registered queues without the first `q`.
unfoldable pub unregister : ℕ → List ℕ → List ℕ
unregister q [] = []
unregister q (r ∷ rs) = if r == q then rs else r ∷ unregister q rs

pub data Step (w : World) : World → Type 0 where
  -- id = next(self._counter)
  number :
      (e : Event)
      → e.id ≡ w.counter
      → Step w (record w { counter = w.counter + 1; flights = numbered e ∷ w.flights })
  -- with self._lock: append, and copy the list of subscribers
  publish :
      (before after : List Flight) (e : Event)
      → w.flights ≡ before ++ numbered e ∷ after
      → Step w (record w {
        events = append_bounded w.maxlen w.events e;
        flights = before ++ serving e w.registered ∷ after;
      })
  -- sub.put_nowait(event), for the next of the copied list
  serve :
      (before after : List Flight) (e : Event) (q : ℕ) (qs : List ℕ)
      → w.flights ≡ before ++ serving e (q ∷ qs) ∷ after
      → Step w (record w {
        inbox = update w.inbox q (put_inbox e (w.inbox q));
        flights = before ++ serving e qs ∷ after;
      })
  -- `emit` returns
  finish :
      (before after : List Flight) (e : Event)
      → w.flights ≡ before ++ serving e [] ∷ after
      → Step w (record w { flights = before ++ after })
  -- with self._lock: fill a new queue with the events so far, and register it
  subscribe : Step w (record w {
    inbox =
        update w.inbox w.next_queue
          (record { waiting = prefill [] w.events; seen = prefill [] w.events });
    registered = w.registered ++ w.next_queue ∷ [];
    next_queue = w.next_queue + 1;
  })
  -- a subscriber takes the first event of its queue
  take :
      (q : ℕ) (e : Event) (rest : List Event)
      → (w.inbox q).waiting ≡ e ∷ rest
      → Step w (record w { inbox = update w.inbox q (record (w.inbox q) { waiting = rest }) })
  -- with self._lock: self._subscribers.remove(q)
  close : (q : ℕ) → Step w (record w { registered = unregister q w.registered })

pub data Reach (w : World) : World → Type 0 where
  here : Reach w w
  more : {u v : World} → Reach w u → Step u v → Reach w v

unfoldable pub fresh : ℕ → World
fresh maxlen = record {
  maxlen = maxlen;
  counter = 1;
  events = [];
  registered = [];
  next_queue = 0;
  inbox = λ q. record { waiting = []; seen = [] };
  flights = [];
}

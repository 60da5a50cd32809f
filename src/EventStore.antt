-- ===== src/EventStore.antt =====
-- event_store.py: the ring of recent events and the queues of the subscribers, one thread at a time.
-- The interleavings of several threads are in the children.
pub mod Ring
pub mod Feed
pub mod Threads
pub mod Once
use orchestrator_service.Prelude.{
  ℕ, suc, ◌+◌, ◌-◌, Text, Bool, true, false, Option, none, some, List, [], ◌∷◌, ◌++◌, map, length,
  take, drop, ltb, leb, ◌==◌, if◌then◌else◌, not,
}
use orchestrator_service.Json.{Fields}

pub record Event : Type 0 where
  pub id : ℕ
  pub kind : Text
  pub ts : ℕ
  pub body : Fields

-- queue.Queue(maxsize=500); `name` tells the queue objects apart.
pub record Queue : Type 0 where
  pub name : ℕ
  pub waiting : List Event

abbrev pub queue_size : ℕ
queue_size = 500

-- q.put_nowait(event), with `queue.Full` ignored
unfoldable pub put_nowait : Event → List Event → List Event
put_nowait e waiting = if ltb (length waiting) queue_size then waiting ++ e ∷ [] else waiting

pub record EventStore : Type 0 where
  pub maxlen : ℕ
  pub counter : ℕ
  pub events : List Event
  pub subscribers : List Queue

-- deque(maxlen=n).append(x) drops from the left
unfoldable pub append_bounded {ℓ} : {A : Type ℓ} → ℕ → List A → A → List A
append_bounded n xs x = let ys = xs ++ x ∷ [] in drop (length ys - n) ys

unfoldable pub new : ℕ → EventStore
new maxlen = record { maxlen = maxlen; counter = 1; events = []; subscribers = [] }

unfoldable pub deliver : Event → Queue → Queue
unfolding put_nowait
deliver e q = record q { waiting = put_nowait e q.waiting }

-- `now` is time.time()
unfoldable pub emit : Text → Fields → ℕ → EventStore → EventStore
unfolding append_bounded
emit kind body now s =
    let e : Event = record { id = s.counter; kind = kind; ts = now; body = body } in
    record s {
      counter = s.counter + 1;
      events = append_bounded s.maxlen s.events e;
      subscribers = map (deliver e) s.subscribers;
    }

-- `limit <= 0` is `limit == 0` here: a negative limit is read as 0.
unfoldable pub recent : ℕ → EventStore → List Event
recent limit s =
    if limit == 0
    then []
    else if ltb limit (length s.events)
    then drop (length s.events - limit) s.events
    else s.events

-- The loop of `subscribe` over the events so far, which stops at the first full queue.
unfoldable pub prefill : List Event → List Event → List Event
prefill waiting [] = waiting
prefill waiting (e ∷ es) =
    let rest = prefill (waiting ++ e ∷ []) es in
    if ltb (length waiting) queue_size then rest else waiting

unfoldable pub subscribe : ℕ → EventStore → EventStore
unfolding prefill
subscribe name s = record s {
  subscribers = s.subscribers ++ (record { name = name; waiting = prefill [] s.events }) ∷ [];
}

-- _subscribers.remove(q): the first one, and nothing if it is not there
unfoldable pub unsubscribe : ℕ → List Queue → List Queue
unsubscribe name [] = []
unsubscribe name (q ∷ qs) = if q.name == name then qs else q ∷ unsubscribe name qs

pub record Subscriber : Type 0 where
  pub queue : ℕ
  pub closed : Bool

unfoldable pub close : Subscriber → EventStore → Subscriber × EventStore
unfolding unsubscribe
close c s =
    if c.closed
    then (c, s)
    else (record c { closed = true }, record s { subscribers = unsubscribe c.queue s.subscribers })

-- What `next` gives: the end, the keepalive `None`, or an event.
pub data Next : Type 0 where
  stop : Next
  keepalive : Next
  got : Event → Next

-- `next` on a subscriber whose queue holds `waiting`, with what is left there
unfoldable pub next : Subscriber → List Event → Next × List Event
next c [] = (if c.closed then stop else keepalive, [])
next c (e ∷ es) = if c.closed then (stop, e ∷ es) else (got e, es)

abbrev pub subscriber_count : EventStore → ℕ
subscriber_count s = length s.subscribers

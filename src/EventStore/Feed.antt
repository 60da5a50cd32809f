-- ===== src/EventStore/Feed.antt =====
-- event_store.py: what a subscriber finds in its queue, as long as the queue does not fill up.
use orchestrator_service.Prelude.{
  ℕ, suc, ◌+◌, ◌≤◌, true, ◌≡◌, refl, ap, sym, ◌∙◌, List, [], ◌∷◌, ◌++◌, map, length, ltb, arith,
  length-append,
}
use mathlib.Core.List.{append-nil, append_assoc}
use orchestrator_service.EventStore.{
  Event, Queue, EventStore, queue_size, put_nowait, deliver, emit, prefill, subscribe,
}
use orchestrator_service.EventStore.Ring.{Call, emit_all, numbered}

-- The events put into a queue, one after the other.
pub deliver_all : List Event → Queue → Queue
deliver_all [] q = q
deliver_all (e ∷ es) q = deliver_all es (deliver e q)

map-deliver_all :
    (e : Event) (es : List Event) (qs : List Queue)
    → map (deliver_all es) (map (deliver e) qs) ≡ map (deliver_all (e ∷ es)) qs
unfolding deliver_all
map-deliver_all e es [] = refl
map-deliver_all e es (q ∷ qs) =
    ap (λ rest. deliver_all es (deliver e q) ∷ rest) (map-deliver_all e es qs)

map-deliver_none : (qs : List Queue) → qs ≡ map (deliver_all []) qs
unfolding deliver_all
map-deliver_none [] = refl
map-deliver_none (q ∷ qs) = ap (λ rest. q ∷ rest) (map-deliver_none qs)

subscribers-emit_all :
    (cs : List Call) (s : EventStore)
    → (emit_all cs s).subscribers ≡ map (deliver_all (numbered s.counter cs)) s.subscribers
unfolding emit_all numbered emit
subscribers-emit_all [] s = map-deliver_none s.subscribers
subscribers-emit_all (c ∷ cs) s =
    let e : Event = record { id = s.counter; kind = c.kind; ts = c.now; body = c.body } in
    subscribers-emit_all cs (emit c.kind c.body c.now s)
    ∙ map-deliver_all e (numbered (s.counter + 1) cs) s.subscribers

deliver_all-room :
    (es : List Event) (q : Queue)
    → length q.waiting + length es ≤ queue_size
    → deliver_all es q ≡ record q { waiting = q.waiting ++ es }
unfolding deliver_all deliver put_nowait
deliver_all-room [] q h = ap (λ w. record q { waiting = w }) (sym (append-nil q.waiting))
deliver_all-room (e ∷ es) q h =
    let room : ltb (length q.waiting) queue_size ≡ true = ground arith in
    let q' : Queue = record q { waiting = q.waiting ++ e ∷ [] } in
    rw room (
      deliver_all-room es q' (omega (arith, length-append q.waiting (e ∷ [])))
      ∙ ap (λ w. record q { waiting = w }) (append_assoc q.waiting (e ∷ []) es))

prefill-room :
    (es waiting : List Event)
    → length waiting + length es ≤ queue_size
    → prefill waiting es ≡ waiting ++ es
unfolding prefill
prefill-room [] waiting h = sym (append-nil waiting)
prefill-room (e ∷ es) waiting h =
    let room : ltb (length waiting) queue_size ≡ true = ground arith in
    rw room (
      prefill-room es (waiting ++ e ∷ []) (omega (arith, length-append waiting (e ∷ [])))
      ∙ append_assoc waiting (e ∷ []) es)

length-numbered : (n : ℕ) (cs : List Call) → length (numbered n cs) ≡ length cs
unfolding numbered
length-numbered n [] = refl
length-numbered n (c ∷ cs) = ap suc (length-numbered (n + 1) cs)

map-append_one :
    (f : Queue → Queue) (qs : List Queue) (q : Queue) → map f (qs ++ q ∷ []) ≡ map f qs ++ f q ∷ []
map-append_one f [] q = refl
map-append_one f (x ∷ xs) q = ap (λ rest. f x ∷ rest) (map-append_one f xs q)

-- A subscriber that comes to any store, and does not read, finds in its queue all events that the
-- ring holds when it comes and then all that are emitted, in their order and with their numbers,
-- as long as these are 500 at most; the queues of the others get the emitted events as before.
pub subscribe-emit_all :
    (name : ℕ) (cs : List Call) (s : EventStore)
    → length s.events + length cs ≤ queue_size
    → (emit_all cs (subscribe name s)).subscribers
      ≡ map (deliver_all (numbered s.counter cs)) s.subscribers
        ++ (record { name = name; waiting = s.events ++ numbered s.counter cs }) ∷ []
unfolding subscribe
subscribe-emit_all name cs s h =
    let es = numbered s.counter cs in
    let q : Queue = record { name = name; waiting = prefill [] s.events } in
    let full : prefill [] s.events ≡ s.events = prefill-room s.events [] (omega arith) in
    let served : deliver_all es q ≡ record { name = name; waiting = s.events ++ es } = rw full (
      deliver_all-room es (record { name = name; waiting = s.events })
        (omega (arith, length-numbered s.counter cs))) in
    subscribers-emit_all cs (subscribe name s)
    ∙ map-append_one (deliver_all es) s.subscribers q
    ∙ ap (λ x. map (deliver_all es) s.subscribers ++ x ∷ []) served

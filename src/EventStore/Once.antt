-- ===== src/EventStore/Once.antt =====
-- event_store.py with several threads: no queue is handed the same event twice.
pub mod Counts
use Counts.{
  one_if, copies, times, unpublished, owed, copies-append_bounded, copies-prefill, copies-put_inbox,
  times-append, times-unregister, unpublished-append, owed-append, unpublished-split, owed-split,
  copies-update,
}
use orchestrator_service.Prelude.{
  ℕ, zero, suc, ◌+◌, ◌≤◌, ◌≡◌, refl, List, [], ◌∷◌, ◌++◌, if◌then◌else◌, ◌==◌, arith, sym,
}
use orchestrator_service.EventStore.{Event, append_bounded, prefill}
use orchestrator_service.EventStore.Threads.{
  Flight, numbered, serving, Inbox, World, put_inbox, update, unregister, Step, number, publish,
  serve, finish, subscribe, take, close, Reach, here, more, fresh,
}

-- The numbers handed out and the queues made so far bound what is under way, and each number is at
-- one place at most: not published, or owed to a queue or seen there.
pub record IsOnce (w : World) : Type 0 where
  pub ring_once : (i : ℕ) → unpublished i w.flights + copies i w.events ≤ 1
  pub seen_once :
      (i q : ℕ) → unpublished i w.flights + owed i q w.flights + copies i (w.inbox q).seen ≤ 1
  pub number_fresh :
      (i q : ℕ)
      → w.counter ≤ i
      → unpublished i w.flights + copies i w.events + owed i q w.flights + copies i (w.inbox q).seen
        ≡ 0
  pub queue_fresh : (i q : ℕ) → w.next_queue ≤ q → owed i q w.flights + times q w.registered ≡ 0
  pub registered_once : (q : ℕ) → times q w.registered ≤ 1

module _ {w : World} (h : IsOnce w) where
  number-IsOnce :
      (e : Event)
      → e.id ≡ w.counter
      → IsOnce (record w { counter = w.counter + 1; flights = numbered e ∷ w.flights })
  number-IsOnce e p = record {
    ring_once = λ i. ground (arith, h.ring_once i, h.number_fresh i 0);
    seen_once = λ i q. ground (arith, h.seen_once i q, h.number_fresh i q);
    number_fresh = λ i q le. ground (arith, h.number_fresh i q);
    queue_fresh = λ i q le. omega (arith, h.queue_fresh i q le);
    registered_once = h.registered_once;
  }

  publish-IsOnce :
      (before after : List Flight) (e : Event)
      → w.flights ≡ before ++ numbered e ∷ after
      → IsOnce (record w {
        events = append_bounded w.maxlen w.events e;
        flights = before ++ serving e w.registered ∷ after;
      })
  publish-IsOnce before after e p =
      let now = serving e w.registered ∷ after in
      let was_new = λ (i : ℕ). unpublished-split i before after w.flights (numbered e) p in
      let is_new = λ (i : ℕ). unpublished-append i before now in
      let was_owed = λ (i q : ℕ). owed-split i q before after w.flights (numbered e) p in
      let is_owed = λ (i q : ℕ). owed-append i q before now in
      let ring = λ (i : ℕ). copies-append_bounded i w.maxlen w.events e in
      record {
        ring_once = λ i. omega (arith, h.ring_once i, was_new i, is_new i, ring i);
        seen_once = λ i q. ground (
          arith,
          h.seen_once i q,
          h.registered_once q,
          was_new i,
          is_new i,
          was_owed i q,
          is_owed i q,
        );
        number_fresh = λ i q le.
            ground (
              arith,
              h.number_fresh i q le,
              was_new i,
              is_new i,
              was_owed i q,
              is_owed i q,
              ring i,
            );
        queue_fresh = λ i q le. ground (arith, h.queue_fresh i q le, was_owed i q, is_owed i q);
        registered_once = h.registered_once;
      }

  serve-IsOnce :
      (before after : List Flight) (e : Event) (q : ℕ) (qs : List ℕ)
      → w.flights ≡ before ++ serving e (q ∷ qs) ∷ after
      → IsOnce (record w {
        inbox = update w.inbox q (put_inbox e (w.inbox q));
        flights = before ++ serving e qs ∷ after;
      })
  serve-IsOnce before after e k qs p =
      let now = serving e qs ∷ after in
      let was_new = λ (i : ℕ). unpublished-split i before after w.flights (serving e (k ∷ qs)) p in
      let is_new = λ (i : ℕ). unpublished-append i before now in
      let was_owed = λ (i q : ℕ). owed-split i q before after w.flights (serving e (k ∷ qs)) p in
      let is_owed = λ (i q : ℕ). owed-append i q before now in
      let put = λ (i : ℕ). copies-put_inbox i e (w.inbox k) in
      let box = λ (i q : ℕ). copies-update i w.inbox k q (put_inbox e (w.inbox k)) in
      record {
        ring_once = λ i. omega (arith, h.ring_once i, was_new i, is_new i);
        seen_once = λ i q. ground (
          arith,
          h.seen_once i q,
          was_new i,
          is_new i,
          was_owed i q,
          is_owed i q,
          put i,
          box i q,
        );
        number_fresh = λ i q le. ground (
          arith,
          h.number_fresh i q le,
          h.number_fresh i k le,
          was_new i,
          is_new i,
          was_owed i q,
          is_owed i q,
          was_owed i k,
          put i,
          box i q,
        );
        queue_fresh = λ i q le. ground (arith, h.queue_fresh i q le, was_owed i q, is_owed i q);
        registered_once = h.registered_once;
      }

  finish-IsOnce :
      (before after : List Flight) (e : Event)
      → w.flights ≡ before ++ serving e [] ∷ after
      → IsOnce (record w { flights = before ++ after })
  finish-IsOnce before after e p =
      let was_new = λ (i : ℕ). unpublished-split i before after w.flights (serving e []) p in
      let is_new = λ (i : ℕ). unpublished-append i before after in
      let was_owed = λ (i q : ℕ). owed-split i q before after w.flights (serving e []) p in
      let is_owed = λ (i q : ℕ). owed-append i q before after in
      record {
        ring_once = λ i. omega (arith, h.ring_once i, was_new i, is_new i);
        seen_once =
            λ i q. ground (arith, h.seen_once i q, was_new i, is_new i, was_owed i q, is_owed i q);
        number_fresh = λ i q le.
            ground (arith, h.number_fresh i q le, was_new i, is_new i, was_owed i q, is_owed i q);
        queue_fresh = λ i q le. ground (arith, h.queue_fresh i q le, was_owed i q, is_owed i q);
        registered_once = h.registered_once;
      }

  subscribe-IsOnce : IsOnce (record w {
    inbox =
        update w.inbox w.next_queue
          (record { waiting = prefill [] w.events; seen = prefill [] w.events });
    registered = w.registered ++ w.next_queue ∷ [];
    next_queue = w.next_queue + 1;
  })
  subscribe-IsOnce =
      let filled : Inbox = record { waiting = prefill [] w.events; seen = prefill [] w.events } in
      let fill = λ (i : ℕ). copies-prefill i [] w.events in
      let box = λ (i q : ℕ). copies-update i w.inbox w.next_queue q filled in
      let listed = λ (q : ℕ). times-append q w.registered (w.next_queue ∷ []) in
      record {
        ring_once = h.ring_once;
        seen_once = λ i q.
            ground (arith, h.seen_once i q, h.ring_once i, h.queue_fresh i q, fill i, box i q);
        number_fresh = λ i q le. ground (arith, h.number_fresh i q le, fill i, box i q);
        queue_fresh = λ i q le. ground (arith, h.queue_fresh i q, listed q);
        registered_once = λ q. ground (arith, h.registered_once q, h.queue_fresh 0 q, listed q);
      }

  take-IsOnce :
      (q : ℕ) (rest : List Event)
      → IsOnce (record w { inbox = update w.inbox q (record (w.inbox q) { waiting = rest }) })
  take-IsOnce k rest =
      let box = λ (i q : ℕ). copies-update i w.inbox k q (record (w.inbox k) { waiting = rest }) in
      record {
        ring_once = h.ring_once;
        seen_once = λ i q. ground (arith, h.seen_once i q, box i q);
        number_fresh = λ i q le. ground (arith, h.number_fresh i q le, box i q);
        queue_fresh = h.queue_fresh;
        registered_once = h.registered_once;
      }

  close-IsOnce : (q : ℕ) → IsOnce (record w { registered = unregister q w.registered })
  close-IsOnce k = record {
    ring_once = h.ring_once;
    seen_once = h.seen_once;
    number_fresh = h.number_fresh;
    queue_fresh = λ i q le. omega (arith, h.queue_fresh i q le, times-unregister q k w.registered);
    registered_once = λ q. omega (arith, h.registered_once q, times-unregister q k w.registered);
  }

Step-IsOnce : {w u : World} → IsOnce w → Step w u → IsOnce u
Step-IsOnce h (number e p) = number-IsOnce h e p
Step-IsOnce h (publish before after e p) = publish-IsOnce h before after e p
Step-IsOnce h (serve before after e q qs p) = serve-IsOnce h before after e q qs p
Step-IsOnce h (finish before after e p) = finish-IsOnce h before after e p
Step-IsOnce h subscribe = subscribe-IsOnce h
Step-IsOnce h (take q e rest p) = take-IsOnce h q rest
Step-IsOnce h (close q) = close-IsOnce h q

Reach-IsOnce : {w u : World} → IsOnce w → Reach w u → IsOnce u
Reach-IsOnce h here = h
Reach-IsOnce h (more r s) = Step-IsOnce (Reach-IsOnce h r) s

fresh-IsOnce : (maxlen : ℕ) → IsOnce (fresh maxlen)
unfolding fresh
fresh-IsOnce maxlen = record {
  ring_once = λ i. omega arith;
  seen_once = λ i q. omega arith;
  number_fresh = λ i q le. omega arith;
  queue_fresh = λ i q le. omega arith;
  registered_once = λ q. omega arith;
}

-- However emitters, subscribers and readers interleave, the ring holds no number twice, and no
-- queue was ever handed two events with one number.
pub delivered_once :
    (maxlen : ℕ) (w : World)
    → Reach (fresh maxlen) w
    → (i q : ℕ) → (copies i w.events ≤ 1) × (copies i (w.inbox q).seen ≤ 1)
delivered_once maxlen w r i q =
    let h = Reach-IsOnce (fresh-IsOnce maxlen) r in
    (omega (arith, h.ring_once i), omega (arith, h.seen_once i q))

-- ===== src/EventStore/Once/Counts.antt =====
-- How often an event stands in a list, in a queue's past or in the flights of `emit`.
use orchestrator_service.Prelude.{
  ℕ, zero, suc, ◌+◌, ◌-◌, ◌≤◌, ◌≡◌, Bool, List, [], ◌∷◌, ◌++◌, length, drop, if◌then◌else◌, ◌==◌,
  arith,
}
use orchestrator_service.EventStore.{Event, append_bounded, prefill}
use orchestrator_service.EventStore.Threads.{
  Flight, numbered, serving, Inbox, put_inbox, update, unregister,
}

abbrev pub one_if : Bool → ℕ
one_if b = if b then 1 else 0

-- How many events of the list have the number `i`.
abbrev pub copies : ℕ → List Event → ℕ
copies i [] = 0
copies i (e ∷ es) = one_if (e.id == i) + copies i es

abbrev pub times : ℕ → List ℕ → ℕ
times q [] = 0
times q (r ∷ rs) = one_if (r == q) + times q rs

-- How many flights have taken the number `i` and are not published.
abbrev pub unpublished_in : ℕ → Flight → ℕ
unpublished_in i (numbered e) = one_if (e.id == i)
unpublished_in i (serving e qs) = 0

abbrev pub unpublished : ℕ → List Flight → ℕ
unpublished i [] = 0
unpublished i (f ∷ fs) = unpublished_in i f + unpublished i fs

-- How often the flights are still to put the event `i` into the queue `q`.
abbrev pub owed_in : ℕ → ℕ → Flight → ℕ
owed_in i q (numbered e) = 0
owed_in i q (serving e qs) = if e.id == i then times q qs else 0

abbrev pub owed : ℕ → ℕ → List Flight → ℕ
owed i q [] = 0
owed i q (f ∷ fs) = owed_in i q f + owed i q fs

pub copies-append : (i : ℕ) (es fs : List Event) → copies i (es ++ fs) ≡ copies i es + copies i fs
copies-append i [] fs = omega arith
copies-append i (e ∷ es) fs = omega (arith, copies-append i es fs)

pub copies-drop : (i n : ℕ) (es : List Event) → copies i (drop n es) ≤ copies i es
copies-drop i zero es = omega arith
copies-drop i (suc n) [] = omega arith
copies-drop i (suc n) (e ∷ es) = omega (arith, copies-drop i n es)

pub copies-append_bounded :
    (i n : ℕ) (es : List Event) (e : Event)
    → copies i (append_bounded n es e) ≤ copies i es + one_if (e.id == i)
unfolding append_bounded
copies-append_bounded i n es e =
    omega
      (arith, copies-append i es (e ∷ []), copies-drop i (length (es ++ e ∷ []) - n) (es ++ e ∷ []))

pub copies-prefill :
    (i : ℕ) (q es : List Event) → copies i (prefill q es) ≤ copies i q + copies i es
unfolding prefill
copies-prefill i q [] = omega arith
copies-prefill i q (e ∷ es) =
    ground (arith, copies-prefill i (q ++ e ∷ []) es, copies-append i q (e ∷ []))

pub copies-put_inbox :
    (i : ℕ) (e : Event) (b : Inbox)
    → copies i (put_inbox e b).seen ≤ copies i b.seen + one_if (e.id == i)
unfolding put_inbox
copies-put_inbox i e b = ground (arith, copies-append i b.seen (e ∷ []))

pub times-append : (q : ℕ) (xs ys : List ℕ) → times q (xs ++ ys) ≡ times q xs + times q ys
times-append q [] ys = omega arith
times-append q (x ∷ xs) ys = omega (arith, times-append q xs ys)

pub times-unregister : (q r : ℕ) (xs : List ℕ) → times q (unregister r xs) ≤ times q xs
unfolding unregister
times-unregister q r [] = omega arith
times-unregister q r (x ∷ xs) = ground (arith, times-unregister q r xs)

pub unpublished-append :
    (i : ℕ) (fs gs : List Flight) → unpublished i (fs ++ gs) ≡ unpublished i fs + unpublished i gs
unpublished-append i [] gs = omega arith
unpublished-append i (f ∷ fs) gs = omega (arith, unpublished-append i fs gs)

pub owed-append : (i q : ℕ) (fs gs : List Flight) → owed i q (fs ++ gs) ≡ owed i q fs + owed i q gs
owed-append i q [] gs = omega arith
owed-append i q (f ∷ fs) gs = omega (arith, owed-append i q fs gs)

-- The same two counts with one flight taken out of the list.
pub unpublished-split :
    (i : ℕ) (before after flights : List Flight) (f : Flight)
    → flights ≡ before ++ f ∷ after
    → unpublished i flights ≡ unpublished i before + (unpublished_in i f + unpublished i after)
unpublished-split i before after flights f e = rw e (unpublished-append i before (f ∷ after))

pub owed-split :
    (i q : ℕ) (before after flights : List Flight) (f : Flight)
    → flights ≡ before ++ f ∷ after
    → owed i q flights ≡ owed i q before + (owed_in i q f + owed i q after)
owed-split i q before after flights f e = rw e (owed-append i q before (f ∷ after))

pub copies-update :
    (i : ℕ) (inbox : ℕ → Inbox) (q r : ℕ) (b : Inbox)
    → copies i (update inbox q b r).seen
      ≡ (if r == q then copies i b.seen else copies i (inbox r).seen)
unfolding update
copies-update i inbox q r b = ground arith

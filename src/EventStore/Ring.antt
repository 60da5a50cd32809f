-- ===== src/EventStore/Ring.antt =====
-- event_store.py: the ring holds the last `maxlen` events, in order, and `recent` a suffix of them.
use mathlib.Core.List.{append_assoc, append-nil}
use orchestrator_service.Prelude.{
  ℕ, zero, suc, ◌+◌, ◌-◌, ◌≤◌, min, Text, ◌≡◌, refl, sym, ◌∙◌, ap, List, [], ◌∷◌, ◌++◌, length,
  drop, arith, length-append, length-drop, ltb, Bool-cases, inl, inr,
}
use orchestrator_service.Json.{Fields}
use orchestrator_service.EventStore.{Event, EventStore, append_bounded, new, emit, recent}

-- xs[-n:] with 0 < n, the last n entries
abbrev pub last_of {ℓ} : {A : Type ℓ} → ℕ → List A → List A
last_of n xs = drop (length xs - n) xs

-- One call of `emit`: kind, data and time.
pub record Call : Type 0 where
  pub kind : Text
  pub body : Fields
  pub now : ℕ

unfoldable pub emit_all : List Call → EventStore → EventStore
emit_all [] s = s
emit_all (c ∷ cs) s = emit_all cs (emit c.kind c.body c.now s)

-- The events of the calls, numbered from `n`.
unfoldable pub numbered : ℕ → List Call → List Event
numbered n [] = []
numbered n (c ∷ cs) =
    (record { id = n; kind = c.kind; ts = c.now; body = c.body }) ∷ numbered (n + 1) cs

module _ {ℓ} {A : Type ℓ} where
  drop-append_le : (n : ℕ) (xs ys : List A) → n ≤ length xs → drop n (xs ++ ys) ≡ drop n xs ++ ys
  drop-append_le zero xs ys h = refl
  drop-append_le (suc n) [] ys h = absurd (omega arith)
  drop-append_le (suc n) (x ∷ xs) ys h = drop-append_le n xs ys (omega arith)

  drop-drop : (m n : ℕ) (xs : List A) → drop m (drop n xs) ≡ drop (n + m) xs
  drop-drop m zero xs = let e : 0 + m ≡ m = omega arith in rw e
  drop-drop m (suc n) [] = let e : suc n + m ≡ suc (n + m) = omega arith in rw e (drop-nil m)
    where
      drop-nil : (k : ℕ) → drop {A = A} k [] ≡ []
      drop-nil zero = refl
      drop-nil (suc k) = refl
  drop-drop m (suc n) (x ∷ xs) =
      let e : suc n + m ≡ suc (n + m) = omega arith in rw e (drop-drop m n xs)

  -- Appending to the last n entries, and dropping from the left again.
  append_bounded-last_of :
      (n : ℕ) (xs : List A) (x : A) → append_bounded n (last_of n xs) x ≡ last_of n (xs ++ x ∷ [])
  unfolding append_bounded
  append_bounded-last_of n xs x =
      let k = length xs - n in
      let joined : drop k xs ++ x ∷ [] ≡ drop k (xs ++ x ∷ []) =
        sym (drop-append_le k xs (x ∷ []) (omega arith)) in
      let sizes : k + (length (drop k (xs ++ x ∷ [])) - n) ≡ length (xs ++ x ∷ []) - n =
        omega (arith, length-append xs (x ∷ []), length-drop k (xs ++ x ∷ [])) in
      rw joined (drop-drop _ k (xs ++ x ∷ []) ∙ ap (λ j. drop j (xs ++ x ∷ [])) sizes)

-- Whatever was emitted into a store that held the last `maxlen` events of a history, it holds the
-- last `maxlen` events of the longer history.
events-emit_all :
    (cs : List Call) (past : List Event) (s : EventStore)
    → s.events ≡ last_of s.maxlen past
    → (emit_all cs s).events ≡ last_of s.maxlen (past ++ numbered s.counter cs)
unfolding emit_all numbered emit
events-emit_all [] past s h = rw append-nil h
events-emit_all (c ∷ cs) past s h =
    let e : Event = record { id = s.counter; kind = c.kind; ts = c.now; body = c.body } in
    events-emit_all cs (past ++ e ∷ []) (emit c.kind c.body c.now s)
      (rw h (append_bounded-last_of s.maxlen past e))
    ∙ ap (last_of s.maxlen) (append_assoc past (e ∷ []) (numbered (s.counter + 1) cs))

module _ {ℓ} {A : Type ℓ} where
  drop-all : (n : ℕ) (xs : List A) → length xs ≤ n → drop n xs ≡ []
  drop-all zero [] h = refl
  drop-all zero (x ∷ xs) h = absurd (omega arith)
  drop-all (suc n) [] h = refl
  drop-all (suc n) (x ∷ xs) h = drop-all n xs (omega arith)

  last_of-last_of : (m n : ℕ) (xs : List A) → last_of m (last_of n xs) ≡ last_of (min m n) xs
  last_of-last_of m n xs =
      drop-drop _ _ xs ∙ ap (λ k. drop k xs) (omega (arith, length-drop (length xs - n) xs))

recent-eq-last_of : (limit : ℕ) (s : EventStore) → recent limit s ≡ last_of limit s.events
unfolding recent
recent-eq-last_of zero s = sym (drop-all (length s.events - 0) s.events (omega arith))
recent-eq-last_of (suc n) s = elim (Bool-cases (ltb (suc n) (length s.events))) [
  | inl small ↦ rw small (ground arith)
  | inr large ↦ rw large (let e : length s.events - suc n ≡ 0 = ground arith in rw e (ground arith))
]

-- `recent` on a new store gives the last events of all that were emitted, oldest first: as many as
-- asked for and kept.
pub recent-emit_all :
    (maxlen limit : ℕ) (cs : List Call)
    → recent limit (emit_all cs (new maxlen)) ≡ last_of (min limit maxlen) (numbered 1 cs)
unfolding new
recent-emit_all maxlen limit cs =
    recent-eq-last_of limit (emit_all cs (new maxlen))
    ∙ ap (last_of limit)
        (events-emit_all cs [] (new maxlen) (sym (drop-all (0 - maxlen) [] (omega arith))))
    ∙ last_of-last_of limit maxlen (numbered 1 cs)

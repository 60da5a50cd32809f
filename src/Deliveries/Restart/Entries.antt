-- ===== src/Deliveries/Restart/Entries.antt =====
-- webhook_store.py: the entries of the store as a dict, and what sorting them keeps.
use orchestrator_service.Prelude.{
  ℕ, ◌-◌, ◌*◌, Text, false, ◌≡◌, refl, ap, ◌∙◌, inl, inr, some, List, [], ◌∷◌, length, ltb, leb,
  if◌then◌else◌, same, same_iff, is_empty, member, arith, All, Bool-cases,
}
use mathlib.Core.Path.{subst}
use orchestrator_service.Deliveries.Defs.{
  Delivery, ts_of, find, put, delete_all, place, sort, enforce_cap,
}

-- No event of the list has the id of this one.
abbrev pub IsNew : Delivery → List Delivery → Type 0
IsNew d = All (λ e. same e.delivery_id d.delivery_id ≡ false)

-- The entries of a dict: no two with one id.
abbrev pub AreDistinct : List Delivery → Type 0
AreDistinct [] = Unit {0}
AreDistinct (d ∷ ds) = IsNew d ds × AreDistinct ds

abbrev pub AreNamed : List Delivery → Type 0
AreNamed = All (λ d. is_empty d.delivery_id ≡ false)

-- No event is too old to keep.
abbrev pub AreYoung : ℕ → List Delivery → Type 0
AreYoung now = All (λ d. ltb (ts_of d) (now - 30 * 86400) ≡ false)

module _ (Holds : Delivery → Type 0) where
  All-place : (d : Delivery) (es : List Delivery) → Holds d → All Holds es → All Holds (place d es)
  unfolding place
  All-place d [] h hs = (h, tt)
  All-place d (e ∷ es) h (k, ks) = elim (Bool-cases (leb (ts_of d) (ts_of e))) [
    | inl t ↦ rw (t, place) (h, (k, ks))
    | inr t ↦ rw (t, place) (k, All-place d es h ks)
  ]

  pub All-sort : (ds : List Delivery) → All Holds ds → All Holds (sort ds)
  unfolding sort
  All-sort [] h = h
  All-sort (d ∷ ds) (h, hs) = All-place d (sort ds) h (All-sort ds hs)

  pub All-put : (d : Delivery) (es : List Delivery) → Holds d → All Holds es → All Holds (put d es)
  unfolding put
  All-put d [] h hs = (h, tt)
  All-put d (e ∷ es) h (k, ks) = elim (Bool-cases (same e.delivery_id d.delivery_id)) [
    | inl t ↦ rw (t, put) (h, ks)
    | inr t ↦ rw (t, put) (k, All-put d es h ks)
  ]

  pub All-delete_all :
      (ids : List Text) (ds : List Delivery) → All Holds ds → All Holds (delete_all ids ds)
  unfolding delete_all
  All-delete_all ids [] h = h
  All-delete_all ids (d ∷ ds) (h, hs) = elim (Bool-cases (member d.delivery_id ids)) [
    | inl t ↦ rw (t, delete_all) (All-delete_all ids ds hs)
    | inr t ↦ rw (t, delete_all) (h, All-delete_all ids ds hs)
  ]

  pub All-enforce_cap :
      (max_events : ℕ) (ds : List Delivery) → All Holds ds → All Holds (enforce_cap max_events ds)
  unfolding enforce_cap
  All-enforce_cap max_events ds h = elim (Bool-cases (leb (length ds) max_events)) [
    | inl t ↦ rw (t, enforce_cap) h
    | inr t ↦ rw (t, enforce_cap) (All-delete_all _ ds h)
  ]

pub same_sym : (s t : Text) → same s t ≡ false → same t s ≡ false
same_sym s t h = ground (arith, same_iff s t, same_iff t s)

place-AreDistinct :
    (d : Delivery) (es : List Delivery) → IsNew d es → AreDistinct es → AreDistinct (place d es)
unfolding place
place-AreDistinct d [] new distinct = (tt, tt)
place-AreDistinct d (e ∷ es) (ne, new) (fresh, distinct) =
    elim (Bool-cases (leb (ts_of d) (ts_of e))) [
      | inl t ↦ rw (t, place) ((ne, new), (fresh, distinct))
      | inr t ↦
          let other = same_sym e.delivery_id d.delivery_id ne in
          rw (t, place)
            (
              All-place (λ x. same x.delivery_id e.delivery_id ≡ false) d es other fresh,
              place-AreDistinct d es new distinct,
            )
    ]

pub sort-AreDistinct : (ds : List Delivery) → AreDistinct ds → AreDistinct (sort ds)
unfolding sort
sort-AreDistinct [] h = h
sort-AreDistinct (d ∷ ds) (new, distinct) =
    place-AreDistinct d (sort ds) (All-sort (λ e. same e.delivery_id d.delivery_id ≡ false) ds new)
      (sort-AreDistinct ds distinct)

-- An event that is new to the list is found wherever it is placed, and hides no other.
find-place :
    (d : Delivery) (j : Text) (es : List Delivery)
    → IsNew d es
    → find j (place d es) ≡ (if same d.delivery_id j then some d else find j es)
unfolding find place
find-place d j [] new = refl
find-place d j (e ∷ es) (ne, new) = ground (
  arith,
  find-place d j es new,
  same_iff d.delivery_id j,
  same_iff e.delivery_id j,
  same_iff e.delivery_id d.delivery_id,
)

pub find-sort : (j : Text) (ds : List Delivery) → AreDistinct ds → find j (sort ds) ≡ find j ds
unfolding find sort
find-sort j [] h = refl
find-sort j (d ∷ ds) (new, distinct) =
    let fresh = All-sort (λ e. same e.delivery_id d.delivery_id ≡ false) ds new in
    find-place d j (sort ds) fresh
    ∙ ap (λ found. if same d.delivery_id j then some d else found) (find-sort j ds distinct)

pub put-AreDistinct : (d : Delivery) (es : List Delivery) → AreDistinct es → AreDistinct (put d es)
unfolding put
put-AreDistinct d [] distinct = (tt, tt)
put-AreDistinct d (e ∷ es) (new, distinct) = elim (Bool-cases (same e.delivery_id d.delivery_id)) [
  | inl t ↦
      let is : e.delivery_id ≡ d.delivery_id = (same_iff e.delivery_id d.delivery_id).0 t in
      rw (t, put) (subst (λ id. All (λ x. same x.delivery_id id ≡ false) es) is new, distinct)
  | inr t ↦
      rw (t, put)
        (
          All-put (λ x. same x.delivery_id e.delivery_id ≡ false) d es
              (same_sym e.delivery_id d.delivery_id t) new,
          put-AreDistinct d es distinct,
        )
]

pub delete_all-AreDistinct :
    (ids : List Text) (ds : List Delivery) → AreDistinct ds → AreDistinct (delete_all ids ds)
unfolding delete_all
delete_all-AreDistinct ids [] h = h
delete_all-AreDistinct ids (d ∷ ds) (new, distinct) = elim (Bool-cases (member d.delivery_id ids)) [
  | inl t ↦ rw (t, delete_all) (delete_all-AreDistinct ids ds distinct)
  | inr t ↦
      rw (t, delete_all)
        (
          All-delete_all (λ x. same x.delivery_id d.delivery_id ≡ false) ids ds new,
          delete_all-AreDistinct ids ds distinct,
        )
]

pub enforce_cap-AreDistinct :
    (max_events : ℕ) (ds : List Delivery) → AreDistinct ds → AreDistinct (enforce_cap max_events ds)
unfolding enforce_cap
enforce_cap-AreDistinct max_events ds h = elim (Bool-cases (leb (length ds) max_events)) [
  | inl t ↦ rw (t, enforce_cap) h
  | inr t ↦ rw (t, enforce_cap) (delete_all-AreDistinct _ ds h)
]

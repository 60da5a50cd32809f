-- ===== src/Deliveries/Restart.antt =====
-- webhook_store.py: what a store that is opened anew finds in the file of the one before.
mod Entries
use orchestrator_service.Prelude.{
  ℕ, ◌-◌, ◌*◌, ◌≤◌, Text, Bool, true, false, not, ◌≡◌, refl, sym, ap, ◌∙◌, inl, inr, Option, none,
  some, List, [], ◌∷◌, ◌++◌, map, length, take, ltb, leb, if◌then◌else◌, same, same_iff, is_empty,
  member, arith, Dict, All, All-append, Bool-cases, Option-cases,
}
use mathlib.Core.List.{append_assoc, append-nil}
use orchestrator_service.Json.{Json}
use orchestrator_service.Deliveries.Defs.{
  Delivery, WebhookStore, ts_of, ids_of, find, put, delete_all, place, sort, enforce_cap, persist,
  update_fields, new_delivery, current, record_event, stale_ids, cleanup_old, load_all, load,
  open_store,
}
use orchestrator_service.Deliveries.Cap.{length-sort, length-enforce_cap, persist-events}
use orchestrator_service.Deliveries.Recording.{id_of-current}
use orchestrator_service.Deliveries.Restart.Entries.{
  IsNew, AreDistinct, AreNamed, AreYoung, All-sort, All-put, All-delete_all, All-enforce_cap,
  same_sym, sort-AreDistinct, find-sort, put-AreDistinct, enforce_cap-AreDistinct,
}

put-new : (d : Delivery) (es : List Delivery) → IsNew d es → put d es ≡ es ++ d ∷ []
unfolding put
put-new d [] new = refl
put-new d (e ∷ es) (ne, new) = rw ne (ap (λ l. e ∷ l) (put-new d es new))

-- What is new to a list and to one more event.
IsNew-append :
    (d : Delivery) (loaded ds : List Delivery)
    → IsNew d ds
    → All (λ x. IsNew x loaded) ds
    → All (λ x. IsNew x (loaded ++ d ∷ [])) ds
IsNew-append d loaded [] new h = tt
IsNew-append d loaded (e ∷ ds) (ne, new) (h, hs) = (
  All-append (λ x. same x.delivery_id e.delivery_id ≡ false) loaded (d ∷ []) h
      (same_sym e.delivery_id d.delivery_id ne, tt),
  IsNew-append d loaded ds new hs,
)

-- The file of a dict loads to its entries, in their order.
load_all-append :
    (ds loaded : List Delivery)
    → AreDistinct ds
    → AreNamed ds
    → All (λ x. IsNew x loaded) ds
    → load_all ds loaded ≡ loaded ++ ds
unfolding load_all
load_all-append [] loaded distinct named new = sym (append-nil loaded)
load_all-append (d ∷ ds) loaded (fresh, distinct) (name, named) (new, rest) =
    rw (name, put-new d loaded new)
      (load_all-append ds (loaded ++ d ∷ []) distinct named (IsNew-append d loaded ds fresh rest)
        ∙ append_assoc loaded (d ∷ []) ds)

all-IsNew : (ds : List Delivery) → All (λ x. IsNew x []) ds
all-IsNew [] = tt
all-IsNew (d ∷ ds) = (tt, all-IsNew ds)

load-sort : (es : List Delivery) → AreDistinct es → AreNamed es → load (some (sort es)) ≡ sort es
unfolding load
load-sort es distinct named =
    load_all-append (sort es) [] (sort-AreDistinct es distinct)
      (All-sort (λ d. is_empty d.delivery_id ≡ false) es named) (all-IsNew (sort es))

-- A store whose file holds its events: a dict, with an id for each, within the cap.
pub record IsKept (s : WebhookStore) : Type 0 where
  pub distinct : AreDistinct s.events
  pub named : AreNamed s.events
  pub fits : length s.events ≤ s.max_events
  pub saved : load s.file ≡ sort s.events

-- What a record leaves in a store that can write its file.
record_event-IsKept :
    (id : Text) (fields : Dict Json) (now : ℕ) (s : WebhookStore)
    → s.writable ≡ true
    → is_empty id ≡ false
    → IsKept s
    → IsKept (record_event id fields now s)
unfolding record_event persist
record_event-IsKept id fields now s writes given kept =
    let old = current id now s.events in
    let d : Delivery = record old { fields = update_fields fields old.fields } in
    let events = enforce_cap s.max_events (put d s.events) in
    let name : is_empty d.delivery_id ≡ false = rw (id_of-current id now s.events) given in
    let distinct =
      enforce_cap-AreDistinct s.max_events (put d s.events)
        (put-AreDistinct d s.events kept.distinct) in
    let named =
      All-enforce_cap (λ e. is_empty e.delivery_id ≡ false) s.max_events (put d s.events)
        (All-put (λ e. is_empty e.delivery_id ≡ false) d s.events name kept.named) in
    rw writes (record {
      distinct = distinct;
      named = named;
      fits = length-enforce_cap s.max_events (put d s.events);
      saved = load-sort events distinct named;
    })

-- One record after another.
pub record Arrival : Type 0 where
  pub delivery_id : Text
  pub fields : Dict Json
  pub now : ℕ

abbrev pub record_all : List Arrival → WebhookStore → WebhookStore
record_all [] s = s
record_all (c ∷ cs) s = record_all cs (record_event c.delivery_id c.fields c.now s)

record_event-frame :
    (id : Text) (fields : Dict Json) (now : ℕ) (s : WebhookStore)
    → ((record_event id fields now s).writable ≡ s.writable)
      × ((record_event id fields now s).max_events ≡ s.max_events)
unfolding record_event persist
record_event-frame id fields now s = ground arith

record_all-IsKept :
    (cs : List Arrival) (s : WebhookStore)
    → s.writable ≡ true
    → All (λ c. is_empty c.delivery_id ≡ false) cs
    → IsKept s
    → IsKept (record_all cs s)
record_all-IsKept [] s writes given kept = kept
record_all-IsKept (c ∷ cs) s writes (name, given) kept =
    let t = record_event c.delivery_id c.fields c.now s in
    record_all-IsKept cs t ((record_event-frame c.delivery_id c.fields c.now s).0 ∙ writes) given
      (record_event-IsKept c.delivery_id c.fields c.now s writes name kept)

delete_none : (ds : List Delivery) → delete_all [] ds ≡ ds
unfolding delete_all member
delete_none [] = refl
delete_none (d ∷ ds) = ap (λ l. d ∷ l) (delete_none ds)

stale_ids-young :
    (now : ℕ) (ds : List Delivery) → AreYoung now ds → stale_ids (now - 30 * 86400) ds ≡ []
unfolding stale_ids
stale_ids-young now [] h = refl
stale_ids-young now (d ∷ ds) (h, hs) = rw h (stale_ids-young now ds hs)

-- With no event too old, a cleanup keeps them all.
cleanup_old-events :
    (now : ℕ) (s : WebhookStore)
    → AreYoung now s.events
    → (cleanup_old 30 now s).1.events ≡ s.events
unfolding cleanup_old
cleanup_old-events now s young = rw (stale_ids-young now s.events young) refl

enforce_cap-fits :
    (max_events : ℕ) (ds : List Delivery) → length ds ≤ max_events → enforce_cap max_events ds ≡ ds
unfolding enforce_cap
enforce_cap-fits max_events ds fits = ground arith

events-open_store :
    (max_events : ℕ) (file : Option (List Delivery)) (writable : Bool) (now : ℕ)
    (ds : List Delivery)
    → load file ≡ ds
    → length ds ≤ max_events
    → AreYoung now ds
    → (open_store max_events file writable now).events ≡ ds
unfolding open_store cleanup_old
events-open_store max_events file writable now ds read fits young =
    let whole : enforce_cap max_events (load file) ≡ ds =
      ap (enforce_cap max_events) read ∙ enforce_cap-fits max_events ds fits in
    let s : WebhookStore = record {
      max_events = max_events;
      events = ds;
      file = file;
      writable = writable;
    } in
    rw whole (elim (Bool-cases (is_empty ds)) [
      | inl e ↦ rw e (cleanup_old-events now s young)
      | inr e ↦
          let kept : AreYoung now (persist s).events = rw (persist-events s) young in
          rw e (cleanup_old-events now (persist s) kept ∙ persist-events s)
    ])

-- A store that is opened anew, on the file of one that could write it and into which any deliveries
-- with an id were recorded, finds under each id what that one held, whatever was merged or evicted
-- meanwhile, if none of its events is older than 30 days.
pub find-open_store :
    (cs : List Arrival) (s : WebhookStore) (writable : Bool) (now : ℕ) (j : Text)
    → IsKept s
    → s.writable ≡ true
    → All (λ c. is_empty c.delivery_id ≡ false) cs
    → AreYoung now (record_all cs s).events
    → find j (open_store (record_all cs s).max_events (record_all cs s).file writable now).events
      ≡ find j (record_all cs s).events
find-open_store cs s writable now j kept writes given young =
    let t = record_all cs s in
    let last = record_all-IsKept cs s writes given kept in
    let sorted =
      events-open_store t.max_events t.file writable now (sort t.events) last.saved
        (rw (length-sort t.events) last.fits)
        (All-sort (λ d. ltb (ts_of d) (now - 30 * 86400) ≡ false) t.events young) in
    ap (find j) sorted ∙ find-sort j t.events last.distinct

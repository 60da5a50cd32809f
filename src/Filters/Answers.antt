-- ===== src/Filters/Answers.antt =====
-- filters.py: the payloads for which the gate answers and does not raise.
use orchestrator_service.Prelude.{
  member, Text, codes, Bool, true, false, ◌≡◌, ◌⊎◌, inl, inr, List, [], ◌∷◌, refl, arith, not,
  Bool-cases, lower, if◌then◌else◌,
}
use orchestrator_service.Json.{
  Json, null, arr, obj, Py, ok, ◌>>=◌, get, or_else, is_dict, truthy, empty_obj, empty_arr, iterate,
}
use orchestrator_service.Filters.{
  event_allow, action_allow, event_not_dispatched, action_not_dispatched, bot_actor,
  label_not_relevant, Reason, is_bot_actor, is_workflow_label, action_of, text_under, sender_of,
  label_of, label_names, issue_labels_of, gate_event, gate_actor, should_dispatch,
}

-- A computation that returns, with its result.
abbrev Returns {ℓ} : {A : Type ℓ} → Py A → Type ℓ
Returns {A} m = (a : A) × (m ≡ ok a)

bind-Returns {ℓ κ} :
    {A : Type ℓ} {B : Type κ} (m : Py A) (f : A → Py B)
    → Returns m
    → ((a : A) → Returns (f a))
    → Returns (m >>= f)
bind-Returns m f (a, e) h = rw e (h a)

if-Returns {ℓ} :
    {A : Type ℓ} (b : Bool) (a : A) (n : Py A) → Returns n → Returns (if b then ok a else n)
if-Returns true a n hn = (a, refl)
if-Returns false a n hn = hn

-- A part of a payload that is a dict, or falsy.
abbrev pub IsDictOrFalsy : Json → Type 0
IsDictOrFalsy v = (is_dict v ≡ true) ⊎ (truthy v ≡ false)

abbrev pub is_arr : Json → Bool
is_arr (arr vs) = true
is_arr _ = false

-- A part that is a list, or falsy.
abbrev pub IsListOrFalsy : Json → Type 0
IsListOrFalsy v = (is_arr v ≡ true) ⊎ (truthy v ≡ false)

or_else-is_dict : (v : Json) → IsDictOrFalsy v → is_dict (or_else v empty_obj) ≡ true
unfolding or_else is_dict
or_else-is_dict v (inl d) = ground arith
or_else-is_dict v (inr f) = rw f

or_else-is_arr : (v : Json) → IsListOrFalsy v → is_arr (or_else v empty_arr) ≡ true
unfolding or_else
or_else-is_arr v (inl d) = ground arith
or_else-is_arr v (inr f) = rw f

dict_get-Returns : (v : Json) (k : Text) → is_dict v ≡ true → Returns (get v k)
unfolding get is_dict
dict_get-Returns (obj fs) k h = (_, refl)
dict_get-Returns null k h = cc
dict_get-Returns _ k h = cc

get-Returns : (v : Json) (k : Text) → IsDictOrFalsy v → Returns (get (or_else v empty_obj) k)
get-Returns v k h = dict_get-Returns (or_else v empty_obj) k (or_else-is_dict v h)

arr_iterate-Returns : (v : Json) → is_arr v ≡ true → Returns (iterate v)
unfolding iterate
arr_iterate-Returns (arr vs) h = (_, refl)
arr_iterate-Returns null h = cc
arr_iterate-Returns _ h = cc

-- The payload that the gate reads: a dict whose parts are dicts or falsy, and the issue's labels.
pub record IsReadable (payload : Json) : Type 0 where
  pub dict : is_dict payload ≡ true
  pub sender : Json
  pub label : Json
  pub issue : Json
  pub labels : Json
  pub has_sender : get payload (codes "sender") ≡ ok sender
  pub sender_fits : IsDictOrFalsy sender
  pub has_label : get payload (codes "label") ≡ ok label
  pub label_fits : IsDictOrFalsy label
  pub has_issue : get payload (codes "issue") ≡ ok issue
  pub has_labels : get (or_else issue empty_obj) (codes "labels") ≡ ok labels
  pub labels_fit : IsListOrFalsy labels

module _ (repr : Json → Text) where
  action_of-Returns : (payload : Json) → is_dict payload ≡ true → Returns (action_of repr payload)
  unfolding action_of
  action_of-Returns payload d =
      bind-Returns _ _ (get-Returns payload (codes "action") (inl d)) (λ a. (_, refl))

  text_under-Returns :
      (outer inner : Text) (payload part : Json)
      → get payload outer ≡ ok part
      → IsDictOrFalsy part
      → Returns (text_under repr outer inner payload)
  unfolding text_under
  text_under-Returns outer inner payload part e h =
      rw e (bind-Returns _ _ (get-Returns part inner h) (λ a. (_, refl)))

  label_names-Returns : (vs : List Json) → Returns (label_names repr vs)
  unfolding label_names
  label_names-Returns [] = (_, refl)
  label_names-Returns (v ∷ vs) = elim (Bool-cases (is_dict v)) [
    | inl d ↦ rw d (
        bind-Returns _ _ (dict_get-Returns v (codes "name") d)
          (λ n. bind-Returns _ _ (label_names-Returns vs) (λ ns. (_, refl))))
    | inr d ↦ rw d (label_names-Returns vs)
  ]

  issue_labels_of-Returns :
      (payload issue labels : Json)
      → get payload (codes "issue") ≡ ok issue
      → get (or_else issue empty_obj) (codes "labels") ≡ ok labels
      → IsListOrFalsy labels
      → Returns (issue_labels_of repr payload)
  unfolding issue_labels_of
  issue_labels_of-Returns payload issue labels e f h = rw e (
      rw f (
        bind-Returns _ _ (arr_iterate-Returns (or_else labels empty_arr) (or_else-is_arr labels h))
          (λ vs. label_names-Returns vs)))

  gate_actor-Returns :
      (raw : Text) (payload : Json) → IsReadable payload → Returns (gate_actor repr raw payload)
  unfolding gate_actor sender_of label_of
  gate_actor-Returns raw payload r =
      bind-Returns _ _ (text_under-Returns _ _ payload r.sender r.has_sender r.sender_fits)
        (λ sender.
          if-Returns (is_bot_actor sender) (false, bot_actor sender) _
            (bind-Returns _ _ (text_under-Returns _ _ payload r.label r.has_label r.label_fits)
              (λ label.
                if-Returns (not (is_workflow_label label)) (false, label_not_relevant label) _
                  (bind-Returns _ _
                    (issue_labels_of-Returns payload r.issue r.labels r.has_issue r.has_labels
                      r.labels_fit)
                    (λ labels. (_, refl))))))

  -- The gate answers, and raises nothing, for every payload that is a dict whose sender and label
  -- are dicts or falsy and whose issue has a list of labels or a falsy value there.
  pub should_dispatch_answers :
      (raw event : Text) (payload : Json)
      → IsReadable payload
      → (verdict : Bool × Reason) × (should_dispatch repr raw event payload ≡ ok verdict)
  unfolding should_dispatch gate_event
  should_dispatch_answers raw event payload r =
      bind-Returns (action_of repr payload)
        (λ action. gate_event repr raw (lower event) action payload)
        (action_of-Returns payload r.dict)
        (λ action.
          if-Returns (not (member (lower event) event_allow))
            (false, event_not_dispatched (lower event)) _
            (if-Returns (not (member action action_allow))
              (false, action_not_dispatched (lower event) action) _
              (gate_actor-Returns raw payload r)))

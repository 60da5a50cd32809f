-- ===== src/Beads/Select.antt =====
-- beads_loop.py, _get_next_bead: the bead that is taken next, from what bvr and br print.
use orchestrator_service.Prelude.{
  ℕ, ◌≤◌, ◌<◌, Text, codes, Bool, false, Option, none, some, ◌≡◌, refl, ap, ◌⊎◌, inl, inr, List, [],
  ◌∷◌, ◌++◌, All, is_empty, ltb, strip, same, ◌||◌, if◌then◌else◌, arith, Bool-cases,
}
use orchestrator_service.Json.{
  Json, null, num, arr, cons, obj, Fields, end, field, Py, ok, ◌>>=◌, get_or, find_field, is_dict,
  empty_arr, iterate,
}

-- How a command ends: it is not installed, it fails, or it prints a text.
pub data Printed : Type 0 where
  missing failed : Printed
  printed : Text → Printed

-- data.get(key) of a dict
unfoldable pub field_of : Text → Json → Json
unfolding find_field
field_of key (obj fs) = find_field key null fs
field_of key _ = null

has_field : Text → Fields → Bool
has_field key end = false
has_field key (field k v fs) = same k key || has_field key fs

-- isinstance(v, dict) and key in v
unfoldable pub has_key : Text → Json → Bool
unfolding has_field
has_key key (obj fs) = has_field key fs
has_key key _ = false

-- The loop over the names under which a bead may stand.
unfoldable pub nested_bead : List Text → Json → Option Json
unfolding field_of has_key
nested_bead [] value = none
nested_bead (key ∷ names) value =
    let later = nested_bead names value in
    if has_key (codes "id") (field_of key value) then some (field_of key value) else later

unfoldable pub first_issue : Json → Option Json
unfolding is_dict
first_issue (arr (cons v vs)) = if is_dict v then some v else none
first_issue _ = none

bead_names : List Text
bead_names = codes "bead" ∷ codes "recommendation" ∷ codes "issue" ∷ codes "next" ∷ []

unfoldable pub extract_bead : Json → Option Json
unfolding nested_bead first_issue bead_names
extract_bead value =
    if is_dict value
    then elim (nested_bead bead_names value) [
      | some bead ↦ some bead
      | none ↦
          if has_key (codes "id") value
          then some value
          else first_issue (field_of (codes "issues") value)
    ]
    else none

-- b.get("priority", 999), for a bead that is a dict
unfoldable pub priority_of : Json → Json
unfolding find_field
priority_of (obj fs) = find_field (codes "priority") (num 999) fs
priority_of _ = num 999

unfoldable pub dicts_in : List Json → List Json
dicts_in [] = []
dicts_in (v ∷ vs) = let rest = dicts_in vs in if is_dict v then v ∷ rest else rest

-- issues = data.get("issues", data.get("beads", []))
unfoldable pub issues_of : Json → Py Json
issues_of (obj fs) = do
  beads ← get_or (obj fs) (codes "beads") empty_arr
  get_or (obj fs) (codes "issues") beads
issues_of (arr vs) = ok (arr vs)
issues_of _ = ok empty_arr

-- `parse` is json.loads with none for a JSONDecodeError, `less` is Python's `<` on two priorities.
module _ (parse : Text → Option Json) (less : Json → Json → Py Bool) where
  -- The JSON value in a command's output, if there is one.
  unfoldable pub parsed_output : Printed → Option Json
  parsed_output (printed t) = if is_empty (strip t) then none else parse (strip t)
  parsed_output _ = none

  unfoldable pub get_next_bead_bvr : Printed → Option Json
  unfolding parsed_output extract_bead
  get_next_bead_bvr out = elim (parsed_output out) [ none ↦ none | some value ↦ extract_bead value ]

  unfoldable pub get_ready_beads : Printed → Py (List Json)
  unfolding parsed_output issues_of dicts_in
  get_ready_beads out = elim (parsed_output out) [
    | none ↦ ok []
    | some value ↦ (do issues ← issues_of value; entries ← iterate issues; ok (dicts_in entries))
  ]

  -- min(...) goes on with a later bead only if its priority is less.
  unfoldable pub min_from : Json → List Json → Py Json
  unfolding priority_of
  min_from best [] = ok best
  min_from best (b ∷ bs) =
      let from_b = min_from b bs in
      let from_best = min_from best bs in
      less (priority_of b) (priority_of best) >>= (λ smaller. if smaller then from_b else from_best)

  unfoldable pub select_next_bead : List Json → Py (Option Json)
  unfolding min_from
  select_next_bead [] = ok none
  select_next_bead (b ∷ bs) = min_from b bs >>= (λ best. ok (some best))

  unfoldable pub get_next_bead : Printed → Printed → Py (Option Json)
  unfolding get_next_bead_bvr get_ready_beads select_next_bead
  get_next_bead bvr ready = elim (get_next_bead_bvr bvr) [
    | some bead ↦ ok (some bead)
    | none ↦ get_ready_beads ready >>= select_next_bead
  ]

-- The number that is a bead's priority.
abbrev pub rank : Json → ℕ
rank v = elim (priority_of v) [ num n ↦ n | _ ↦ 0 ]

abbrev pub IsRanked : Json → Type 0
IsRanked v = priority_of v ≡ num (rank v)

-- The bead stands in the list, before it only beads of greater numbers, behind it of no smaller ones.
pub record IsFirstLeast (b : Json) (bs : List Json) : Type 0 where
  pub before : List Json
  pub after : List Json
  pub stands : bs ≡ before ++ b ∷ after
  pub first : All (λ c. rank b < rank c) before
  pub least : All (λ c. rank b ≤ rank c) after

module _ (parse : Text → Option Json) (less : Json → Json → Py Bool)
    (less_on_numbers : (m n : ℕ) → less (num m) (num n) ≡ ok (ltb m n)) where
  -- What the rest of the beads makes of the best one so far.
  Outcome : Json → List Json → Json → Type 0
  Outcome best bs b =
      ((b ≡ best) × All (λ c. rank best ≤ rank c) bs) ⊎ ((rank b < rank best) × IsFirstLeast b bs)

  push-IsFirstLeast :
      (b c : Json) (bs : List Json) → rank b < rank c → IsFirstLeast b bs → IsFirstLeast b (c ∷ bs)
  push-IsFirstLeast b c bs lt f = record {
    before = c ∷ f.before;
    after = f.after;
    stands = ap (λ t. c ∷ t) f.stands;
    first = (lt, f.first);
    least = f.least;
  }

  min_from-Outcome :
      (best : Json) (bs : List Json)
      → IsRanked best
      → All IsRanked bs
      → (b : Json) × (min_from parse less best bs ≡ ok b) × Outcome best bs b
  unfolding min_from Outcome
  min_from-Outcome best [] h hs = (best, refl, inl (refl, tt))
  min_from-Outcome best (c ∷ bs) h (hc, hs) = elim (Bool-cases (ltb (rank c) (rank best))) [
    | inl e ↦
        let lt : rank c < rank best = ground arith in
        let (b, ran, why) = min_from-Outcome c bs hc hs in
        (
          b,
          rw (hc, h, less_on_numbers (rank c) (rank best), e) ran,
          inr (elim why [
            | inl (is, least) ↦
                rw is
                  (lt, record { before = []; after = bs; stands = refl; first = tt; least = least })
            | inr (l, f) ↦ (omega arith, push-IsFirstLeast b c bs l f)
          ]),
        )
    | inr e ↦
        let le : rank best ≤ rank c = ground arith in
        let (b, ran, why) = min_from-Outcome best bs h hs in
        (
          b,
          rw (hc, h, less_on_numbers (rank c) (rank best), e) ran,
          elim why [
            | inl (is, least) ↦ inl (is, (le, least))
            | inr (l, f) ↦ inr (l, push-IsFirstLeast b c bs (omega arith) f)
          ],
        )
  ]

  -- Of ready beads whose priorities are numbers, one at least, the one that is selected has the
  -- least number, and is the first in the list that has it.
  pub select_next_bead-IsFirstLeast :
      (c : Json) (cs : List Json)
      → All IsRanked (c ∷ cs)
      → (b : Json) × (select_next_bead parse less (c ∷ cs) ≡ ok (some b)) × IsFirstLeast b (c ∷ cs)
  unfolding select_next_bead Outcome
  select_next_bead-IsFirstLeast c cs (h, hs) =
      let (b, ran, why) = min_from-Outcome c cs h hs in
      (
        b,
        rw ran refl,
        elim why [
          | inl (is, least) ↦
              rw is (record { before = []; after = cs; stands = refl; first = tt; least = least })
          | inr (l, f) ↦ push-IsFirstLeast b c cs l f
        ],
      )

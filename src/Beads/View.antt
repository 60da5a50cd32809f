-- ===== src/Beads/View.antt =====
-- beads_loop.py, state_for_project: the state of one project, by the ids that the project itself uses.
use orchestrator_service.Prelude.{
  ℕ, Text, true, false, ◌≡◌, refl, ap, ◌∙◌, List, [], ◌∷◌, ◌++◌, length, drop, arith, member, same,
  starts_with, Dict, lookup, if◌then◌else◌,
}
use orchestrator_service.Beads.State.{Retry, LoopState, key_of}

pub record ProjectState : Type 0 where
  pub active : List Text
  pub halted : List Text
  pub retry : Dict Retry
  pub start_times : Dict ℕ

-- f"{project_slug}:"
unfoldable pub prefix_of : Text → Text
prefix_of slug = slug ++ b':' ∷ []

-- {k[plen:] for k in keys if k.startswith(prefix)}
unfoldable pub ids_under : Text → List Text → List Text
ids_under prefix [] = []
ids_under prefix (k ∷ ks) =
    let rest = ids_under prefix ks in
    if starts_with prefix k then drop (length prefix) k ∷ rest else rest

-- {k[plen:]: v for k, v in d.items() if k.startswith(prefix)}
unfoldable pub entries_under {ℓ} : {A : Type ℓ} → Text → Dict A → Dict A
entries_under prefix [] = []
entries_under prefix ((k, v) ∷ d) =
    let rest = entries_under prefix d in
    if starts_with prefix k then (drop (length prefix) k, v) ∷ rest else rest

unfoldable pub state_for_project : Text → LoopState → ProjectState
unfolding prefix_of ids_under entries_under
state_for_project slug s =
    let prefix = prefix_of slug in
    record {
      active = ids_under prefix s.active_beads;
      halted = ids_under prefix s.halted_beads;
      retry = entries_under prefix s.retry_state;
      start_times = entries_under prefix s.bead_start_times;
    }

same-drop :
    (prefix id k : Text)
    → starts_with prefix k ≡ true
    → same (drop (length prefix) k) id ≡ same k (prefix ++ id)
unfolding starts_with same
same-drop [] id k h = refl
same-drop (p ∷ ps) id [] h = cc
same-drop (p ∷ ps) id (c ∷ k) h = ground (arith, same-drop ps id k)

same-foreign : (prefix id k : Text) → starts_with prefix k ≡ false → same k (prefix ++ id) ≡ false
unfolding starts_with same
same-foreign [] id k h = cc
same-foreign (p ∷ ps) id [] h = refl
same-foreign (p ∷ ps) id (c ∷ k) h = ground (arith, same-foreign ps id k)

same_comm : (s t : Text) → same s t ≡ same t s
unfolding same
same_comm [] [] = refl
same_comm [] (b ∷ t) = refl
same_comm (a ∷ s) [] = refl
same_comm (a ∷ s) (b ∷ t) = ground (arith, same_comm s t)

member-ids_under :
    (prefix id : Text) (ks : List Text) → member id (ids_under prefix ks) ≡ member (prefix ++ id) ks
unfolding ids_under member
member-ids_under prefix id [] = refl
member-ids_under prefix id (k ∷ ks) = ground (
  arith,
  member-ids_under prefix id ks,
  same-drop prefix id k,
  same-foreign prefix id k,
  same_comm id (drop (length prefix) k),
  same_comm (prefix ++ id) k,
)

lookup-entries_under {ℓ} :
    {A : Type ℓ} (prefix id : Text) (d : Dict A)
    → lookup id (entries_under prefix d) ≡ lookup (prefix ++ id) d
unfolding entries_under lookup
lookup-entries_under prefix id [] = refl
lookup-entries_under prefix id ((k, v) ∷ d) =
    ground
      (arith, lookup-entries_under prefix id d, same-drop prefix id k, same-foreign prefix id k)

key_of-prefix : (slug id : Text) → prefix_of slug ++ id ≡ key_of slug id
unfolding prefix_of key_of
key_of-prefix [] id = refl
key_of-prefix (c ∷ slug) id = ap (λ t. c ∷ t) (key_of-prefix slug id)

-- The view of a project answers for an id exactly what the loop holds under the key of the project
-- and the id: whether it is active, whether it is halted, its retries and its start.
pub state_for_project-key_of :
    (slug id : Text) (s : LoopState)
    → let v = state_for_project slug s in
      let key = key_of slug id in
      (member id v.active ≡ member key s.active_beads)
      × (member id v.halted ≡ member key s.halted_beads)
      × (lookup id v.retry ≡ lookup key s.retry_state)
      × (lookup id v.start_times ≡ lookup key s.bead_start_times)
unfolding state_for_project
state_for_project-key_of slug id s =
    let prefix = prefix_of slug in
    let key = key_of-prefix slug id in
    (
      member-ids_under prefix id s.active_beads ∙ ap (λ k. member k s.active_beads) key,
      member-ids_under prefix id s.halted_beads ∙ ap (λ k. member k s.halted_beads) key,
      lookup-entries_under prefix id s.retry_state ∙ ap (λ k. lookup k s.retry_state) key,
      lookup-entries_under prefix id s.bead_start_times ∙ ap (λ k. lookup k s.bead_start_times) key,
    )

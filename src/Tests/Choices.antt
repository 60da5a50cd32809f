-- ===== src/Tests/Choices.antt =====
-- Ready beads of a project, for beads_loop.py.
use orchestrator_service.Prelude.{
  ℕ, Text, codes, Bool, Option, none, some, ◌≡◌, refl, List, [], ◌∷◌, ltb,
}
use orchestrator_service.Json.{Json, text, num, obj, field, end, Py, ok, raise, type_error}
use orchestrator_service.Beads.Select.{
  priority_of, select_next_bead, IsFirstLeast, select_next_bead-IsFirstLeast,
}

abbrev no_parse : Text → Option Json
no_parse t = none

-- `<` of two numbers; other values are not compared.
less : Json → Json → Py Bool
less (num m) (num n) = ok (ltb m n)
less _ _ = raise type_error

less_on_numbers : (m n : ℕ) → less (num m) (num n) ≡ ok (ltb m n)
unfolding less
less_on_numbers m n = refl

abbrev bead_with : Text → ℕ → Json
bead_with id n = obj (field (codes "id") (text id) (field (codes "priority") (num n) end))

select_next_bead-IsFirstLeast_example :
    (b : Json) × (select_next_bead no_parse less
        (bead_with (codes "x") 2 ∷ bead_with (codes "y") 1 ∷ [])
      ≡ ok (some b))
    × IsFirstLeast b (bead_with (codes "x") 2 ∷ bead_with (codes "y") 1 ∷ [])
unfolding priority_of orchestrator_service.Prelude.same
select_next_bead-IsFirstLeast_example =
    select_next_bead-IsFirstLeast no_parse less less_on_numbers (bead_with (codes "x") 2)
      (bead_with (codes "y") 1 ∷ []) (refl, (refl, tt))

-- ===== src/Json.antt =====
-- The values that `json.loads` returns, and Python's reading of them: truth, `or`, `.get`, `str`,
-- iteration and `isinstance`. A read that raises is a value of `Py`.
use orchestrator_service.Prelude.{
  ℕ, Text, Bool, true, false, List, [], ◌∷◌, ◌==◌, same, if◌then◌else◌, not, ◌≡◌, refl,
}

-- `num` is an integer from 0 on, `real` the text of any other number (none of them zero).
mutual
  pub data Json : Type 0 where
    null : Json
    bool : Bool → Json
    num : ℕ → Json
    real : Text → Json
    text : Text → Json
    arr : Items → Json
    obj : Fields → Json

  pub data Items : Type 0 where
    nil : Items
    cons : Json → Items → Items

  pub data Fields : Type 0 where
    end : Fields
    field : Text → Json → Fields → Fields

-- The exceptions that a read of a payload raises, and those of the HTTP layer.
pub data Error : Type 0 where
  attribute_error type_error key_error value_error : Error

pub data Py {ℓ} (A : Type ℓ) : Type ℓ where
  ok : A → Py A
  raise : Error → Py A

-- One read after another: an exception ends the rest.
module _ {κ ℓ} {Read : Type ℓ} {Result : Type κ} where
  infixl 5 ◌>>=◌ ◌>>◌
  abbrev pub ◌>>=◌ : Py Read → (Read → Py Result) → Py Result
  raise error >>= rest = raise error
  ok value >>= rest = rest value

  abbrev pub ◌>>◌ : Py Read → Py Result → Py Result
  first >> second = first >>= (λ _. second)

  -- Reads that returned together returned one by one.
  pub >>=-eq-ok :
      (read : Py Read) (rest : Read → Py Result) {last : Result}
      → (read >>= rest) ≡ ok last
      → (value : Read) × (read ≡ ok value) × (rest value ≡ ok last)
  >>=-eq-ok (raise error) rest returned = cc
  >>=-eq-ok (ok value) rest returned = (value, refl, returned)

-- bool(v)
unfoldable pub truthy : Json → Bool
truthy null = false
truthy (bool b) = b
truthy (num n) = not (n == 0)
truthy (real t) = true
truthy (text []) = false
truthy (text (c ∷ t)) = true
truthy (arr nil) = false
truthy (arr (cons v vs)) = true
truthy (obj end) = false
truthy (obj (field k v fs)) = true

-- v or d
unfoldable pub or_else : Json → Json → Json
unfolding truthy
or_else v d = if truthy v then v else d

abbrev pub empty_text : Json
empty_text = text []

abbrev pub empty_obj : Json
empty_obj = obj end

abbrev pub empty_arr : Json
empty_arr = arr nil

unfoldable pub find_field : Text → Json → Fields → Json
find_field k d end = d
find_field k d (field j v fs) = if same j k then v else find_field k d fs

-- v.get(k, d): only a dict has `get`
unfoldable pub get_or : Json → Text → Json → Py Json
unfolding find_field
get_or (obj fs) k d = ok (find_field k d fs)
get_or _ k d = raise attribute_error

unfoldable pub get : Json → Text → Py Json
unfolding get_or
get v k = get_or v k null

-- str(v): the text itself, or `repr`, the text that Python gives another value
unfoldable pub to_text : (Json → Text) → Json → Text
to_text repr (text t) = t
to_text repr v = repr v

unfoldable pub items : Items → List Json
items nil = []
items (cons v vs) = v ∷ items vs

unfoldable pub keys : Fields → List Json
keys end = []
keys (field k v fs) = text k ∷ keys fs

unfoldable pub characters : Text → List Json
characters [] = []
characters (c ∷ t) = text (c ∷ []) ∷ characters t

-- `for x in v`
unfoldable pub iterate : Json → Py (List Json)
unfolding items keys characters
iterate (arr vs) = ok (items vs)
iterate (obj fs) = ok (keys fs)
iterate (text t) = ok (characters t)
iterate _ = raise type_error

-- isinstance(v, dict)
unfoldable pub is_dict : Json → Bool
is_dict (obj fs) = true
is_dict _ = false

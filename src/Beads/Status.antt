-- ===== src/Beads/Status.antt =====
-- beads_loop.py, _check_bead_status: the status that br gives of a bead.
use orchestrator_service.Prelude.{
  Text, codes, Option, none, some, if◌then◌else◌, is_empty, strip, lower,
}
use orchestrator_service.Json.{
  Json, null, arr, cons, nil, obj, empty_obj, Py, ok, ◌>>=◌, get, get_or, to_text,
}
use orchestrator_service.Beads.Select.{Printed, missing, failed, printed}

unknown : Text
unknown = codes "unknown"

-- data[0] if data else {}, for a list
unfoldable pub first_of : Json → Json
first_of (arr (cons v vs)) = v
first_of (arr nil) = empty_obj
first_of v = v

-- str(status).lower(), or "unknown" where there is none
status_text : (Json → Text) → Json → Text
unfolding unknown
status_text repr null = unknown
status_text repr v = lower (to_text repr v)

-- The status in what br shows of a bead. An issue that is no dict has no `get`.
unfoldable pub status_in : (Json → Text) → Json → Py Text
unfolding status_text unknown
status_in repr (obj fs) =
    get_or (obj fs) (codes "issue") (obj fs)
    >>= (λ issue. get issue (codes "status"))
    >>= (λ status. ok (status_text repr status))
status_in repr _ = ok unknown

-- `parse` is json.loads with none for a JSONDecodeError, `repr` str of a value that is no text.
module _ (parse : Text → Option Json) (repr : Json → Text) where
  unfoldable pub check_bead_status : Printed → Py Text
  unfolding first_of status_in unknown
  check_bead_status (printed t) =
      if is_empty (strip t) then ok unknown else elim (parse (strip t)) [
        | none ↦ ok unknown
        | some value ↦ status_in repr (first_of value)
      ]
  check_bead_status missing = ok unknown
  check_bead_status failed = ok unknown

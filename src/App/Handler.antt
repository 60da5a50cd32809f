-- ===== src/App/Handler.antt =====
-- app.py, github_webhook: one delivery, from the request to the response.
use orchestrator_service.Prelude.{
  ℕ, Text, codes, Bool, true, false, ◌&&◌, ◌||◌, not, Option, none, some, List, [], ◌∷◌, ◌++◌, map,
  length, ltb, leb, ◌==◌, if◌then◌else◌, same, lower, is_empty,
}
use orchestrator_service.Json.{
  Json, text, Py, ok, raise, type_error, attribute_error, ◌>>=◌, get, get_or, or_else, truthy,
  empty_obj, empty_text,
}
use orchestrator_service.Signature.{verify_signature}
use orchestrator_service.Filters.{Reason, should_dispatch}

pub record Request : Type 0 where
  pub body : Text
  pub delivery_id : Text
  pub event : Text
  pub signature : Option Text

-- The part of Settings that the endpoint reads, and DIRECT_BODY_ALLOWED_SENDERS.
pub record Settings : Type 0 where
  pub max_body_bytes : ℕ
  pub secret : Text
  pub allowed_senders : Text

-- What the endpoint leaves behind, in its order: events, records of the webhook store, and the
-- background task.
pub data Effect : Type 0 where
  emit_received : Text → Text → Json → Json → Effect
  record_delivery : Text → Text → Json → Json → Json → Json → Effect
  emit_filtered : Text → Text → Json → Reason → Effect
  record_denied : Text → Reason → Effect
  record_allowed : Text → Reason → Effect
  schedule_dispatch : Text → Text → Effect

pub data Response : Type 0 where
  too_large unauthorized pong invalid_json server_error accepted : Response
  ignored : Reason → Response

-- An exception that reaches the framework ends in a server error; what was done before stays done.
pub record Reply : Type 0 where
  pub effects : List Effect
  pub response : Response

abbrev pub refuse : Response → Reply
refuse r = record { effects = []; response = r }

-- The values that the handler reads first.
pub record Fields : Type 0 where
  pub action : Json
  pub repo : Json
  pub sender : Json
  pub label : Json

unfoldable pub read_fields : Json → Py Fields
read_fields payload = do
  action ← get_or payload (codes "action") empty_text
  sender_part ← get_or payload (codes "sender") empty_obj
  sender ← get_or sender_part (codes "login") (text (codes "?"))
  repo_part ← get_or payload (codes "repository") empty_obj
  repo ← get_or repo_part (codes "full_name") (text (codes "?"))
  label_part ← get payload (codes "label")
  label ← get_or (or_else label_part empty_obj) (codes "name") empty_text
  ok (record { action = action; repo = repo; sender = sender; label = label })

alnum : ℕ → Bool
alnum c = (leb b'A' c && leb c b'Z') || (leb b'a' c && leb c b'z') || (leb b'0' c && leb c b'9')

slug_char : ℕ → Bool
unfolding alnum
slug_char c = alnum c || c == b'.' || c == b'_' || c == b'-'

-- `[A-Za-z0-9._-]*$`: the `$` also matches before a newline at the end.
slug_rest : Text → Bool
unfolding slug_char
slug_rest [] = true
slug_rest (c ∷ t) = (c == 10 && is_empty t) || (slug_char c && slug_rest t)

-- _SLUG_RE.match
unfoldable pub matches_slug : Text → Bool
unfolding slug_rest alnum
matches_slug [] = false
matches_slug (c ∷ t) = alnum c && slug_rest t

-- value.replace("/", "-"), which only a text has
unfoldable pub replace_slashes : Json → Py Text
replace_slashes (text t) = ok (map (λ c. if c == b'/' then b'-' else c) t)
replace_slashes _ = raise attribute_error

-- `match` wants a text.
unfoldable pub checked_slug : Json → Py Text
unfolding matches_slug
checked_slug (text t) = ok (if matches_slug t then t else codes "default-project")
checked_slug _ = raise type_error

unfoldable pub derive_project_slug : Json → Py Text
unfolding replace_slashes checked_slug
derive_project_slug payload = do
  repo ← get_or payload (codes "repository") empty_obj
  full_name ← get_or repo (codes "full_name") empty_text
  if truthy full_name then (do slug ← replace_slashes full_name; checked_slug (text slug)) else (do
    name ← get_or repo (codes "name") (text (codes "default-project"))
    checked_slug name)

-- `hmac` is the HMAC, `parse` is json.loads with none for a JSONDecodeError, `repr` is Python's text
-- of a value, `render` makes the prompt and `contained` is the check of project_workspace_path.
module _ (hmac : Text → Text → List ℕ) (parse : Text → Option Json) (repr : Json → Text)
    (render : Text → Text → Json → Text) (contained : Text → Bool) where
  -- Behind the gate.
  unfoldable pub accept : Text → Text → Json → Reason → List Effect → Reply
  unfolding derive_project_slug
  accept delivery_id event payload reason before =
      let known = before ++ record_allowed delivery_id reason ∷ [] in
      elim (derive_project_slug payload) [
        | raise e ↦ record { effects = known; response = server_error }
        | ok slug ↦
            if contained slug
            then record {
              effects =
                  known ++ schedule_dispatch delivery_id (render delivery_id event payload) ∷ [];
              response = accepted;
            }
            else record { effects = known; response = server_error }
      ]

  unfoldable pub gated : Text → Text → Json → Json → List Effect → Py (Bool × Reason) → Reply
  unfolding accept
  gated delivery_id event payload action before (raise e) = record {
    effects = before;
    response = server_error;
  }
  gated delivery_id event payload action before (ok (true, reason)) =
      accept delivery_id event payload reason before
  gated delivery_id event payload action before (ok (false, reason)) = record {
    effects =
        before
        ++ emit_filtered delivery_id event action reason ∷ record_denied delivery_id reason ∷ [];
    response = ignored reason;
  }

  unfoldable pub receive : Settings → Text → Text → Json → Py Fields → Reply
  unfolding gated
  receive cfg delivery_id event payload (raise e) = refuse server_error
  receive cfg delivery_id event payload (ok f) =
      gated delivery_id event payload f.action
        (emit_received delivery_id event f.action f.repo
          ∷ record_delivery delivery_id event f.action f.repo f.sender f.label
          ∷ [])
        (should_dispatch repr cfg.allowed_senders event payload)

  unfoldable pub github_webhook : Settings → Request → Reply
  unfolding receive read_fields
  github_webhook cfg r =
      if ltb cfg.max_body_bytes (length r.body)
      then refuse too_large
      else if not (verify_signature hmac r.body r.signature cfg.secret)
      then refuse unauthorized
      else if same (lower r.event) (codes "ping")
      then refuse pong
      else elim (parse r.body) [
        | none ↦ refuse invalid_json
        | some payload ↦ receive cfg r.delivery_id (lower r.event) payload (read_fields payload)
      ]

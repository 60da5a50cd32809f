-- ===== src/Simulator.antt =====
-- simulator.py: the pages of the simulator, and how it signs a payload and sends it to the endpoint.
pub mod Templates
pub mod Sent
use orchestrator_service.Prelude.{
  ℕ, Text, codes, Bool, not, Option, none, some, List, ◌++◌, if◌then◌else◌, is_empty, strip, lower,
}
use orchestrator_service.Json.{
  Json, null, obj, Fields, Error, Py, ok, raise, ◌>>=◌, get, get_or, or_else, to_text, empty_text,
}
use orchestrator_service.Signature.{compute_signature}
use orchestrator_service.App.Handler.{Request}
use orchestrator_service.Auth
use orchestrator_service.Auth.{
  Access, granted, refused, crashed, require_token, Cookie, persist_token_cookie,
}
use orchestrator_service.Simulator.Templates.{list_templates, is_event, get_template}

-- Every route of a simulator that is not enabled answers with 404, and each other one wants a token.
unfoldable pub simulator_access : Bool → Option Text → Auth.Request → Access
simulator_access enabled token r = if enabled then require_token 401 token r else refused 404

-- A route answers with what it made, with a status, or an exception reaches the framework.
pub data Answer {ℓ} (A : Type ℓ) : Type ℓ where
  answered : A → Answer A
  http_error : ℕ → Answer A
  server_error : Answer A

unfoldable pub behind_access {ℓ} : {A : Type ℓ} → Access → Answer A → Answer A
behind_access granted answer = answer
behind_access (refused status) answer = http_error status
behind_access crashed answer = server_error

-- The page, where its file is there, with the cookie that it sets.
unfoldable pub simulator_page : Option Text → Auth.Request → Option Text → Answer (Text × Cookie)
simulator_page none r token = http_error 500
simulator_page (some html) r token = answered (html, persist_token_cookie r token)

unfoldable pub template_list : Bool → Answer (List Text)
template_list safe_only = answered (list_templates safe_only)

-- What a get of the template gives; a ValueError is answered with 400.
unfoldable pub shown_template : Text → Py Fields → Answer (Text × Json)
shown_template event (ok payload) = answered (event, obj payload)
shown_template event (raise error) = http_error 400

unfoldable pub template_for_event :
    (Json → Text) → Text → Text → Option Text → Option Json → Answer (Text × Json)
unfolding shown_template
template_for_event repr event repo action number =
    if is_event (lower event)
    then shown_template (lower event) (get_template repr (lower event) repo action number)
    else http_error 404

-- The event, the delivery and the payload, none for None.
pub record Order : Type 0 where
  pub event : Text
  pub delivery_id : Text
  pub payload : Json

-- `data` is what json.loads gives of the body; only a dict has `get`.
unfoldable pub read_order : (Json → Text) → Json → Py Order
read_order repr data_ = do
  event ← get_or data_ (codes "event") empty_text
  delivery ← get data_ (codes "deliveryId")
  payload ← get data_ (codes "payload")
  ok (record {
    event = lower (to_text repr event);
    delivery_id = to_text repr (or_else delivery empty_text);
    payload = payload;
  })

-- `dumps` is json.dumps: the request with the signature of its body.
unfoldable pub signed_request : (Text → Text → List ℕ) → (Json → Text) → Text → Order → Request
signed_request hmac dumps secret order = record {
  body = dumps order.payload;
  delivery_id = order.delivery_id;
  event = order.event;
  signature = some (compute_signature hmac (dumps order.payload) secret);
}

-- `post` sends a request to the endpoint of this process: the status and the body of the response, or
-- none for an HTTPError.
unfoldable pub forward : (Request → Option (ℕ × Text)) → Request → Answer (ℕ × Text)
forward post r = elim (post r) [ none ↦ http_error 502 | some response ↦ answered response ]

module _ (hmac : Text → Text → List ℕ) (repr dumps : Json → Text)
    (post : Request → Option (ℕ × Text)) where
  send_payload : Text → Order → Json → Answer (ℕ × Text)
  unfolding forward
  send_payload raw_secret order null = http_error 400
  send_payload raw_secret order payload =
      if is_empty (strip raw_secret)
      then http_error 500
      else forward post (signed_request hmac dumps (strip raw_secret) order)

  send_order : Text → Py Order → Answer (ℕ × Text)
  unfolding send_payload
  send_order raw_secret (raise error) = server_error
  send_order raw_secret (ok order) =
      if is_empty order.event then http_error 400 else send_payload raw_secret order order.payload

  -- `raw_secret` is the value of OS_WEBHOOK_SECRET, "" if it is not set; the body of the request is
  -- none where it is no JSON.
  unfoldable pub simulator_send : Text → Option Json → Answer (ℕ × Text)
  unfolding send_order
  simulator_send raw_secret none = http_error 400
  simulator_send raw_secret (some data_) = send_order raw_secret (read_order repr data_)

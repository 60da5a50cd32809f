-- ===== src/Simulator/Sent.antt =====
-- simulator.py with app.py: what the simulator sends for a labelled issue passes the endpoint.
use orchestrator_service.Prelude.{
  ℕ, Text, codes, Bool, true, false, ◌≡◌, refl, inl, inr, Option, some, List, [], ◌∷◌, map, length,
  ◌≤◌, ◌<◌, same, lower, strip, is_empty, member, starts_with, if◌then◌else◌, ◌==◌, All, Bool-cases,
  is_space, lstrip,
}
use mathlib.Core.Path.{subst}
use orchestrator_service.Json.{
  Json, text, obj, Fields, end, field, ok, get, get_or, find_field, truthy, or_else, to_text, items,
  keys, characters, iterate, is_dict,
}
use orchestrator_service.Signature.{verify-compute}
use orchestrator_service.Filters.{
  allowed, action_of, sender_of, label_of, issue_labels_of, text_under, label_names, is_bot_actor,
  is_workflow_label, ends_with, direct_body_label,
}
use orchestrator_service.Filters.Gate.{IsEligible}
use orchestrator_service.App.Handler.{
  Request, Settings, Effect, emit_received, record_delivery, record_allowed, schedule_dispatch,
  accepted, read_fields, derive_project_slug, replace_slashes, checked_slug, matches_slug,
  github_webhook,
}
use orchestrator_service.App.Handler
use orchestrator_service.App.Guards.{eligible-accepted}
use orchestrator_service.Runner.Manifest.{set_field}
use orchestrator_service.Simulator.Templates.{
  get_template, template_of, is_event, issues_payload, issue_part, base_payload, repository_part,
  sender_part, label_part, dispatch_label, number_or,
}
use orchestrator_service.Simulator.{read_order, signed_request, forward, simulator_send}

-- The template of a labelled issue, and the order that the page sends with it.
abbrev pub labeled_issue : (Json → Text) → Text → Json → Fields
labeled_issue repr repo number = issues_payload repr (codes "labeled") repo number

abbrev pub order_of : Text → Text → Json → Json
order_of event delivery_id payload = obj (
    field (codes "event") (text event)
      (field (codes "deliveryId") (text delivery_id) (field (codes "payload") payload end)))

get_template-labeled :
    (repr : Json → Text) (repo : Text) (number : Option Json)
    → get_template repr (codes "issues") repo (some (codes "labeled")) number
      ≡ ok (labeled_issue repr repo (number_or number 1))
unfolding get_template template_of is_event member same lower
get_template-labeled repr repo number = refl

labeled_issue-IsEligible :
    (repr : Json → Text) (raw repo : Text) (number : Json)
    → IsEligible repr raw (codes "issues") (obj (labeled_issue repr repo number))
unfolding issues_payload issue_part base_payload sender_part label_part dispatch_label set_field
    action_of sender_of label_of issue_labels_of text_under label_names is_bot_actor
    is_workflow_label ends_with direct_body_label get get_or find_field truthy or_else to_text items
    keys characters iterate is_dict same lower strip member starts_with is_space lstrip
labeled_issue-IsEligible repr raw repo number = record {
  sender = codes "simulator-user";
  label = codes "orchestration:dispatch";
  labels = codes "orchestration:dispatch" ∷ [];
  issues_event = refl;
  labeled = refl;
  sent = refl;
  no_bot = refl;
  triggered = refl;
  workflow = refl;
  labelled = refl;
  trusted = inl (refl, refl);
}

-- What the handler reads of it.
abbrev fields_of : Text → Handler.Fields
fields_of repo = record {
  action = text (codes "labeled");
  repo = text repo;
  sender = text (codes "simulator-user");
  label = text (codes "orchestration:dispatch");
}

read_fields-labeled :
    (repr : Json → Text) (repo : Text) (number : Json)
    → read_fields (obj (labeled_issue repr repo number)) ≡ ok (fields_of repo)
unfolding read_fields issues_payload issue_part base_payload repository_part sender_part label_part
    dispatch_label set_field get get_or find_field or_else truthy same
read_fields-labeled repr repo number = refl

-- Each slug that the endpoint uses is one that its pattern takes.
matches_slug-checked :
    (t : Text) → (slug : Text) × (checked_slug (text t) ≡ ok slug) × (matches_slug slug ≡ true)
unfolding checked_slug matches_slug
matches_slug-checked t = elim (Bool-cases (matches_slug t)) [
  | inl e ↦ (t, rw e refl, e)
  | inr e ↦ (codes "default-project", rw e refl, refl)
]

derive_project_slug-labeled :
    (repr : Json → Text) (repo : Text) (number : Json)
    → (slug : Text) × (derive_project_slug (obj (labeled_issue repr repo number)) ≡ ok slug)
      × (matches_slug slug ≡ true)
unfolding derive_project_slug issues_payload issue_part base_payload repository_part set_field
    get_or find_field same truthy
derive_project_slug-labeled repr [] number = matches_slug-checked (codes "repo")
derive_project_slug-labeled repr (c ∷ t) number =
    matches_slug-checked (map (λ d. if d == b'/' then b'-' else d) (c ∷ t))

module _ (hmac : Text → Text → List ℕ) (repr dumps : Json → Text)
    (post : Request → Option (ℕ × Text)) where
  simulator_send-order_of :
      (raw_secret event delivery_id : Text) (payload : Fields)
      → is_empty (strip raw_secret) ≡ false
      → lower event ≡ event
      → is_empty event ≡ false
      → simulator_send hmac repr dumps post raw_secret
          (some (order_of event delivery_id (obj payload)))
        ≡ forward post (
            signed_request hmac dumps
              (strip raw_secret)
              (record { event = event; delivery_id = delivery_id; payload = obj payload }))
  unfolding simulator_send read_order get get_or find_field same to_text or_else truthy
  simulator_send-order_of raw_secret event [] payload secret small named =
      rw (small, named, secret) refl
  simulator_send-order_of raw_secret event (c ∷ t) payload secret small named =
      rw (small, named, secret) refl

module _ (hmac : Text → Text → List ℕ) (parse : Text → Option Json) (repr dumps : Json → Text)
    (render : Text → Text → Json → Text) (contained : Text → Bool)
    (post : Request → Option (ℕ × Text)) where
  -- What the simulator signs and sends for the template of a labelled issue, whatever the repository
  -- and the number, is accepted by an endpoint with its secret, and its dispatch is scheduled, if the
  -- body parses to what was dumped and fits the limit. This is for an HMAC that gives bytes, and
  -- a workspace that contains the path of each slug that the pattern takes.
  pub sent_labeled-accepted :
      ((secret body : Text) → All (λ b. b < 256) (hmac secret body))
      → ((slug : Text) → matches_slug slug ≡ true → contained slug ≡ true)
      → (cfg : Settings) (raw_secret delivery_id repo : Text) (number : Option Json)
      → (payload : Fields) → is_empty (strip raw_secret) ≡ false
      → cfg.secret ≡ strip raw_secret
      → get_template repr (codes "issues") repo (some (codes "labeled")) number ≡ ok payload
      → parse (dumps (obj payload)) ≡ some (obj payload)
      → length (dumps (obj payload)) ≤ cfg.max_body_bytes
      → (r : Request) × (simulator_send hmac repr dumps post raw_secret
            (some (order_of (codes "issues") delivery_id (obj payload)))
          ≡ forward post r)
        × (github_webhook hmac parse repr render contained cfg r ≡ record {
          effects =
              emit_received delivery_id (codes "issues") (text (codes "labeled")) (text repo)
              ∷ record_delivery delivery_id
                  (codes "issues")
                  (text (codes "labeled"))
                  (text repo)
                  (text (codes "simulator-user"))
                  (text (codes "orchestration:dispatch"))
              ∷ record_allowed delivery_id allowed
              ∷ schedule_dispatch delivery_id (render delivery_id (codes "issues") (obj payload))
              ∷ [];
          response = accepted;
        })
  unfolding signed_request lower same
  sent_labeled-accepted bytes inside cfg raw_secret delivery_id repo number payload secret shared
        made parsed fits =
      let is : labeled_issue repr repo (number_or number 1) ≡ payload =
        cc (get_template-labeled repr repo number) in
      let r =
        signed_request hmac dumps (strip raw_secret)
          (record { event = codes "issues"; delivery_id = delivery_id; payload = obj payload }) in
      let eligible =
        subst (λ p. IsEligible repr cfg.allowed_senders (codes "issues") (obj p)) is
          (labeled_issue-IsEligible repr cfg.allowed_senders repo (number_or number 1)) in
      let (slug, derived, matched) =
        subst
          (λ p.
            (slug : Text) × (derive_project_slug (obj p) ≡ ok slug) × (matches_slug slug ≡ true))
          is (derive_project_slug-labeled repr repo (number_or number 1)) in
      let read =
        subst (λ p. read_fields (obj p) ≡ ok (fields_of repo)) is
          (read_fields-labeled repr repo (number_or number 1)) in
      (
        r,
        simulator_send-order_of hmac repr dumps post raw_secret (codes "issues") delivery_id payload
            secret refl refl,
        eligible-accepted hmac parse repr render contained cfg r (obj payload) (fields_of repo) slug
            fits (rw shared (verify-compute hmac bytes (dumps (obj payload)) (strip raw_secret)))
            refl parsed read eligible derived (inside slug matched),
      )

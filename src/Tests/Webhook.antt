-- ===== src/Tests/Webhook.antt =====
-- Deliveries at the endpoint of app.py, with stand-ins for what the standard library computes.
use orchestrator_service.Prelude.{
  ℕ, Text, codes, Bool, true, false, ◌≡◌, refl, inl, inr, Option, none, some, List, [], ◌∷◌, ◌++◌,
  map, ◌%◌, same, if◌then◌else◌, All, arith, ◌<◌, drop, starts_with, lower,
}
use orchestrator_service.Json.{Json, text, obj, arr, cons, nil, field, end, ok}
use orchestrator_service.Signature.{
  compute_signature, verify_signature, verify-compute, verified-digest, from_hex, signature_prefix,
}
use orchestrator_service.Filters.{Reason, allowed, should_dispatch}
use orchestrator_service.Filters.Gate.{allowed_iff}
use orchestrator_service.App.Handler.{
  Request, Settings, Effect, Fields, read_fields, derive_project_slug, github_webhook,
  emit_received, record_delivery, record_allowed, schedule_dispatch, accepted,
}
use orchestrator_service.App.Guards.{
  IsAuthorized, scheduled-IsAuthorized, eligible-accepted, unread_no_effect,
}

abbrev pub digest_of : Text → Text → List ℕ
digest_of secret body = map (λ c. c % 256) (secret ++ body)

pub digest_of-bytes : (secret body : Text) → All (λ b. b < 256) (digest_of secret body)
digest_of-bytes secret body = bytes_of (secret ++ body)
  where
    bytes_of : (t : Text) → All (λ b. b < 256) (map (λ c. c % 256) t)
    bytes_of [] = tt
    bytes_of (c ∷ t) = (omega arith, bytes_of t)

abbrev pub login_of : Text → Json
login_of name = obj (field (codes "login") (text name) end)

abbrev pub name_of : Text → Json
name_of name = obj (field (codes "name") (text name) end)

abbrev pub labeled_issue : Json
labeled_issue = obj (
    field (codes "action") (text (codes "labeled")) (
      field (codes "sender") (login_of (codes "Ann")) (
        field (codes "label") (name_of (codes "gh-issue-tracking:direct-body")) (
          field (codes "issue")
            (obj (field (codes "labels") (arr (cons (name_of (codes "bug")) nil)) end))
            (field (codes "repository")
              (obj (field (codes "full_name") (text (codes "acme/site")) end)) end)))))

abbrev parse_body : Text → Option Json
parse_body t = if same t (codes "{1}") then some labeled_issue else none

abbrev pub no_repr : Json → Text
no_repr v = []

abbrev pub prompt_of : Text → Text → Json → Text
prompt_of delivery_id event payload = delivery_id ++ event

abbrev pub inside_workspace : Text → Bool
inside_workspace slug = true

abbrev pub cfg : Settings
cfg = record { max_body_bytes = 100; secret = codes "k"; allowed_senders = codes "bob, ann" }

abbrev signed : Text → Request
signed body = record {
  body = body;
  delivery_id = codes "d1";
  event = codes "Issues";
  signature = some (compute_signature digest_of body (codes "k"));
}

scheduled-IsAuthorized_example :
    IsAuthorized digest_of parse_body no_repr prompt_of inside_workspace cfg (signed (codes "{1}"))
unfolding github_webhook compute_signature verify_signature should_dispatch derive_project_slug
    signature_prefix orchestrator_service.Prelude.starts_with from_hex
    orchestrator_service.Signature.to_hex orchestrator_service.Signature.is_blank
    orchestrator_service.Signature.hex_value same orchestrator_service.Prelude.lower
    orchestrator_service.Json.get_or orchestrator_service.Json.get orchestrator_service.Json.or_else
    orchestrator_service.Filters.action_of orchestrator_service.Prelude.member
    orchestrator_service.Json.to_text orchestrator_service.Filters.sender_of
    orchestrator_service.Filters.is_bot_actor orchestrator_service.Prelude.strip
    orchestrator_service.App.Handler.accept orchestrator_service.App.Handler.checked_slug
    orchestrator_service.App.Handler.gated orchestrator_service.App.Handler.matches_slug read_fields
    orchestrator_service.App.Handler.receive orchestrator_service.App.Handler.replace_slashes
    orchestrator_service.Filters.direct_body_allowed_senders
    orchestrator_service.Filters.direct_body_check orchestrator_service.Filters.direct_body_label
    orchestrator_service.Filters.ends_with orchestrator_service.Filters.gate_actor
    orchestrator_service.Filters.gate_event orchestrator_service.Filters.is_workflow_label
    orchestrator_service.Filters.issue_labels_of orchestrator_service.Filters.label_names
    orchestrator_service.Filters.label_of orchestrator_service.Filters.senders_of
    orchestrator_service.Filters.split_from orchestrator_service.Filters.text_under
    orchestrator_service.Json.characters orchestrator_service.Json.find_field
    orchestrator_service.Json.is_dict orchestrator_service.Json.items
    orchestrator_service.Json.iterate orchestrator_service.Json.keys
    orchestrator_service.Json.truthy orchestrator_service.Prelude.is_space
    orchestrator_service.Prelude.lstrip orchestrator_service.Signature.hex_char
    orchestrator_service.Signature.matches_digest
scheduled-IsAuthorized_example =
    scheduled-IsAuthorized digest_of parse_body no_repr prompt_of inside_workspace cfg
      (signed (codes "{1}")) refl

fields_read :
    read_fields labeled_issue
    ≡ ok (record {
      action = text (codes "labeled");
      repo = text (codes "acme/site");
      sender = text (codes "Ann");
      label = text (codes "gh-issue-tracking:direct-body");
    })
unfolding read_fields orchestrator_service.Json.get_or same orchestrator_service.Json.get
    orchestrator_service.Json.or_else
fields_read = refl

pub dispatched :
    should_dispatch no_repr (codes "bob, ann") (codes "issues") labeled_issue ≡ ok (true, allowed)
unfolding should_dispatch orchestrator_service.Filters.action_of orchestrator_service.Json.get
    orchestrator_service.Json.or_else orchestrator_service.Prelude.member same lower
    orchestrator_service.Json.to_text orchestrator_service.Filters.sender_of
    orchestrator_service.Filters.is_bot_actor starts_with orchestrator_service.Prelude.strip
    orchestrator_service.Filters.label_of orchestrator_service.Filters.is_workflow_label
    orchestrator_service.Filters.issue_labels_of orchestrator_service.Json.iterate
    orchestrator_service.Json.is_dict orchestrator_service.Filters.direct_body_check
    orchestrator_service.Filters.direct_body_allowed_senders
    orchestrator_service.Filters.direct_body_label orchestrator_service.Filters.ends_with
    orchestrator_service.Filters.gate_actor orchestrator_service.Filters.gate_event
    orchestrator_service.Filters.label_names orchestrator_service.Filters.senders_of
    orchestrator_service.Filters.split_from orchestrator_service.Filters.text_under
    orchestrator_service.Json.characters orchestrator_service.Json.find_field
    orchestrator_service.Json.get_or orchestrator_service.Json.items orchestrator_service.Json.keys
    orchestrator_service.Json.truthy orchestrator_service.Prelude.is_space
    orchestrator_service.Prelude.lstrip
dispatched = refl

slug_derived : derive_project_slug labeled_issue ≡ ok (codes "acme-site")
unfolding derive_project_slug orchestrator_service.Json.get_or same orchestrator_service.Json.truthy
slug_derived = refl

eligible-accepted_example :
    github_webhook digest_of parse_body no_repr prompt_of inside_workspace cfg
      (signed (codes "{1}"))
    ≡ record {
      effects =
          emit_received
            (codes "d1")
            (codes "issues")
            (text (codes "labeled"))
            (text (codes "acme/site"))
          ∷ record_delivery
              (codes "d1")
              (codes "issues")
              (text (codes "labeled"))
              (text (codes "acme/site"))
              (text (codes "Ann"))
              (text (codes "gh-issue-tracking:direct-body"))
          ∷ record_allowed (codes "d1") allowed
          ∷ schedule_dispatch (codes "d1") (codes "d1issues")
          ∷ [];
      response = accepted;
    }
unfolding lower
eligible-accepted_example =
    eligible-accepted digest_of parse_body no_repr prompt_of inside_workspace cfg
      (signed (codes "{1}")) labeled_issue _ (codes "acme-site") (omega arith)
      (verify-compute digest_of digest_of-bytes (codes "{1}") (codes "k")) (unfold same in refl)
      (unfold same in refl) fields_read
      ((allowed_iff no_repr (codes "bob, ann") (codes "issues") labeled_issue).0 dispatched)
      slug_derived refl

unread_no_effect_example :
    (github_webhook digest_of parse_body no_repr prompt_of inside_workspace cfg
      (signed (codes "{2}"))).effects
    ≡ []
unread_no_effect_example =
    unread_no_effect digest_of parse_body no_repr prompt_of inside_workspace cfg
      (signed (codes "{2}")) (inr (inr (inr (unfold same in refl))))

verify-compute_example :
    verify_signature digest_of
      (codes "abc")
      (some (compute_signature digest_of (codes "abc") (codes "k")))
      (codes "k")
    ≡ true
verify-compute_example = verify-compute digest_of digest_of-bytes (codes "abc") (codes "k")

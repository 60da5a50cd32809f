-- ===== src/Tests/Gate.antt =====
-- Payloads at the gate of filters.py.
use orchestrator_service.Prelude.{codes, Bool, true, ◌≡◌, ◌↔◌, ◌≢◌, refl, inl, [], same, All, arith}
use orchestrator_service.Json.{Json, text, obj, arr, cons, nil, field, end, ok, get}
use orchestrator_service.Filters.{Reason, allowed, should_dispatch}
use orchestrator_service.Filters.Gate.{IsEligible, allowed_iff}
use orchestrator_service.Filters.Answers.{IsReadable, should_dispatch_answers}
use orchestrator_service.Tests.Webhook.{labeled_issue, login_of, name_of, no_repr}

allowed_iff_example :
    (should_dispatch no_repr (codes "bob, ann") (codes "issues") labeled_issue ≡ ok (true, allowed))
    ↔ IsEligible no_repr (codes "bob, ann") (codes "issues") labeled_issue
allowed_iff_example = allowed_iff no_repr (codes "bob, ann") (codes "issues") labeled_issue

readable : IsReadable labeled_issue
unfolding get orchestrator_service.Json.is_dict same orchestrator_service.Json.or_else
readable = record {
  dict = refl;
  sender = login_of (codes "Ann");
  label = name_of (codes "gh-issue-tracking:direct-body");
  issue = obj (field (codes "labels") (arr (cons (name_of (codes "bug")) nil)) end);
  labels = arr (cons (name_of (codes "bug")) nil);
  has_sender = refl;
  sender_fits = inl refl;
  has_label = refl;
  label_fits = inl refl;
  has_issue = refl;
  has_labels = refl;
  labels_fit = inl refl;
}

should_dispatch_answers_example :
    (verdict : Bool × Reason) × (should_dispatch no_repr [] (codes "issues") labeled_issue
      ≡ ok verdict)
should_dispatch_answers_example =
    should_dispatch_answers no_repr [] (codes "issues") labeled_issue readable

no_comma : All (λ c. c ≢ b',') (codes "Ann")
no_comma = (omega arith, (omega arith, (omega arith, tt)))

no_comma_bob : All (λ c. c ≢ b',') (codes "bob")
no_comma_bob = (omega arith, (omega arith, (omega arith, tt)))

-- ===== src/Tests/Simulator.antt =====
-- A labelled issue that the simulator sends, with stand-ins for what the standard library computes.
use orchestrator_service.Prelude.{ℕ, Text, codes, ◌≡◌, refl, Option, none, some, ◌∷◌, [], arith}
use orchestrator_service.Json.{Json, num, text, obj, Fields}
use orchestrator_service.Filters.{allowed}
use orchestrator_service.App.Handler.{
  Request, github_webhook, emit_received, record_delivery, record_allowed, schedule_dispatch,
  accepted,
}
use orchestrator_service.Simulator.{forward, simulator_send}
use orchestrator_service.Simulator.Sent.{labeled_issue, order_of, sent_labeled-accepted}
use orchestrator_service.Tests.Webhook.{
  digest_of, digest_of-bytes, no_repr, prompt_of, inside_workspace, cfg,
}

abbrev issue : Fields
issue = labeled_issue no_repr (codes "acme/site") (num 7)

abbrev dump_issue : Json → Text
dump_issue v = codes "{7}"

abbrev parse_issue : Text → Option Json
parse_issue t = some (obj issue)

abbrev post : Request → Option (ℕ × Text)
post r = some (202, codes "accepted")

sent_labeled-accepted_example :
    (r : Request) × (simulator_send digest_of no_repr dump_issue post
        (codes " k ")
        (some (order_of (codes "issues") (codes "d7") (obj issue)))
      ≡ forward post r)
    × (github_webhook digest_of parse_issue no_repr prompt_of inside_workspace cfg r ≡ record {
      effects =
          emit_received
            (codes "d7")
            (codes "issues")
            (text (codes "labeled"))
            (text (codes "acme/site"))
          ∷ record_delivery
              (codes "d7")
              (codes "issues")
              (text (codes "labeled"))
              (text (codes "acme/site"))
              (text (codes "simulator-user"))
              (text (codes "orchestration:dispatch"))
          ∷ record_allowed (codes "d7") allowed
          ∷ schedule_dispatch (codes "d7") (prompt_of (codes "d7") (codes "issues") (obj issue))
          ∷ [];
      response = accepted;
    })
unfolding orchestrator_service.Prelude.strip orchestrator_service.Prelude.lstrip
    orchestrator_service.Prelude.is_space orchestrator_service.Simulator.Templates.get_template
    orchestrator_service.Simulator.Templates.template_of
    orchestrator_service.Simulator.Templates.is_event orchestrator_service.Prelude.member
    orchestrator_service.Prelude.same orchestrator_service.Prelude.lower
sent_labeled-accepted_example =
    sent_labeled-accepted digest_of parse_issue no_repr dump_issue prompt_of inside_workspace post
      digest_of-bytes (λ slug matched. refl) cfg (codes " k ") (codes "d7") (codes "acme/site")
      (some (num 7)) issue refl refl refl refl (omega arith)

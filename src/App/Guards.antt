-- ===== src/App/Guards.antt =====
-- app.py, github_webhook: a delivery has effects only behind its checks, and starts an agent only
-- behind the gate.
use orchestrator_service.Prelude.{
  ℕ, Text, codes, Bool, true, false, ◌≡◌, refl, ap, ◌∙◌, ◌⊎◌, inl, inr, Option, none, some, List,
  [], ◌∷◌, length, ltb, ◌≤◌, ◌<◌, arith, same, lower, Option-cases,
}
use orchestrator_service.Json.{Json, Py, ok, raise}
use orchestrator_service.Signature.{verify_signature}
use orchestrator_service.Filters.{Reason, allowed, should_dispatch}
use orchestrator_service.Filters.Gate.{IsEligible, allowed_iff, yes-allowed}
use orchestrator_service.App.Handler.{
  Request, Settings, Effect, emit_received, record_delivery, record_allowed, schedule_dispatch,
  Fields, accepted, read_fields, derive_project_slug, accept, gated, receive, github_webhook,
}

-- Whether the background task is among the effects.
abbrev pub schedules : List Effect → Bool
schedules [] = false
schedules (schedule_dispatch d p ∷ es) = true
schedules (_ ∷ es) = schedules es

module _ (hmac : Text → Text → List ℕ) (parse : Text → Option Json) (repr : Json → Text)
    (render : Text → Text → Json → Text) (contained : Text → Bool) where
  -- A delivery that is too large, or not signed with the secret, or a ping, or no JSON, leaves
  -- nothing behind: no event, no record and no task.
  pub unread_no_effect :
      (cfg : Settings) (r : Request)
      → (cfg.max_body_bytes < length r.body)
        ⊎ (verify_signature hmac r.body r.signature cfg.secret ≡ false)
        ⊎ (same (lower r.event) (codes "ping") ≡ true)
        ⊎ (parse r.body ≡ none)
      → (github_webhook hmac parse repr render contained cfg r).effects ≡ []
  unfolding github_webhook
  unread_no_effect cfg r (inl big) = ground arith
  unread_no_effect cfg r (inr (inl unsigned)) = ground arith
  unread_no_effect cfg r (inr (inr (inl ping))) = ground arith
  unread_no_effect cfg r (inr (inr (inr bad))) = ground arith

  -- What a scheduled dispatch rests on.
  pub record IsAuthorized (cfg : Settings) (r : Request) : Type 0 where
    pub payload : Json
    pub fits : length r.body ≤ cfg.max_body_bytes
    pub signed : verify_signature hmac r.body r.signature cfg.secret ≡ true
    pub parsed : parse r.body ≡ some payload
    pub eligible : IsEligible repr cfg.allowed_senders (lower r.event) payload

  gated-schedules :
      (delivery_id event : Text) (payload : Json) (f : Fields) (verdict : Py (Bool × Reason))
      → schedules
          (gated hmac parse repr render contained delivery_id event payload f.action
            (emit_received delivery_id event f.action f.repo
              ∷ record_delivery delivery_id event f.action f.repo f.sender f.label
              ∷ [])
            verdict).effects
        ≡ true
      → (reason : Reason) × (verdict ≡ ok (true, reason))
  unfolding gated
  gated-schedules delivery_id event payload f (raise e) s = cc
  gated-schedules delivery_id event payload f (ok (true, reason)) s = (reason, refl)
  gated-schedules delivery_id event payload f (ok (false, reason)) s = cc

  receive-schedules :
      (cfg : Settings) (delivery_id event : Text) (payload : Json) (fields : Py Fields)
      → schedules
          (receive hmac parse repr render contained cfg delivery_id event payload fields).effects
        ≡ true
      → should_dispatch repr cfg.allowed_senders event payload ≡ ok (true, allowed)
  unfolding receive
  receive-schedules cfg delivery_id event payload (raise e) s = cc
  receive-schedules cfg delivery_id event payload (ok f) s =
      let (reason, yes_) = gated-schedules delivery_id event payload f _ s in
      yes_ ∙ ap (λ x. ok (true, x)) (yes-allowed repr cfg.allowed_senders event payload reason yes_)

  -- The background task that starts an agent is scheduled only for a delivery that fits the limit, is
  -- signed with the secret, parses, and is eligible under the gate.
  pub scheduled-IsAuthorized :
      (cfg : Settings) (r : Request)
      → schedules (github_webhook hmac parse repr render contained cfg r).effects ≡ true
      → IsAuthorized cfg r
  unfolding github_webhook
  scheduled-IsAuthorized cfg r s = elim (Option-cases (parse r.body)) [
    | inl e ↦ absurd (ground arith)
    | inr (payload, e) ↦ record {
      payload = payload;
      fits = ground arith;
      signed = ground arith;
      parsed = e;
      eligible = (allowed_iff repr cfg.allowed_senders (lower r.event) payload).0 (
          receive-schedules cfg r.delivery_id (lower r.event) payload (read_fields payload)
            (ground arith));
    }
  ]

  -- A delivery that fits the limit, is signed, is no ping, parses to a payload that can be read and
  -- is eligible, of a repository whose project path stays in the workspace, is accepted, recorded as
  -- allowed, and has its dispatch scheduled.
  pub eligible-accepted :
      (cfg : Settings) (r : Request) (payload : Json) (f : Fields) (slug : Text)
      → length r.body ≤ cfg.max_body_bytes
      → verify_signature hmac r.body r.signature cfg.secret ≡ true
      → same (lower r.event) (codes "ping") ≡ false
      → parse r.body ≡ some payload
      → read_fields payload ≡ ok f
      → IsEligible repr cfg.allowed_senders (lower r.event) payload
      → derive_project_slug payload ≡ ok slug
      → contained slug ≡ true
      → github_webhook hmac parse repr render contained cfg r ≡ record {
        effects =
            emit_received r.delivery_id (lower r.event) f.action f.repo
            ∷ record_delivery r.delivery_id (lower r.event) f.action f.repo f.sender f.label
            ∷ record_allowed r.delivery_id allowed
            ∷ schedule_dispatch r.delivery_id (render r.delivery_id (lower r.event) payload)
            ∷ [];
        response = accepted;
      }
  unfolding github_webhook lower
  eligible-accepted cfg r payload f slug fits signed no_ping parsed read eligible derived inside =
      let small : ltb cfg.max_body_bytes (length r.body) ≡ false = ground arith in
      let yes_ = (allowed_iff repr cfg.allowed_senders (lower r.event) payload).1 eligible in
      rw
        (
          github_webhook, small, signed, no_ping, parsed, read, receive, yes_, gated, accept,
          derived, inside,
        )
        refl

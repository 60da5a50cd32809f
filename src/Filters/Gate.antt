-- ===== src/Filters/Gate.antt =====
-- filters.py: exactly which deliveries the gate lets through, and that bots never pass.
use orchestrator_service.Prelude.{
  member, Text, codes, Bool, true, false, ◌≡◌, ◌↔◌, ◌⊎◌, List, [], ◌∷◌, same, same_iff, lower,
  arith, not, if◌then◌else◌,
}
use orchestrator_service.Json.{Json, Py, ok, ◌>>=◌, >>=-eq-ok}
use orchestrator_service.Filters.{
  direct_body_label, direct_body_allowed_senders, is_workflow_label, is_bot_actor, Reason, allowed,
  bot_actor, label_not_relevant, action_of, sender_of, label_of, issue_labels_of, direct_body_check,
  gate_actor, gate_event, should_dispatch,
}

-- What the gate is to let through: a labelled issue, not by a bot, with a workflow label, and with
-- a trusted sender where a label of the issue or the triggering one asks for the body verbatim.
pub record IsEligible (repr : Json → Text) (raw event : Text) (payload : Json) : Type 0 where
  pub sender : Text
  pub label : Text
  pub labels : List Text
  pub issues_event : lower event ≡ codes "issues"
  pub labeled : action_of repr payload ≡ ok (codes "labeled")
  pub sent : sender_of repr payload ≡ ok sender
  pub no_bot : is_bot_actor sender ≡ false
  pub triggered : label_of repr payload ≡ ok label
  pub workflow : is_workflow_label label ≡ true
  pub labelled : issue_labels_of repr payload ≡ ok labels
  pub trusted :
      ((member direct_body_label labels ≡ false) × (same (lower label) direct_body_label ≡ false))
      ⊎ (member (lower sender) (direct_body_allowed_senders raw) ≡ true)

member-singleton : (x y : Text) → (member x (y ∷ []) ≡ true) ↔ (x ≡ y)
unfolding member
member-singleton x y = (λ h. ground (arith, same_iff x y), λ h. ground (arith, same_iff x y))

direct_body_check-allowed :
    (senders labels : List Text) (label sender : Text)
    → direct_body_check senders labels label sender ≡ (true, allowed)
    → ((member direct_body_label labels ≡ false) × (same (lower label) direct_body_label ≡ false))
      ⊎ (member (lower sender) senders ≡ true)
unfolding direct_body_check
direct_body_check-allowed senders labels label sender h = ground arith

allowed-direct_body_check :
    (senders labels : List Text) (label sender : Text)
    → ((member direct_body_label labels ≡ false) × (same (lower label) direct_body_label ≡ false))
      ⊎ (member (lower sender) senders ≡ true)
    → direct_body_check senders labels label sender ≡ (true, allowed)
unfolding direct_body_check member
allowed-direct_body_check senders labels label sender h = ground arith

module _ (repr : Json → Text) (raw : Text) where
  -- The gate behind a known sender, and behind a known label.
  abbrev behind_label : Text → Text → Json → Py (Bool × Reason)
  behind_label sender label payload = do
    labels ← issue_labels_of repr payload
    ok (direct_body_check (direct_body_allowed_senders raw) labels label sender)

  abbrev behind_sender : Text → Json → Py (Bool × Reason)
  behind_sender sender payload = do
    label ← label_of repr payload
    if not (is_workflow_label label)
        then ok (false, label_not_relevant label)
        else behind_label sender label payload

  gate_event-allowed :
      (event action : Text) (payload : Json)
      → gate_event repr raw event action payload ≡ ok (true, allowed)
      → (event ≡ codes "issues")
        × (action ≡ codes "labeled")
        × (gate_actor repr raw payload ≡ ok (true, allowed))
  unfolding gate_event
  gate_event-allowed event action payload h =
      ground
        (arith, member-singleton event (codes "issues"), member-singleton action (codes "labeled"))

  no_bot_of :
      (b : Bool) (reason : Reason) (rest : Py (Bool × Reason))
      → (if b then ok (false, reason) else rest) ≡ ok (true, allowed)
      → (b ≡ false) × (rest ≡ ok (true, allowed))
  no_bot_of b reason rest h = ground arith

  should_dispatch-IsEligible :
      (event : Text) (payload : Json)
      → should_dispatch repr raw event payload ≡ ok (true, allowed)
      → IsEligible repr raw event payload
  unfolding should_dispatch gate_actor
  should_dispatch-IsEligible event payload h =
      let (action, acted, h1) = >>=-eq-ok (action_of repr payload) _ h in
      let (issues, labeled, h2) = gate_event-allowed (lower event) action payload h1 in
      let (sender, sent, h3) = >>=-eq-ok (sender_of repr payload) _ h2 in
      let (no_bot, h4) = no_bot_of (is_bot_actor sender) (bot_actor sender) _ h3 in
      let (label, triggered, h5) = >>=-eq-ok (label_of repr payload) _ h4 in
      let (workflow, h6) =
        no_bot_of (not (is_workflow_label label)) (label_not_relevant label) _ h5 in
      let (labels, labelled, h7) = >>=-eq-ok (issue_labels_of repr payload) _ h6 in
      record {
        sender = sender;
        label = label;
        labels = labels;
        issues_event = issues;
        labeled = cc;
        sent = sent;
        no_bot = no_bot;
        triggered = triggered;
        workflow = ground arith;
        labelled = labelled;
        trusted = direct_body_check-allowed _ labels label sender (cc);
      }

  allowed_of :
      (event : Text) (payload : Json)
      → IsEligible repr raw event payload
      → should_dispatch repr raw event payload ≡ ok (true, allowed)
  unfolding should_dispatch gate_event gate_actor
  allowed_of event payload e = ground (
    arith,
    member-singleton (lower event) (codes "issues"),
    member-singleton (codes "labeled") (codes "labeled"),
    allowed-direct_body_check (direct_body_allowed_senders raw) e.labels e.label e.sender,
    e.trusted,
  )

  -- The gate lets a delivery through exactly if it is eligible.
  pub allowed_iff :
      (event : Text) (payload : Json)
      → (should_dispatch repr raw event payload ≡ ok (true, allowed))
        ↔ IsEligible repr raw event payload
  allowed_iff event payload = (should_dispatch-IsEligible event payload, allowed_of event payload)

  -- The only reason that comes with a yes.
  pub yes-allowed :
      (event : Text) (payload : Json) (reason : Reason)
      → should_dispatch repr raw event payload ≡ ok (true, reason)
      → reason ≡ allowed
  unfolding should_dispatch gate_event gate_actor direct_body_check
  yes-allowed event payload reason h = ground arith

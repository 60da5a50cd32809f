-- ===== src/Filters.antt =====
-- filters.py: which webhook deliveries may start the orchestrator agent.
pub mod Gate
pub mod Answers
pub mod Senders
use orchestrator_service.Prelude.{
  ℕ, Text, codes, Bool, true, false, ◌||◌, List, [], ◌∷◌, map, same, starts_with, strip, lower,
  reverse, any, is_empty, if◌then◌else◌, not, ◌==◌, member,
}
use orchestrator_service.Json.{
  Json, Py, ok, ◌>>=◌, or_else, get, to_text, iterate, is_dict, empty_text, empty_obj, empty_arr,
}

event_allow : List Text
event_allow = codes "issues" ∷ []

action_allow : List Text
action_allow = codes "labeled" ∷ []

label_prefixes : List Text
label_prefixes = codes "orchestration:" ∷ codes "gh-issue-tracking:" ∷ []

label_exact : List Text
label_exact = codes "implementation:ready" ∷ codes "implementation:complete" ∷ []

unfoldable pub direct_body_label : Text
direct_body_label = codes "gh-issue-tracking:direct-body"

-- raw.split(sep), for a separator of one character; `acc` is the piece so far, backwards
unfoldable pub split_from : ℕ → Text → Text → List Text
split_from sep acc [] = reverse acc ∷ []
split_from sep acc (c ∷ t) =
    let cut = split_from sep [] t in
    let more = split_from sep (c ∷ acc) t in if c == sep then reverse acc ∷ cut else more

-- {s.strip().lower() for s in pieces if s.strip()}; the set is a list that is only searched
unfoldable pub senders_of : List Text → List Text
senders_of [] = []
senders_of (s ∷ rest) =
    if is_empty (strip s) then senders_of rest else lower (strip s) ∷ senders_of rest

-- The argument is the value of DIRECT_BODY_ALLOWED_SENDERS.
unfoldable pub direct_body_allowed_senders : Text → List Text
unfolding split_from senders_of
direct_body_allowed_senders raw = senders_of (split_from b',' [] raw)

unfoldable pub is_workflow_label : Text → Bool
unfolding member label_prefixes label_exact
is_workflow_label name =
    let n = lower (strip name) in any (λ p. starts_with p n) label_prefixes || member n label_exact

-- s.endswith(p)
unfoldable pub ends_with : Text → Text → Bool
ends_with p s = starts_with (reverse p) (reverse s)

unfoldable pub is_bot_actor : Text → Bool
unfolding ends_with
is_bot_actor login =
    let n = lower (strip login) in ends_with (codes "[bot]") n || ends_with (codes "-bot") n

-- The second part of the answer, one constructor for each message.
pub data Reason : Type 0 where
  allowed : Reason
  event_not_dispatched : Text → Reason
  action_not_dispatched : Text → Text → Reason
  bot_actor : Text → Reason
  label_not_relevant : Text → Reason
  direct_body_disabled : Reason
  direct_body_not_permitted : Text → Reason

-- The last block of the gate: a delivery that can run the issue body needs a trusted sender.
unfoldable pub direct_body_check : List Text → List Text → Text → Text → Bool × Reason
direct_body_check senders labels label sender =
    if member direct_body_label labels || same (lower label) direct_body_label
    then (if is_empty senders
        then (false, direct_body_disabled)
        else if member (lower sender) senders
        then (true, allowed)
        else (false, direct_body_not_permitted sender))
    else (true, allowed)

-- Everywhere `repr` is Python's `str` of a value that is no text.
module _ (repr : Json → Text) where
  -- str((payload or {}).get("action") or "").lower()
  unfoldable pub action_of : Json → Py Text
  action_of payload = do
    action ← get (or_else payload empty_obj) (codes "action")
    ok (lower (to_text repr (or_else action empty_text)))

  -- str((payload.get(outer) or {}).get(inner) or "")
  unfoldable pub text_under : Text → Text → Json → Py Text
  text_under outer inner payload = do
    part ← get payload outer
    value ← get (or_else part empty_obj) inner
    ok (to_text repr (or_else value empty_text))

  unfoldable pub sender_of : Json → Py Text
  unfolding text_under
  sender_of = text_under (codes "sender") (codes "login")

  unfoldable pub label_of : Json → Py Text
  unfolding text_under
  label_of = text_under (codes "label") (codes "name")

  unfoldable pub label_names : List Json → Py (List Text)
  label_names [] = ok []
  label_names (v ∷ vs) =
      let rest = label_names vs in
      if is_dict v
      then (do
        name ← get v (codes "name")
        names ← rest
        ok (lower (strip (to_text repr (or_else name empty_text))) ∷ names))
      else rest

  unfoldable pub issue_labels_of : Json → Py (List Text)
  unfolding label_names
  issue_labels_of payload = do
    issue ← get payload (codes "issue")
    labels ← get (or_else issue empty_obj) (codes "labels")
    entries ← iterate (or_else labels empty_arr)
    label_names entries

  -- The part of the gate behind the tests of event and action.
  unfoldable pub gate_actor : Text → Json → Py (Bool × Reason)
  gate_actor raw_senders payload = do
    sender ← sender_of payload
    if is_bot_actor sender then ok (false, bot_actor sender) else do
      label ← label_of payload
      if not (is_workflow_label label) then ok (false, label_not_relevant label) else do
        labels ← issue_labels_of payload
        ok (direct_body_check (direct_body_allowed_senders raw_senders) labels label sender)

  unfoldable pub gate_event : Text → Text → Text → Json → Py (Bool × Reason)
  unfolding event_allow action_allow
  gate_event raw_senders event action payload =
      if not (member event event_allow)
      then ok (false, event_not_dispatched event)
      else if not (member action action_allow)
      then ok (false, action_not_dispatched event action)
      else gate_actor raw_senders payload

  -- `raw_senders` is the value of DIRECT_BODY_ALLOWED_SENDERS, "" if it is not set.
  unfoldable pub should_dispatch : Text → Text → Json → Py (Bool × Reason)
  unfolding gate_event gate_actor
  should_dispatch raw_senders event payload = do
    action ← action_of payload
    gate_event raw_senders (lower event) action payload

-- ===== src/Narrative/Ended.antt =====
-- run_narrative.py and runner.py: what the narrative says of a run whose end the runner has recorded.
use orchestrator_service.Prelude.{
  ℕ, Text, codes, Bool, true, false, Option, none, some, List, [], ◌∷◌, ◌++◌, same, same_iff,
  if◌then◌else◌, ◌≡◌, refl, arith, is_empty, lookup,
}
use orchestrator_service.Json.{
  Json, null, bool, num, real, obj, text, arr, ok, truthy, to_text, Fields, end, field, find_field,
  empty_text, ◌>>=◌,
}
use orchestrator_service.Watchdog.Loop.{
  KillReason, idle_timeout, hard_ceiling, consecutive_errors, permission_deadlock,
}
use orchestrator_service.Runner.Completion.{
  RunEnd, Evidence, Classification, killed_by, failed, zero_work, incomplete, completed,
  classification, is_failed, is_zero_work, is_incomplete,
}
use orchestrator_service.Runner.Manifest.{
  set_field, update, reason_text, reason_json, classification_text, code_json, completion_fields,
  update_run_manifest,
}
use orchestrator_service.Narrative.Status.{
  classification_status, kill_reason_message, get_or_default, equals, exit_message, message_of,
  determine_status,
}

pub find_field-set_field :
    (key k : Text) (value d : Json) (fs : Fields)
    → find_field k d (set_field key value fs) ≡ (if same key k then value else find_field k d fs)
unfolding find_field set_field
find_field-set_field key k value d end = refl
find_field-set_field key k value d (field j v fs) =
    ground
      (arith, find_field-set_field key k value d fs, same_iff key k, same_iff j key, same_iff j k)

-- Status and message for each way in which a run ends, told apart from the tables of the code.
abbrev pub killed_message : KillReason → Text × Text
killed_message idle_timeout =
    (codes "timeout", codes "Watchdog killed: agent went idle (no output)")
killed_message hard_ceiling =
    (codes "timeout", codes "Watchdog killed: hit the hard runtime ceiling")
killed_message consecutive_errors =
    (codes "error", codes "Watchdog killed: consecutive errors exceeded threshold")
killed_message permission_deadlock =
    (codes "error", codes "Watchdog killed: stuck on an unanswered permission prompt")

abbrev pub narrated : Text → Classification → Text × Text
narrated code (killed_by reason) = killed_message reason
narrated code failed = (codes "failed", codes "Failed (exit code " ++ (code ++ codes ")"))
narrated code zero_work =
    (codes "zero_work", codes "Exited cleanly but no execution tools were used (planning only)")
narrated code incomplete =
    (codes "incomplete", codes "Exited cleanly but the dispatch issue is still open (incomplete)")
narrated code completed = (codes "completed", codes "Completed successfully")

-- A run is classified as killed exactly for its kill reason.
data IsOf : Option KillReason → Classification → Type 0 where
  killed : (reason : KillReason) → IsOf (some reason) (killed_by reason)
  of_failed : IsOf none failed
  of_zero_work : IsOf none zero_work
  of_incomplete : IsOf none incomplete
  of_completed : IsOf none completed

classification-IsOf : (e : RunEnd) (v : Evidence) → IsOf e.kill_reason (classification e v)
unfolding classification
classification-IsOf e v =
    elim e.kill_reason
      as (λ o. IsOf o (elim o [
        | some r ↦ killed_by r
        | none ↦
            if is_failed e
            then failed
            else if is_zero_work e v
            then zero_work
            else if is_incomplete e v
            then incomplete
            else completed
      ])) [
        | some r ↦ killed r
        | none ↦
            elim (is_failed e)
              as (λ b. IsOf none (
                if b
                then failed
                else if is_zero_work e v
                then zero_work
                else if is_incomplete e v
                then incomplete
                else completed)) [
                  | true ↦ of_failed
                  | false ↦
                      elim (is_zero_work e v)
                        as (λ b. IsOf none (
                          if b
                          then zero_work
                          else if is_incomplete e v
                          then incomplete
                          else completed)) [
                            | true ↦ of_zero_work
                            | false ↦
                                elim (is_incomplete e v)
                                  as (λ b. IsOf none (if b then incomplete else completed)) [
                                    | true ↦ of_incomplete
                                    | false ↦ of_completed
                                  ]
                          ]
                ]
      ]

module _ (repr : Json → Text) where
  status_of-IsOf :
      (reason : Option KillReason) (c : Classification) (code : Json) (timed_out : Bool)
      → IsOf reason c
      → (get_or_default classification_status (text (classification_text c)) (codes "unknown")
          >>= (λ status.
              message_of repr (reason_json reason) (text (classification_text c)) code timed_out
              >>= (λ message. ok (status, message))))
        ≡ ok (narrated (to_text repr code) c)
  unfolding get_or_default classification_status classification_text reason_text reason_json
      message_of kill_reason_message lookup exit_message equals truthy same
  status_of-IsOf _ _ code timed_out (killed idle_timeout) = refl
  status_of-IsOf _ _ code timed_out (killed hard_ceiling) = refl
  status_of-IsOf _ _ code timed_out (killed consecutive_errors) = refl
  status_of-IsOf _ _ code timed_out (killed permission_deadlock) = refl
  status_of-IsOf _ _ code timed_out of_failed = refl
  status_of-IsOf _ _ code timed_out of_zero_work = refl
  status_of-IsOf _ _ code timed_out of_incomplete = refl
  status_of-IsOf _ _ code timed_out of_completed = refl

module _ (repr : Json → Text) (minus : ℕ → Text) (sorted : List Text → List Text) where
  -- What the merged manifest holds under the keys that the narrative reads.
  merged_fields :
      (fs : Fields) (now : Text) (e : RunEnd) (v : Evidence)
      → let merged = update fs (completion_fields minus sorted now e v) in
        (find_field (codes "ended_at") null merged ≡ text now)
        × (find_field (codes "exit_code") null merged ≡ code_json minus e.exit_code)
        × (find_field (codes "timed_out") (bool false) merged ≡ bool e.timed_out)
        × (find_field (codes "kill_reason") null merged ≡ reason_json e.kill_reason)
        × (find_field (codes "classification") empty_text merged
            ≡ text (classification_text (classification e v)))
  unfolding update completion_fields same
  merged_fields fs now e v = (
    simp find_field-set_field refl,
    simp find_field-set_field refl,
    simp find_field-set_field refl,
    simp find_field-set_field refl,
    simp find_field-set_field refl,
  )

  determine_status-merged :
      (fs : Fields) (now : Text) (e : RunEnd) (v : Evidence)
      → is_empty now ≡ false
      → determine_status repr (update fs (completion_fields minus sorted now e v))
        ≡ ok (narrated (to_text repr (code_json minus e.exit_code)) (classification e v))
  unfolding determine_status truthy
  determine_status-merged fs [] e v h = cc
  determine_status-merged fs (c ∷ now) e v h =
      let (ended, code, timed, kill, class) = merged_fields fs (c ∷ now) e v in
      rw (ended, code, timed, kill, class)
        (status_of-IsOf repr e.kill_reason (classification e v) (code_json minus e.exit_code)
          e.timed_out (classification-IsOf e v))

  -- Once the runner has merged the end of a run into its manifest, at a time whose text is not
  -- empty and whatever the dispatch left there, the narrative gives the status and the message of
  -- the classification that the runner gave the run, never "unknown" and never "running".
  pub determine_status-update_run_manifest :
      (old : Option Json) (now : Text) (e : RunEnd) (v : Evidence) (manifest : Fields)
      → is_empty now ≡ false
      → update_run_manifest minus sorted old now e v ≡ ok manifest
      → determine_status repr manifest
        ≡ ok (narrated (to_text repr (code_json minus e.exit_code)) (classification e v))
  unfolding update_run_manifest
  determine_status-update_run_manifest none now e v manifest h written =
      cc (determine_status-merged end now e v h, written)
  determine_status-update_run_manifest (some (obj fs)) now e v manifest h written =
      cc (determine_status-merged fs now e v h, written)
  determine_status-update_run_manifest (some null) now e v manifest h written = cc
  determine_status-update_run_manifest (some (bool b)) now e v manifest h written = cc
  determine_status-update_run_manifest (some (num n)) now e v manifest h written = cc
  determine_status-update_run_manifest (some (real t)) now e v manifest h written = cc
  determine_status-update_run_manifest (some (text t)) now e v manifest h written = cc
  determine_status-update_run_manifest (some (arr vs)) now e v manifest h written = cc

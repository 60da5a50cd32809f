-- ===== src/Beads/Halting.antt =====
-- beads_loop.py: a bead that fails as often as allowed is halted, and a halted bead stays so.
use orchestrator_service.Prelude.{
  ℕ, Text, Bool, true, false, ◌||◌, ◌≡◌, refl, List, [], ◌∷◌, ◌++◌, All, arith, member, same,
  same_iff, same_refl, remove, Option-cases, Bool-cases, inl, inr,
}
use orchestrator_service.Beads.State.{
  LoopState, LoopEvent, agent_spawned, Attempt, Effect, increment_retry, set_default, run_agent,
  attempt_bead, process_bead, warn_missing_plan, Poll, register, unregister, take_bead,
  poll_project, Visit, scan, key_of, add,
}

-- Whether the event says that an agent was started for the bead.
abbrev spawns : Text → LoopEvent → Bool
spawns key (agent_spawned k n) = same k key
spawns key _ = false

-- The bead is halted in `s`, and stays so with no agent started for it.
pub record StaysHalted (key : Text) (e : Effect) : Type 0 where
  pub halted : member key e.state.halted_beads ≡ true
  pub quiet : All (λ ev. spawns key ev ≡ false) e.events

member-add : (x y : Text) (xs : List Text) → member x xs ≡ true → member x (add y xs) ≡ true
unfolding add member
member-add x y xs h = ground arith

pub member-add_self : (x : Text) (xs : List Text) → member x (add x xs) ≡ true
unfolding add
member-add_self x xs = elim (Bool-cases (member x xs)) [
  | inl e ↦ rw e e
  | inr e ↦ rw e (unfold member in rw same_refl refl)
]

pub halted-set_default :
    (key : Text) (s : LoopState) → (set_default key s).halted_beads ≡ s.halted_beads
unfolding set_default
halted-set_default key s = ground arith

-- Processing another bead keeps a halted one halted.
process_bead-StaysHalted :
    (max_retries : ℕ) (key k : Text) (a : Attempt) (s : LoopState)
    → same k key ≡ false
    → member key s.halted_beads ≡ true
    → StaysHalted key (process_bead max_retries k a s)
unfolding process_bead attempt_bead run_agent increment_retry
process_bead-StaysHalted max_retries key k a s ne h =
    ground (arith, halted-set_default k s, member-add key k s.halted_beads)

take_bead-StaysHalted :
    (max_retries : ℕ) (key slug k : Text) (now : ℕ) (a : Attempt) (s : LoopState)
    → member key s.halted_beads ≡ true
    → StaysHalted key (take_bead max_retries slug k now a s)
unfolding take_bead register unregister
take_bead-StaysHalted max_retries key slug k now a s h = elim (Bool-cases (same k key)) [
  | inl e ↦
      let is : k ≡ key = (same_iff k key).0 e in
      let busy : (member k s.active_beads || member k s.halted_beads) ≡ true = ground arith in
      rw busy (record { halted = h; quiet = tt })
  | inr e ↦
      let s' = register k slug now s in
      let kept = process_bead-StaysHalted max_retries key k a s' e h in
      elim (Bool-cases (member k s.active_beads || member k s.halted_beads)) [
        | inl busy ↦ rw busy (record { halted = h; quiet = tt })
        | inr free ↦ rw free (record { halted = kept.halted; quiet = (refl, kept.quiet) })
      ]
]

poll_project-StaysHalted :
    (max_retries : ℕ) (key slug : Text) (p : Poll) (s : LoopState)
    → member key s.halted_beads ≡ true
    → StaysHalted key (poll_project max_retries slug p s)
unfolding poll_project warn_missing_plan
poll_project-StaysHalted max_retries key slug p s h = elim (Bool-cases p.plan_tracked) [
  | inr e ↦ ground arith
  | inl e ↦ elim (Option-cases p.next_bead) [
    | inl n ↦ ground arith
    | inr (id, n) ↦
        rw (e, n)
          (take_bead-StaysHalted max_retries key slug (key_of slug id) p.now p.attempt
            (record s { plan_warned = remove slug s.plan_warned }) h)
  ]
]

All-append {ℓ} :
    {A : Type ℓ} (Holds : A → Type 0) (before after : List A)
    → All Holds before
    → All Holds after
    → All Holds (before ++ after)
All-append Holds (x ∷ xs) after (h, hs) later = (h, All-append Holds xs after hs later)
All-append Holds [] after h later = later

-- Once a bead is halted, no scan of the projects, whatever it meets, starts an agent for it, and it
-- is still halted afterwards.
pub scan-StaysHalted :
    (max_retries : ℕ) (key : Text) (vs : List Visit) (s : LoopState)
    → member key s.halted_beads ≡ true
    → StaysHalted key (scan max_retries vs s)
unfolding scan
scan-StaysHalted max_retries key [] s h = record { halted = h; quiet = tt }
scan-StaysHalted max_retries key (v ∷ vs) s h =
    let now = poll_project-StaysHalted max_retries key v.slug v.poll s h in
    let later =
      scan-StaysHalted max_retries key vs (poll_project max_retries v.slug v.poll s).state
        now.halted in
    record {
      halted = later.halted;
      quiet = All-append (λ ev. spawns key ev ≡ false) _ _ now.quiet later.quiet;
    }

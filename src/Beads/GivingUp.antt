-- ===== src/Beads/GivingUp.antt =====
-- beads_loop.py: a bead whose attempts fail is tried as often as allowed, and then halted.
use orchestrator_service.Prelude.{
  ℕ, ◌+◌, ◌≤◌, ◌<◌, Text, true, false, ◌||◌, some, ◌≡◌, refl, ◌⊎◌, List, [], ◌∷◌, length, All,
  arith, member, same_refl, Dict, lookup, insert, remove, lookup-insert, inl, inr,
}
use orchestrator_service.Beads.State.{
  Retry, LoopState, Attempt, failure, no_retry, retry_of, increment_retry, set_default, run_agent,
  attempt_bead, process_bead, Poll, register, unregister, take_bead, poll_project, Visit, scan,
  key_of, last_chars, new_loop, add, discard,
}
use orchestrator_service.Beads.Halting.{halted-set_default, member-add_self}

-- A poll in which the bead is offered and its attempt fails: there is no worktree, or the agent ends
-- with the bead still open.
pub record Fails (id : Text) (p : Poll) : Type 0 where
  pub planned : p.plan_tracked ≡ true
  pub offered : p.next_bead ≡ some id
  pub fails :
      (p.attempt.worktree_made ≡ false) ⊎ ((logs : Text) × (p.attempt.outcome ≡ failure logs))

-- Between polls the bead has been tried `n` times and is not halted.
record Tried (key : Text) (n : ℕ) (s : LoopState) : Type 0 where
  idle : s.active_beads ≡ []
  not_halted : member key s.halted_beads ≡ false
  count : (retry_of key s.retry_state).count ≡ n

retry_of-set_default :
    (key : Text) (s : LoopState)
    → retry_of key (set_default key s).retry_state ≡ retry_of key s.retry_state
unfolding set_default retry_of
retry_of-set_default key s =
    ground (arith, lookup-insert key key no_retry s.retry_state, same_refl key)

retry_of-insert : (key : Text) (r : Retry) (d : Dict Retry) → retry_of key (insert key r d) ≡ r
unfolding retry_of
retry_of-insert key r d = ground (arith, lookup-insert key key r d, same_refl key)

discard-add : (key : Text) (xs : List Text) → xs ≡ [] → discard key (add key xs) ≡ []
unfolding add discard member
discard-add key xs e = ground (arith, same_refl key)

active-set_default :
    (key : Text) (s : LoopState) → (set_default key s).active_beads ≡ s.active_beads
unfolding set_default
active-set_default key s = ground arith

-- A failing attempt below the bound counts.
process_bead-Tried :
    (max_retries n : ℕ) (id key : Text) (p : Poll) (s : LoopState)
    → Fails id p
    → (retry_of key s.retry_state).count ≡ n
    → n < max_retries
    → let t = (process_bead max_retries key p.attempt s).state in
      (t.active_beads ≡ s.active_beads)
      × (t.halted_beads ≡ s.halted_beads)
      × ((retry_of key t.retry_state).count ≡ n + 1)
unfolding process_bead attempt_bead increment_retry run_agent
process_bead-Tried max_retries n id key p s f c le =
    let t = set_default key s in
    let r = retry_of key t.retry_state in
    let counted = retry_of-set_default key s in
    let bare = retry_of-insert key (record { count = r.count + 1; logs = r.logs }) t.retry_state in
    let active = active-set_default key s in
    let halted = halted-set_default key s in
    elim f.fails [
      | inl w ↦ ground (arith, active, halted, bare)
      | inr (logs, o) ↦
          let logged =
            retry_of-insert key (record { count = r.count + 1; logs = last_chars 3000 logs })
              t.retry_state in
          ground (arith, active, halted, bare, logged)
    ]

-- At the bound the bead is halted instead.
process_bead-halts :
    (max_retries : ℕ) (key : Text) (a : Attempt) (s : LoopState)
    → max_retries ≤ (retry_of key s.retry_state).count
    → member key (process_bead max_retries key a s).state.halted_beads ≡ true
unfolding process_bead attempt_bead
process_bead-halts max_retries key a s le =
    let t = set_default key s in
    ground (arith, retry_of-set_default key s, member-add_self key t.halted_beads)

-- The polls of one project, one after the other.
pub visits_of : Text → List Poll → List Visit
visits_of slug [] = []
visits_of slug (p ∷ ps) = (record { slug = slug; poll = p }) ∷ visits_of slug ps

module _ (max_retries : ℕ) (slug id : Text) where
  -- A poll that fails below the bound.
  poll_project-Tried :
      (n : ℕ) (p : Poll) (s : LoopState)
      → Fails id p
      → Tried (key_of slug id) n s
      → n < max_retries
      → Tried (key_of slug id) (n + 1) (poll_project max_retries slug p s).state
  unfolding poll_project take_bead register unregister
  poll_project-Tried n p s f h le =
      let key = key_of slug id in
      let s' = register key slug p.now (record s { plan_warned = remove slug s.plan_warned }) in
      let (active, halted, count) = process_bead-Tried max_retries n id key p s' f h.count le in
      let free : (member key s.active_beads || member key s.halted_beads) ≡ false =
        unfold member in ground (arith, h.idle, h.not_halted) in
      rw (f.planned, f.offered, free)
        (record {
          idle = ground (arith, active, discard-add key s.active_beads h.idle);
          not_halted = ground (arith, halted, h.not_halted);
          count = count;
        })

  poll_project-halts :
      (n : ℕ) (p : Poll) (s : LoopState)
      → Fails id p
      → Tried (key_of slug id) n s
      → max_retries ≤ n
      → member (key_of slug id) (poll_project max_retries slug p s).state.halted_beads ≡ true
  unfolding poll_project take_bead register unregister
  poll_project-halts n p s f h le =
      let key = key_of slug id in
      let s' = register key slug p.now (record s { plan_warned = remove slug s.plan_warned }) in
      let free : (member key s.active_beads || member key s.halted_beads) ≡ false =
        unfold member in ground (arith, h.idle, h.not_halted) in
      rw (f.planned, f.offered, free)
        (process_bead-halts max_retries key p.attempt s' (omega (arith, h.count)))

  halted_after :
      (n : ℕ) (ps : List Poll) (s : LoopState)
      → All (Fails id) ps
      → n + length ps ≡ max_retries + 1
      → n ≤ max_retries
      → Tried (key_of slug id) n s
      → member (key_of slug id) (scan max_retries (visits_of slug ps) s).state.halted_beads ≡ true
  unfolding scan visits_of
  halted_after n [] s fs e le h = absurd (omega arith)
  halted_after n (p ∷ []) s fs e le h = poll_project-halts n p s fs.0 h (omega arith)
  halted_after n (p ∷ q ∷ ps) s fs e le h =
      halted_after (n + 1) (q ∷ ps) (poll_project max_retries slug p s).state fs.1 (omega arith)
        (omega arith) (poll_project-Tried n p s fs.0 h (omega arith))

  -- From a fresh loop, a bead that is offered in `max_retries + 1` polls and fails in each attempt
  -- is halted after them.
  pub failing_bead_halts :
      (ps : List Poll)
      → All (Fails id) ps
      → length ps ≡ max_retries + 1
      → member (key_of slug id) (scan max_retries (visits_of slug ps) new_loop).state.halted_beads
        ≡ true
  failing_bead_halts ps fs e = halted_after 0 ps new_loop fs (omega arith) (omega arith) (record {
    idle = refl;
    not_halted = unfold member in refl;
    count = unfold retry_of lookup in refl;
  })

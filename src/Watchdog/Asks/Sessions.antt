-- ===== src/Watchdog/Asks/Sessions.antt =====
-- watchdog.py: the session that the watchdog may abort is one of its own dispatch.
use orchestrator_service.Prelude.{
  ℕ, ◌-◌, Text, codes, true, false, Option, none, some, ◌≡◌, refl, ap, ◌∙◌, leb, ltb, if◌then◌else◌,
  ◌⊎◌, inl, inr, List, [], ◌∷◌, Any, arith, Bool-cases, Option-cases, same_iff, &&-true,
}
use orchestrator_service.Watchdog.Asks.{
  PermissionAskMonitor, ServerLog, poll, poll_size, poll_read, consume, resolve, bind_session, says,
  last_reply, last_ask, first_session, lines_from, creation_qualifies, find_created, find_value,
}

-- A line that tells of the creation of the primary session `id` for the directory `dir`.
pub record IsCreation (dir id line : Text) : Type 0 where
  pub creates : find_created line ≡ some id
  pub in_directory : find_value false (codes "directory=") line ≡ some dir
  pub primary : find_value false (codes "parentID=") line ≡ some (codes "undefined")

says-eq : (found : Option Text) (t : Text) → says found t ≡ true → found ≡ some t
says-eq none t h = cc
says-eq (some v) t h = ap some ((same_iff v t).0 h)

qualifies-IsCreation :
    (dir id line : Text)
    → creation_qualifies (some dir) line ≡ true
    → find_created line ≡ some id
    → IsCreation dir id line
unfolding creation_qualifies
qualifies-IsCreation dir id line q c =
    let (d, p) =
      &&-true (says (find_value false (codes "directory=") line) dir)
        (says (find_value false (codes "parentID=") line) (codes "undefined")) q in
    record {
      creates = c;
      in_directory = says-eq (find_value false (codes "directory=") line) dir d;
      primary = says-eq (find_value false (codes "parentID=") line) (codes "undefined") p;
    }

first_session-Any :
    (dir id : Text) (ls : List Text)
    → first_session (some dir) ls ≡ some id
    → Any (IsCreation dir id) ls
unfolding first_session
first_session-Any dir id [] h = cc
first_session-Any dir id (l ∷ ls) h = elim (Bool-cases (creation_qualifies (some dir) l)) [
  | inl q ↦ elim (Option-cases (find_created l)) [
    | inl e ↦ inr (first_session-Any dir id ls (ground arith))
    | inr (id', e) ↦ inl (qualifies-IsCreation dir id l q (ground arith))
  ]
  | inr q ↦ inr (first_session-Any dir id ls (ground arith))
]

-- The poll read a chunk in which a line tells of the creation of the session.
pub record Reads (dir id : Text) (log : ServerLog) : Type 0 where
  pub from : ℕ
  pub amount : ℕ
  pub chunk : Text
  pub read : log.read from amount ≡ some chunk
  pub creation : Any (IsCreation dir id) (lines_from [] chunk)

session-resolve :
    (r : Option ℕ) (a : Option (ℕ × Text)) (now : ℕ) (m : PermissionAskMonitor)
    → ((resolve r a now m).session_id ≡ m.session_id)
      × ((resolve r a now m).directory ≡ m.directory)
unfolding resolve
session-resolve none none now m = (refl, refl)
session-resolve (some r) none now m = (refl, refl)
session-resolve none (some (i, d)) now m = (refl, refl)
session-resolve (some r) (some (i, d)) now m = ground arith

module _ (dir id : Text) (now : ℕ) where
  session-consume :
      (chunk : Text) (m : PermissionAskMonitor)
      → m.directory ≡ some dir
      → (consume chunk now m).session_id ≡ some id
      → (m.session_id ≡ some id) ⊎ Any (IsCreation dir id) (lines_from [] chunk)
  unfolding consume bind_session
  session-consume chunk m d h = elim (Option-cases m.session_id) [
    | inr (old, e) ↦ inl (
        ground (
          arith,
          session-resolve (last_reply 0 none chunk) (last_ask 0 0 none chunk) now
              (bind_session chunk m),
        ))
    | inl e ↦ inr (
        first_session-Any dir id (lines_from [] chunk) (
          ground (
            arith,
            session-resolve (last_reply 0 none chunk) (last_ask 0 0 none chunk) now
                (bind_session chunk m),
          )))
  ]

  session-poll_read :
      (size : ℕ) (log : ServerLog) (m : PermissionAskMonitor)
      → m.directory ≡ some dir
      → (poll_read size log now m).session_id ≡ some id
      → (m.session_id ≡ some id) ⊎ Reads dir id log
  unfolding poll_read
  session-poll_read size log m d h = elim (Option-cases (log.read m.pos (size - m.pos))) [
    | inl e ↦ inl (ground arith)
    | inr (chunk, e) ↦ elim (session-consume chunk (record m { pos = size }) d (ground arith)) [
      | inl old ↦ inl old
      | inr new ↦
          inr (record {
            from = m.pos;
            amount = size - m.pos;
            chunk = chunk;
            read = e;
            creation = new;
          })
    ]
  ]

  session-poll_size :
      (size : ℕ) (log : ServerLog) (m : PermissionAskMonitor)
      → m.directory ≡ some dir
      → (poll_size size log now m).session_id ≡ some id
      → (m.session_id ≡ some id) ⊎ Reads dir id log
  unfolding poll_size
  session-poll_size size log m d h =
      let start = if ltb size m.pos then 0 else m.pos in
      elim (Bool-cases (leb size start)) [
        | inl e ↦ inl (ground arith)
        | inr e ↦ session-poll_read size log (record m { pos = start }) d (ground arith)
      ]

  session-poll :
      (log : ServerLog) (m : PermissionAskMonitor)
      → m.directory ≡ some dir
      → (poll log now m).session_id ≡ some id
      → (m.session_id ≡ some id) ⊎ Reads dir id log
  unfolding poll
  session-poll log m d h = elim (Bool-cases m.enabled) [
    | inr off ↦ inl (ground arith)
    | inl on ↦ elim (Option-cases log.size) [
      | inl e ↦ inl (ground arith)
      | inr (size, e) ↦ session-poll_size size log m d (ground arith)
    ]
  ]

-- One poll: what the log was, and when.
pub record Glance : Type 0 where
  pub log : ServerLog
  pub now : ℕ

unfoldable pub poll_all : List Glance → PermissionAskMonitor → PermissionAskMonitor
poll_all [] m = m
poll_all (g ∷ gs) m = poll_all gs (poll g.log g.now m)

directory-consume :
    (chunk : Text) (now : ℕ) (m : PermissionAskMonitor)
    → (consume chunk now m).directory ≡ m.directory
unfolding consume bind_session
directory-consume chunk now m =
    (session-resolve (last_reply 0 none chunk) (last_ask 0 0 none chunk) now
      (bind_session chunk m)).1

directory-poll_read :
    (size : ℕ) (log : ServerLog) (now : ℕ) (m : PermissionAskMonitor)
    → (poll_read size log now m).directory ≡ m.directory
unfolding poll_read
directory-poll_read size log now m = elim (Option-cases (log.read m.pos (size - m.pos))) [
  | inl e ↦ ground arith
  | inr (chunk, e) ↦ ground (arith, directory-consume chunk now (record m { pos = size }))
]

directory-poll_size :
    (size : ℕ) (log : ServerLog) (now : ℕ) (m : PermissionAskMonitor)
    → (poll_size size log now m).directory ≡ m.directory
unfolding poll_size
directory-poll_size size log now m =
    let start = if ltb size m.pos then 0 else m.pos in
    ground (arith, directory-poll_read size log now (record m { pos = start }))

directory-poll :
    (log : ServerLog) (now : ℕ) (m : PermissionAskMonitor)
    → (poll log now m).directory ≡ m.directory
unfolding poll
directory-poll log now m = elim (Option-cases log.size) [
  | inl e ↦ ground arith
  | inr (size, e) ↦ ground (arith, directory-poll_size size log now m)
]

-- The session that the watchdog aborts after any polls, if it had none before, was created on a
-- line that one of the polls read from the log, and this line names the directory of the dispatch
-- and no parent session.
pub session-own :
    (dir id : Text) (gs : List Glance) (m : PermissionAskMonitor)
    → m.directory ≡ some dir
    → (poll_all gs m).session_id ≡ some id
    → (m.session_id ≡ some id) ⊎ Any (λ g. Reads dir id g.log) gs
unfolding poll_all
session-own dir id [] m d h = inl h
session-own dir id (g ∷ gs) m d h =
    elim (session-own dir id gs (poll g.log g.now m) (directory-poll g.log g.now m ∙ d) h) [
      | inr later ↦ inr (inr later)
      | inl now ↦ elim (session-poll dir id g.now g.log m d now) [
        | inl old ↦ inl old
        | inr read ↦ inr (inl read)
      ]
    ]

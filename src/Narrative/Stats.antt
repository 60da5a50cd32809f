-- ===== src/Narrative/Stats.antt =====
-- run_narrative.py, _build_stats: the counts of a run's events by kind.
use orchestrator_service.Prelude.{
  ℕ, ◌+◌, ◌≡◌, refl, inl, inr, Bool-cases, Bool, true, false, List, [], ◌∷◌, length, if◌then◌else◌,
  arith, sym,
}
use orchestrator_service.Narrative.Events.{
  Kind, delegation, delegation_done, error_kind, tool, webfetch, read, write, glob, checklist,
  model, watchdog, exit_kind, Event,
}
use orchestrator_service.Narrative.Timeline.{
  kind_number, same_kind, same_kind_left, same_kind_right,
}

-- The dict `counts`, as the list of its entries.
abbrev pub Counts : Type 0
Counts = List (Kind × ℕ)

-- counts.get(k, 0)
unfoldable pub count_of : Kind → Counts → ℕ
count_of k [] = 0
count_of k ((j, n) ∷ counts) = if same_kind j k then n else count_of k counts

-- counts[k] = n
unfoldable pub set_count : Kind → ℕ → Counts → Counts
set_count k n [] = (k, n) ∷ []
set_count k n ((j, m) ∷ counts) =
    let rest = set_count k n counts in if same_kind j k then (j, n) ∷ counts else (j, m) ∷ rest

unfoldable pub count_kinds : Counts → List Event → Counts
count_kinds counts [] = counts
count_kinds counts (e ∷ es) = count_kinds (set_count e.kind (count_of e.kind counts + 1) counts) es

pub record Stats : Type 0 where
  pub tool_calls : ℕ
  pub delegations : ℕ
  pub errors : ℕ
  pub exits : ℕ
  pub watchdog_lines : ℕ
  pub files_read : ℕ
  pub files_written : ℕ
  pub globs : ℕ
  pub webfetches : ℕ
  pub checklists : ℕ
  pub model_markers : ℕ
  pub total_events : ℕ

unfoldable pub build_stats : List Event → Stats
unfolding count_kinds
build_stats events =
    let counts = count_kinds [] events in
    record {
      tool_calls = count_of tool counts;
      delegations = count_of delegation counts;
      errors = count_of error_kind counts;
      exits = count_of exit_kind counts;
      watchdog_lines = count_of watchdog counts;
      files_read = count_of read counts;
      files_written = count_of write counts;
      globs = count_of glob counts;
      webfetches = count_of webfetch counts;
      checklists = count_of checklist counts;
      model_markers = count_of model counts;
      total_events = length events;
    }

-- The number of events of a kind.
abbrev pub of_kind : Kind → List Event → ℕ
of_kind k [] = 0
of_kind k (e ∷ es) = (if same_kind e.kind k then 1 else 0) + of_kind k es

if_once : (b : Bool) (n m r : ℕ) → (if b then n else r) ≡ (if b then n else if b then m else r)
if_once b n m r = ground arith

other_first :
    (i j k : Kind) (n m r : ℕ)
    → same_kind i j ≡ false
    → (if same_kind i k then m else if same_kind j k then n else r)
      ≡ (if same_kind j k then n else if same_kind i k then m else r)
other_first i j k n m r e = elim (Bool-cases (same_kind j k)) [
  | inl f ↦ let alike = same_kind_right i j k f in ground arith
  | inr f ↦ ground arith
]

count_of-set_count :
    (j k : Kind) (n : ℕ) (counts : Counts)
    → count_of k (set_count j n counts) ≡ (if same_kind j k then n else count_of k counts)
unfolding count_of set_count
count_of-set_count j k n [] = refl
count_of-set_count j k n ((i, m) ∷ counts) = elim (Bool-cases (same_kind i j)) [
  | inl e ↦ rw (e, same_kind_left i j k e) (if_once (same_kind j k) n m (count_of k counts))
  | inr e ↦
      rw e (rw (count_of-set_count j k n counts) (other_first i j k n m (count_of k counts) e))
]

-- Two kinds that are the same have the same count, and so the loop adds one for each event.
count_of_same :
    (j k : Kind) (counts : Counts) → same_kind j k ≡ true → count_of j counts ≡ count_of k counts
unfolding count_of
count_of_same j k [] h = refl
count_of_same j k ((i, m) ∷ counts) h =
    rw (same_kind_right i j k h, count_of_same j k counts h) refl

count_of-count_kinds :
    (k : Kind) (counts : Counts) (es : List Event)
    → count_of k (count_kinds counts es) ≡ count_of k counts + of_kind k es
unfolding count_kinds
count_of-count_kinds k counts [] = omega arith
count_of-count_kinds k counts (e ∷ es) =
    let n = count_of e.kind counts + 1 in
    let rest = count_of-count_kinds k (set_count e.kind n counts) es in
    let here = count_of-set_count e.kind k n counts in
    elim (Bool-cases (same_kind e.kind k)) [
      | inl same ↦ let alike = count_of_same e.kind k counts same in ground arith
      | inr other ↦ ground arith
    ]

count_kinds-of_kind : (k : Kind) (es : List Event) → count_of k (count_kinds [] es) ≡ of_kind k es
unfolding count_of
count_kinds-of_kind k es = omega (arith, count_of-count_kinds k [] es)

-- The sum over all kinds.
abbrev pub over_kinds : (Kind → ℕ) → ℕ
over_kinds f =
    f tool
    + f delegation
    + f error_kind
    + f exit_kind
    + f watchdog
    + f read
    + f write
    + f glob
    + f webfetch
    + f checklist
    + f model
    + f delegation_done

one_kind : (k : Kind) → over_kinds (λ j. if same_kind k j then 1 else 0) ≡ 1
unfolding same_kind kind_number
one_kind delegation = refl
one_kind delegation_done = refl
one_kind error_kind = refl
one_kind tool = refl
one_kind webfetch = refl
one_kind read = refl
one_kind write = refl
one_kind glob = refl
one_kind checklist = refl
one_kind model = refl
one_kind watchdog = refl
one_kind exit_kind = refl

over_kinds-of_kind : (es : List Event) → over_kinds (λ k. of_kind k es) ≡ length es
over_kinds-of_kind [] = refl
over_kinds-of_kind (e ∷ es) = omega (arith, over_kinds-of_kind es, one_kind e.kind)

-- Every number that the statistics give is the number of the events of its kind, and together with
-- the returns of subagents, which they do not count, these numbers add up to the total.
pub build_stats_lem :
    (es : List Event)
    → let s = build_stats es in
      (s.tool_calls ≡ of_kind tool es)
      × (s.delegations ≡ of_kind delegation es)
      × (s.errors ≡ of_kind error_kind es)
      × (s.exits ≡ of_kind exit_kind es)
      × (s.watchdog_lines ≡ of_kind watchdog es)
      × (s.files_read ≡ of_kind read es)
      × (s.files_written ≡ of_kind write es)
      × (s.globs ≡ of_kind glob es)
      × (s.webfetches ≡ of_kind webfetch es)
      × (s.checklists ≡ of_kind checklist es)
      × (s.model_markers ≡ of_kind model es)
      × (s.total_events
          ≡ s.tool_calls
            + s.delegations
            + s.errors
            + s.exits
            + s.watchdog_lines
            + s.files_read
            + s.files_written
            + s.globs
            + s.webfetches
            + s.checklists
            + s.model_markers
            + of_kind delegation_done es)
unfolding build_stats
build_stats_lem es = (
  count_kinds-of_kind tool es,
  count_kinds-of_kind delegation es,
  count_kinds-of_kind error_kind es,
  count_kinds-of_kind exit_kind es,
  count_kinds-of_kind watchdog es,
  count_kinds-of_kind read es,
  count_kinds-of_kind write es,
  count_kinds-of_kind glob es,
  count_kinds-of_kind webfetch es,
  count_kinds-of_kind checklist es,
  count_kinds-of_kind model es,
  rw
      (
        count_kinds-of_kind tool es,
        count_kinds-of_kind delegation es,
        count_kinds-of_kind error_kind es,
        count_kinds-of_kind exit_kind es,
        count_kinds-of_kind watchdog es,
        count_kinds-of_kind read es,
        count_kinds-of_kind write es,
        count_kinds-of_kind glob es,
        count_kinds-of_kind webfetch es,
        count_kinds-of_kind checklist es,
        count_kinds-of_kind model es,
      )
      (sym (over_kinds-of_kind es)),
)

-- ===== src/Narrative/Grouping.antt =====
-- run_narrative.py, _group_timeline: what grouping keeps.
use orchestrator_service.Prelude.{
  ℕ, zero, suc, ◌≤◌, Text, Bool, true, false, ◌≡◌, refl, ap, ◌∙◌, sym, inl, inr, Option, none, some,
  List, [], ◌∷◌, ◌++◌, map, length, All, arith, Bool-cases,
}
use mathlib.Core.List.{append_assoc}
use orchestrator_service.Narrative.Events.{Kind, Event}
use orchestrator_service.Narrative.Timeline.{
  Entry, same_kind, same_kind_eq, is_groupable, run_from, behind_run, grouped_entry, entry_for_run,
  group_loop, group_timeline, entry_of, build_timeline,
}

module _ {Real : Type 0} where
  -- The events that an entry shows: itself, or its items.
  abbrev pub shown : Entry Real → List (Kind × Text)
  shown e = elim e.items [
    | none ↦ (e.kind, e.detail) ∷ []
    | some ds ↦ map (λ (d : Text). (e.kind, d)) ds
  ]

  abbrev pub all_shown : List (Entry Real) → List (Kind × Text)
  all_shown [] = []
  all_shown (e ∷ es) = shown e ++ all_shown es

  -- An entry that groups no others.
  abbrev pub IsSingle : Entry Real → Type 0
  IsSingle e = e.items ≡ none

  -- No two neighbours are of one kind that is grouped.
  abbrev pub StartsApart : Kind → List (Entry Real) → Type 0
  StartsApart k [] = Unit
  StartsApart k (e ∷ es) = is_groupable k ≡ true → same_kind e.kind k ≡ false

  abbrev pub AreApart : List (Entry Real) → Type 0
  AreApart [] = Unit
  AreApart (e ∷ es) = StartsApart e.kind es × AreApart es

  behind_run-shorter : (k : Kind) (es : List (Entry Real)) → length (behind_run k es) ≤ length es
  unfolding behind_run
  behind_run-shorter k [] = omega arith
  behind_run-shorter k (e ∷ es) = ground (arith, behind_run-shorter k es)

  behind_run-All :
      (k : Kind) (es : List (Entry Real)) → All IsSingle es → All IsSingle (behind_run k es)
  unfolding behind_run
  behind_run-All k [] h = tt
  behind_run-All k (e ∷ es) (h, hs) = elim (Bool-cases (same_kind e.kind k)) [
    | inl s ↦ rw s (behind_run-All k es hs)
    | inr s ↦ rw s (h, hs)
  ]

  -- A run and what is behind it show what they showed together.
  all_shown-run :
      (k : Kind) (es : List (Entry Real))
      → all_shown es ≡ all_shown (run_from k es) ++ all_shown (behind_run k es)
  unfolding run_from behind_run
  all_shown-run k [] = refl
  all_shown-run k (e ∷ es) = elim (Bool-cases (same_kind e.kind k)) [
    | inl s ↦
        rw (s, append_assoc (shown e) (all_shown (run_from k es)) (all_shown (behind_run k es)))
          (ap (λ l. shown e ++ l) (all_shown-run k es))
    | inr s ↦ rw s refl
  ]

  -- The details of a run, under its one kind, are what its entries show.
  run_from-shown :
      (k : Kind) (es : List (Entry Real))
      → All IsSingle es
      → map (λ (d : Text). (k, d)) (map (λ (r : Entry Real). r.detail) (run_from k es))
        ≡ all_shown (run_from k es)
  unfolding run_from
  run_from-shown k [] h = refl
  run_from-shown k (e ∷ es) (h, hs) = elim (Bool-cases (same_kind e.kind k)) [
    | inl s ↦
        rw (s, h, same_kind_eq e.kind k s) (ap (λ l. (k, e.detail) ∷ l) (run_from-shown k es hs))
    | inr s ↦ rw s refl
  ]

  not_grouped : (k : Kind) → is_groupable k ≡ false → (es : List (Entry Real)) → StartsApart k es
  not_grouped k g [] = tt
  not_grouped k g (e ∷ es) = λ t. cc

  behind_run-StartsApart : (k : Kind) (es : List (Entry Real)) → StartsApart k (behind_run k es)
  unfolding behind_run
  behind_run-StartsApart k [] = tt
  behind_run-StartsApart k (e ∷ es) = elim (Bool-cases (same_kind e.kind k)) [
    | inl s ↦ rw s (behind_run-StartsApart k es)
    | inr s ↦ rw s (λ h. s)
  ]

  module _ (decimal : ℕ → Text) where
    entry_for_run-kind :
        (e : Entry Real) (more : List (Entry Real)) → (entry_for_run decimal e more).kind ≡ e.kind
    unfolding entry_for_run grouped_entry
    entry_for_run-kind e [] = refl
    entry_for_run-kind e (r ∷ more) = refl

    entry_for_run-shown :
        (e : Entry Real) (es : List (Entry Real))
        → IsSingle e
        → All IsSingle es
        → shown (entry_for_run decimal e (run_from e.kind es))
          ≡ (e.kind, e.detail) ∷ all_shown (run_from e.kind es)
    unfolding entry_for_run grouped_entry
    entry_for_run-shown e es h hs =
        elim (run_from e.kind es)
            as (λ run.
              map (λ (d : Text). (e.kind, d)) (map (λ (r : Entry Real). r.detail) run)
                ≡ all_shown run
              → shown (entry_for_run decimal e run) ≡ (e.kind, e.detail) ∷ all_shown run) [
                | [] ↦ λ same. rw h refl
                | r ∷ rs ↦ λ same. ap (λ l. (e.kind, e.detail) ∷ l) same
              ]
          (run_from-shown e.kind es hs)

    group_loop-StartsApart :
        (k : Kind) (n : ℕ) (es : List (Entry Real))
        → StartsApart k es
        → StartsApart k (group_loop decimal n es)
    unfolding group_loop
    group_loop-StartsApart k zero es h = tt
    group_loop-StartsApart k (suc n) [] h = tt
    group_loop-StartsApart k (suc n) (e ∷ es) h = elim (Bool-cases (is_groupable e.kind)) [
      | inl g ↦ rw (g, entry_for_run-kind e (run_from e.kind es)) h
      | inr g ↦ rw g h
    ]

    group_loop-AreApart : (n : ℕ) (es : List (Entry Real)) → AreApart (group_loop decimal n es)
    unfolding group_loop
    group_loop-AreApart zero es = tt
    group_loop-AreApart (suc n) [] = tt
    group_loop-AreApart (suc n) (e ∷ es) = elim (Bool-cases (is_groupable e.kind)) [
      | inl g ↦
          rw (g, entry_for_run-kind e (run_from e.kind es))
            (
              group_loop-StartsApart e.kind n (behind_run e.kind es)
                  (behind_run-StartsApart e.kind es),
              group_loop-AreApart n (behind_run e.kind es),
            )
      | inr g ↦ rw g (not_grouped e.kind g (group_loop decimal n es), group_loop-AreApart n es)
    ]

    group_loop-shown :
        (n : ℕ) (es : List (Entry Real))
        → length es ≤ n
        → All IsSingle es
        → all_shown (group_loop decimal n es) ≡ all_shown es
    unfolding group_loop
    group_loop-shown zero [] le h = refl
    group_loop-shown zero (e ∷ es) le h = absurd (omega arith)
    group_loop-shown (suc n) [] le h = refl
    group_loop-shown (suc n) (e ∷ es) le (h, hs) = elim (Bool-cases (is_groupable e.kind)) [
      | inl g ↦
          let k = e.kind in
          let shorter : length (behind_run k es) ≤ n = omega (arith, behind_run-shorter k es) in
          let rest = group_loop-shown n (behind_run k es) shorter (behind_run-All k es hs) in
          rw (g, entry_for_run-shown e es h hs, rest, h)
            (ap (λ l. (k, e.detail) ∷ l) (sym (all_shown-run k es)))
      | inr g ↦ rw g (ap (λ l. shown e ++ l) (group_loop-shown n es (omega arith) hs))
    ]

  module _ (nothing : Real) (is_nothing : Real → Bool) (portion : Real → ℕ → ℕ → Real) where
    entries-IsSingle :
        (duration : Option Real) (n : ℕ) (events : List Event)
        → All IsSingle (map (entry_of nothing is_nothing portion duration n) events)
    unfolding entry_of
    entries-IsSingle duration n [] = tt
    entries-IsSingle duration n (e ∷ es) = (refl, entries-IsSingle duration n es)

    entries-shown :
        (duration : Option Real) (n : ℕ) (events : List Event)
        → all_shown (map (entry_of nothing is_nothing portion duration n) events)
          ≡ map (λ (e : Event). (e.kind, e.detail)) events
    unfolding entry_of
    entries-shown duration n [] = refl
    entries-shown duration n (e ∷ es) =
        ap (λ l. (e.kind, e.detail) ∷ l) (entries-shown duration n es)

    -- The grouped timeline of a run shows all its events, their kinds and details in their order,
    -- those of a group as its items; and no two neighbours are left that grouping would join.
    pub group_timeline-shown :
        (decimal : ℕ → Text) (events : List Event) (duration : Option Real)
        → let timeline = build_timeline nothing is_nothing portion events duration in
          (all_shown (group_timeline decimal timeline)
            ≡ map (λ (e : Event). (e.kind, e.detail)) events)
          × AreApart (group_timeline decimal timeline)
    unfolding group_timeline build_timeline
    group_timeline-shown decimal events duration =
        let n = length events in
        let entries = map (entry_of nothing is_nothing portion duration n) events in
        (
          group_loop-shown decimal (length entries) entries (omega arith)
                (entries-IsSingle duration n events)
              ∙ entries-shown duration n events,
          group_loop-AreApart decimal (length entries) entries,
        )

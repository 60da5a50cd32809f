-- ===== src/Runner/Redacted/Steady.antt =====
-- What a redaction cannot make match: the patterns of a beginning and letters or digits behind it.
use orchestrator_service.Prelude.{
  ℕ, zero, suc, ◌-◌, ◌≤◌, Text, codes, true, false, not, ◌≡◌, refl, ◌⊎◌, inl, inr, none, [], ◌∷◌,
  ◌++◌, length, drop, all, ◌==◌, starts_with, arith, Option-cases, Bool-cases,
}
use orchestrator_service.Runner.Slug.{is_alnum}
use orchestrator_service.Runner.Stream.{run_of}
use orchestrator_service.Runner.Comments.{Pattern, prefixed, redact}

-- The text agrees with another one up to its first bracket.
abbrev Agrees : Text → Text → Type 0
Agrees [] u = Unit {0}
Agrees (d ∷ o) u = (d ≡ b'[') ⊎ ((v : Text) × (u ≡ d ∷ v) × Agrees o v)

redact-Agrees : (q : Pattern) (u : Text) → Agrees (redact q zero u) u
unfolding redact
redact-Agrees q [] = tt
redact-Agrees q (c ∷ t) = elim (Option-cases (q (c ∷ t))) [
  | inl e ↦ rw (e, redact) (inr (t, refl, redact-Agrees q t))
  | inr (n, e) ↦ rw (e, redact) (inl refl)
]

starts_with-Agrees :
    (pre o u : Text)
    → all (λ c. not (c == b'[')) pre ≡ true
    → Agrees o u
    → starts_with pre o ≡ true
    → (starts_with pre u ≡ true) × Agrees (drop (length pre) o) (drop (length pre) u)
unfolding starts_with
starts_with-Agrees [] o u plain a h = (refl, a)
starts_with-Agrees (p ∷ pre) [] u plain a h = cc
starts_with-Agrees (p ∷ pre) (d ∷ o) u plain (inl e) h = absurd (ground arith)
starts_with-Agrees (p ∷ pre) (d ∷ o) u plain (inr (v, e, a)) h =
    let (begins, behind) = starts_with-Agrees pre o v (ground arith) a (ground arith) in
    rw e (ground arith, behind)

bracket_plain : is_alnum b'[' ≡ false
unfolding is_alnum
bracket_plain = refl

length-run_of-Agrees :
    (o u : Text) → Agrees o u → length (run_of is_alnum o) ≤ length (run_of is_alnum u)
unfolding run_of
length-run_of-Agrees [] u a = omega arith
length-run_of-Agrees (d ∷ o) u (inl e) = rw (e, bracket_plain) (omega arith)
length-run_of-Agrees (d ∷ o) u (inr (v, e, a)) = rw e (ground (arith, length-run_of-Agrees o v a))

-- A pattern that does not match at a text does not match at what agrees with it.
prefixed-Agrees :
    (pre : Text) (least : ℕ) (o u : Text)
    → all (λ c. not (c == b'[')) pre ≡ true
    → Agrees o u
    → prefixed pre is_alnum least u ≡ none
    → prefixed pre is_alnum least o ≡ none
unfolding prefixed
prefixed-Agrees pre least o u plain a h = elim (Bool-cases (starts_with pre o)) [
  | inr e ↦ rw e refl
  | inl e ↦
      let (begins, behind) = starts_with-Agrees pre o u plain a e in
      ground
        (arith, begins, length-run_of-Agrees (drop (length pre) o) (drop (length pre) u) behind)
]

-- The pattern matches at no place of the text.
abbrev pub Free : Pattern → Text → Type 0
Free p [] = p [] ≡ none
Free p (c ∷ t) = (p (c ∷ t) ≡ none) × Free p t

abbrev pub mark : Text
mark = codes "[REDACTED]"

-- A pattern that no redaction can make match.
pub record IsSteady (p : Pattern) : Type 0 where
  keeps : (o u : Text) → Agrees o u → p u ≡ none → p o ≡ none
  marked : (t : Text) → Free p t → Free p (mark ++ t)
  ends : p [] ≡ none

module _ (p q : Pattern) (steady : IsSteady p) where
  -- A redaction leaves the text free of a pattern that it was free of.
  pub redact-Free : (skip : ℕ) (t : Text) → Free p t → Free p (redact q skip t)
  unfolding redact
  redact-Free zero [] h = h
  redact-Free (suc k) [] h = h
  redact-Free (suc k) (c ∷ t) (h, hs) = redact-Free k t hs
  redact-Free zero (c ∷ t) (h, hs) = elim (Option-cases (q (c ∷ t))) [
    | inr (n, e) ↦ rw (e, redact) (steady.marked (redact q (n - 1) t) (redact-Free (n - 1) t hs))
    | inl e ↦
        let agrees : Agrees (c ∷ redact q zero t) (c ∷ t) = inr (t, refl, redact-Agrees q t) in
        rw (e, redact) (steady.keeps (c ∷ redact q zero t) (c ∷ t) agrees h, redact-Free zero t hs)
  ]

  -- The redaction of a pattern that matches wherever this one does leaves the text free of this one.
  pub redact_own-Free :
      ((u : Text) → q u ≡ none → p u ≡ none) → (skip : ℕ) (t : Text) → Free p (redact q skip t)
  unfolding redact
  redact_own-Free wider zero [] = steady.ends
  redact_own-Free wider (suc k) [] = steady.ends
  redact_own-Free wider (suc k) (c ∷ t) = redact_own-Free wider k t
  redact_own-Free wider zero (c ∷ t) = elim (Option-cases (q (c ∷ t))) [
    | inr (n, e) ↦
        rw (e, redact) (steady.marked (redact q (n - 1) t) (redact_own-Free wider (n - 1) t))
    | inl e ↦
        let agrees : Agrees (c ∷ redact q zero t) (c ∷ t) = inr (t, refl, redact-Agrees q t) in
        rw (e, redact)
          (
            steady.keeps (c ∷ redact q zero t) (c ∷ t) agrees (wider (c ∷ t) e),
            redact_own-Free wider zero t,
          )
  ]

-- A beginning without brackets, whose first character is not in the mark.
module _ (first : ℕ) (rest : Text) (least : ℕ)
    (plain : all (λ c. not (c == b'[')) (first ∷ rest) ≡ true)
    (unmarked : all (λ c. not (first == c)) mark ≡ true) where
  abbrev pub form : Pattern
  form = prefixed (first ∷ rest) is_alnum least

  marked_form :
      (s t : Text) → all (λ c. not (first == c)) s ≡ true → Free form t → Free form (s ++ t)
  unfolding prefixed starts_with
  marked_form [] t h free = free
  marked_form (c ∷ s) t h free = (ground arith, marked_form s t (ground arith) free)

  pub form-IsSteady : IsSteady form
  unfolding prefixed starts_with
  form-IsSteady = record {
    keeps = λ o u a h. prefixed-Agrees (first ∷ rest) least o u plain a h;
    marked = λ t free. marked_form mark t unmarked free;
    ends = refl;
  }

-- ===== src/App/Branch.antt =====
-- app.py, _safe_branch: the branch that a clone or a checkout is given.
use mathlib.Core.List.{reverse-reverse, reverse-append}
use orchestrator_service.Prelude.{
  ℕ, Text, codes, Bool, true, false, ◌&&◌, ◌||◌, not, ◌≡◌, refl, [], ◌∷◌, all, leb, ◌==◌,
  if◌then◌else◌, is_empty, starts_with, contains, strip, arith, Bool-cases, inl, inr, ◌⊎◌, ◌≢◌,
  ==_iff, ap, sym, ◌∙◌, ◌++◌, reverse, lstrip, is_space,
}
use orchestrator_service.Json.{Json, text}

-- [A-Za-z0-9]
unfoldable pub is_alnum : ℕ → Bool
is_alnum c = (leb b'A' c && leb c b'Z') || (leb b'a' c && leb c b'z') || (leb b'0' c && leb c b'9')

-- [A-Za-z0-9._/-]
unfoldable pub branch_char : ℕ → Bool
unfolding is_alnum
branch_char c = is_alnum c || c == b'.' || c == b'_' || c == b'/' || c == b'-'

-- `[A-Za-z0-9._/-]*$`: the `$` also matches before a newline at the end.
unfoldable pub branch_rest : Text → Bool
unfolding branch_char
branch_rest [] = true
branch_rest (c ∷ t) = (c == 10 && is_empty t) || (branch_char c && branch_rest t)

-- _BRANCH_RE.match
unfoldable pub matches_branch : Text → Bool
unfolding branch_rest is_alnum
matches_branch [] = false
matches_branch (c ∷ t) = is_alnum c && branch_rest t

-- What is not given to git: nothing at all, a flag, a path upwards, or other characters.
unfoldable pub is_refused : Text → Bool
unfolding matches_branch
is_refused branch =
    is_empty branch
    || starts_with (codes "-") branch
    || contains (codes "..") branch
    || not (matches_branch branch)

unfoldable pub safe_branch : Json → Text
unfolding is_refused
safe_branch (text t) = if is_refused (strip t) then codes "main" else strip t
safe_branch _ = codes "main"

-- A name that git takes for no flag and no path upwards, of letters, digits and `._/-` only.
pub record IsSafe (branch : Text) : Type 0 where
  pub named : is_empty branch ≡ false
  pub chars : all branch_char branch ≡ true
  pub no_flag : starts_with (codes "-") branch ≡ false
  pub no_parent : contains (codes "..") branch ≡ false

main-IsSafe : IsSafe (codes "main")
unfolding branch_char starts_with contains
main-IsSafe = record { named = refl; chars = refl; no_flag = refl; no_parent = refl }

-- The expression lets pass no other character than a newline at the end.
branch_rest-chars :
    (t : Text)
    → branch_rest t ≡ true
    → (all branch_char t ≡ true) ⊎ ((s : Text) × (t ≡ s ++ 10 ∷ []))
unfolding branch_rest
branch_rest-chars [] h = inl refl
branch_rest-chars (c ∷ []) h = elim (Bool-cases (c == 10)) [
  | inl e ↦ inr ([], ap (λ x. x ∷ []) ((==_iff c 10).0 e))
  | inr e ↦ inl (ground arith)
]
branch_rest-chars (c ∷ d ∷ t) h =
    let more : branch_rest (d ∷ t) ≡ true = ground arith in
    elim (branch_rest-chars (d ∷ t) more) [
      | inl e ↦ inl (ground arith)
      | inr (s, e) ↦ inr (c ∷ s, ap (λ u. c ∷ u) e)
    ]

matches_branch-chars :
    (t : Text)
    → matches_branch t ≡ true
    → (all branch_char t ≡ true) ⊎ ((s : Text) × (t ≡ s ++ 10 ∷ []))
unfolding matches_branch branch_char
matches_branch-chars [] h = inl refl
matches_branch-chars (c ∷ t) h = elim (branch_rest-chars t (ground arith)) [
  | inl e ↦ inl (ground arith)
  | inr (s, e) ↦ inr (c ∷ s, ap (λ u. c ∷ u) e)
]

lstrip-newline : (w s : Text) → lstrip w ≢ 10 ∷ s
unfolding lstrip is_space
lstrip-newline [] s h = cc
lstrip-newline (c ∷ w) s h = ground (arith, lstrip-newline w s)

strip-newline : (t s : Text) → strip t ≢ s ++ 10 ∷ []
unfolding strip
strip-newline t s h =
    let u = lstrip (reverse (lstrip t)) in
    lstrip-newline (reverse (lstrip t)) (reverse s)
      (sym (reverse-reverse u) ∙ ap reverse h ∙ reverse-append s (10 ∷ []))

-- Whatever the payload holds as the default branch, the branch that is used is not empty, no flag and
-- no path upwards, and holds only letters, digits and `._/-`.
pub safe_branch-IsSafe : (v : Json) → IsSafe (safe_branch v)
unfolding safe_branch
safe_branch-IsSafe (text t) = elim (Bool-cases (is_refused (strip t))) [
  | inl e ↦ rw e main-IsSafe
  | inr e ↦
      let fits : matches_branch (strip t) ≡ true = unfold is_refused in ground arith in
      let chars : all branch_char (strip t) ≡ true = elim (matches_branch-chars (strip t) fits) [
        | inl c ↦ c
        | inr (s, at_end) ↦ absurd (strip-newline t s at_end)
      ] in
      rw e (record {
        named = unfold is_refused in ground arith;
        chars = chars;
        no_flag = unfold is_refused in ground arith;
        no_parent = unfold is_refused in ground arith;
      })
]
safe_branch-IsSafe _ = main-IsSafe

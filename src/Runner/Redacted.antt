-- ===== src/Runner/Redacted.antt =====
-- runner.py, _sanitize_for_comment: no token of a known form is left in a comment.
mod Steady
use orchestrator_service.Prelude.{
  ℕ, zero, suc, ◌+◌, ◌-◌, ◌≤◌, Text, codes, Bool, true, false, not, ◌&&◌, ◌≡◌, ◌≢◌, refl, sym, ap,
  ◌∙◌, ◌⊎◌, inl, inr, Option, none, some, List, [], ◌∷◌, ◌++◌, length, length-append, drop, all,
  leb, ◌==◌, if◌then◌else◌, starts_with, arith, Option-cases, Bool-cases, All, Any,
}
use mathlib.Core.Path.{subst}
use orchestrator_service.Runner.Slug.{is_alnum}
use orchestrator_service.Runner.Stream.{run_of}
use orchestrator_service.Runner.Comments.{
  Pattern, prefixed, either, classic_token, fine_token, api_key, bearer, assignment, redact,
  sanitize_for_comment,
}
use orchestrator_service.Runner.Redacted.Steady.{
  Free, IsSteady, redact-Free, redact_own-Free, form-IsSteady,
}

-- A token: a beginning, and behind it so many letters or digits, or more.
pub record Form : Type 0 where
  pub begins : Text
  pub least : ℕ

abbrev pattern_of : Form → Pattern
pattern_of f = prefixed f.begins is_alnum f.least

abbrev HoldsNone : Text → Form → Type 0
HoldsNone t f =
    (front body back : Text)
    → all is_alnum body ≡ true
    → f.least ≤ length body
    → t ≢ front ++ (f.begins ++ (body ++ back))

drop-append : (s t : Text) → drop (length s) (s ++ t) ≡ t
drop-append [] t = refl
drop-append (c ∷ s) t = drop-append s t

starts_with-append : (s t : Text) → starts_with s (s ++ t) ≡ true
unfolding starts_with
starts_with-append [] t = refl
starts_with-append (c ∷ s) t = ground (arith, starts_with-append s t)

length-run_of-append :
    (body back : Text)
    → all is_alnum body ≡ true
    → length body ≤ length (run_of is_alnum (body ++ back))
unfolding run_of
length-run_of-append [] back h = omega arith
length-run_of-append (c ∷ body) back h = ground (arith, length-run_of-append body back)

matches_here :
    (f : Form) (body back : Text)
    → all is_alnum body ≡ true
    → f.least ≤ length body
    → pattern_of f (f.begins ++ (body ++ back)) ≢ none
unfolding prefixed
matches_here f body back plain long = λ h. absurd (
    ground (
      arith,
      starts_with-append f.begins (body ++ back),
      length-run_of-append body back plain,
      rw (starts_with-append, drop-append) at h,
    ))

Free-here : (p : Pattern) (t : Text) → Free p t → p t ≡ none
Free-here p [] h = h
Free-here p (c ∷ t) (h, hs) = h

Free-behind :
    (f : Form) (front t body back : Text)
    → Free (pattern_of f) t
    → all is_alnum body ≡ true
    → f.least ≤ length body
    → t ≢ front ++ (f.begins ++ (body ++ back))
Free-behind f [] t body back free plain long = λ e.
    matches_here f body back plain long
      (ap (pattern_of f) (sym e) ∙ Free-here (pattern_of f) t free)
Free-behind f (c ∷ front) [] body back free plain long = λ e. cc
Free-behind f (c ∷ front) (d ∷ t) body back (here, free) plain long =
    λ e. Free-behind f front t body back free plain long (cc)

HoldsNone-Free : (f : Form) (t : Text) → Free (pattern_of f) t → HoldsNone t f
HoldsNone-Free f t free front body back plain long = Free-behind f front t body back free plain long

-- The forms of the GitHub tokens and of the API keys.
abbrev pub github_form : ℕ → Form
github_form third = record { begins = b'g' ∷ b'h' ∷ third ∷ b'_' ∷ []; least = 36 }

abbrev pub fine_form : Form
fine_form = record { begins = codes "github_pat_"; least = 22 }

abbrev pub key_form : Form
key_form = record { begins = codes "sk-"; least = 20 }

abbrev pub token_forms : List Form
token_forms =
    github_form b'p'
    ∷ github_form b'o'
    ∷ github_form b'u'
    ∷ github_form b's'
    ∷ github_form b'r'
    ∷ fine_form
    ∷ key_form
    ∷ []

-- A match of one of the five GitHub forms is one of the whole pattern.
either-none : (p q : Pattern) (u : Text) → either p q u ≡ none → (p u ≡ none) × (q u ≡ none)
unfolding either
either-none p q u h = elim (Option-cases (p u)) [
  | inl e ↦ (e, rw (e, either) at h)
  | inr (n, e) ↦ absurd (cc (rw (e, either) at h))
]

-- The pattern of the GitHub tokens with the third letter.
abbrev github : ℕ → Pattern
github third = prefixed (b'g' ∷ b'h' ∷ third ∷ b'_' ∷ []) is_alnum 36

classic_none :
    (u : Text)
    → classic_token u ≡ none
    → (github b'p' u ≡ none)
      × (github b'o' u ≡ none)
      × (github b'u' u ≡ none)
      × (github b's' u ≡ none)
      × (github b'r' u ≡ none)
unfolding classic_token
classic_none u h =
    let (p, h1) =
      either-none (github b'p')
        (either (github b'o') (either (github b'u') (either (github b's') (github b'r')))) u h in
    let (o, h2) =
      either-none (github b'o') (either (github b'u') (either (github b's') (github b'r'))) u h1 in
    let (third, h3) = either-none (github b'u') (either (github b's') (github b'r')) u h2 in
    let (s, r) = either-none (github b's') (github b'r') u h3 in (p, o, third, s, r)

module _ (t : Text) where
  abbrev classic_done : Text
  classic_done = redact classic_token zero t

  abbrev fine_done : Text
  fine_done = redact fine_token zero classic_done

  -- What the later redactions keep.
  behind_fine : (p : Pattern) → IsSteady p → Free p fine_done → Free p (sanitize_for_comment t)
  unfolding sanitize_for_comment
  behind_fine p steady free =
      redact-Free p assignment steady zero (redact bearer zero (redact api_key zero fine_done)) (
        redact-Free p bearer steady zero (redact api_key zero fine_done)
          (redact-Free p api_key steady zero fine_done free))

  behind_classic :
      (p : Pattern)
      → IsSteady p
      → ((u : Text) → classic_token u ≡ none → p u ≡ none)
      → Free p (sanitize_for_comment t)
  behind_classic p steady wider = behind_fine p steady (
      redact-Free p fine_token steady zero classic_done
        (redact_own-Free p classic_token steady wider zero t))

  github-Free :
      (third : ℕ)
      → all (λ c. not (c == b'[')) (b'g' ∷ b'h' ∷ third ∷ b'_' ∷ []) ≡ true
      → ((u : Text) → classic_token u ≡ none → github third u ≡ none)
      → Free (github third) (sanitize_for_comment t)
  github-Free third plain wider =
      behind_classic (github third) (form-IsSteady b'g' (b'h' ∷ third ∷ b'_' ∷ []) 36 plain refl)
        wider

  fine-Free : Free (prefixed (codes "github_pat_") is_alnum 22) (sanitize_for_comment t)
  unfolding fine_token
  fine-Free =
      let steady = form-IsSteady b'g' (codes "ithub_pat_") 22 refl refl in
      behind_fine fine_token steady
        (redact_own-Free fine_token fine_token steady (λ u h. h) zero classic_done)

  key-Free : Free (prefixed (codes "sk-") is_alnum 20) (sanitize_for_comment t)
  unfolding api_key sanitize_for_comment
  key-Free =
      let steady = form-IsSteady b's' (codes "k-") 20 refl refl in
      redact-Free api_key assignment steady zero
        (redact bearer zero (redact api_key zero fine_done))
        (redact-Free api_key bearer steady zero (redact api_key zero fine_done)
          (redact_own-Free api_key api_key steady (λ u h. h) zero fine_done))

sanitize_for_comment-HoldsNone : (t : Text) → All (HoldsNone (sanitize_for_comment t)) token_forms
sanitize_for_comment-HoldsNone t =
    let clean = λ (f : Form). HoldsNone-Free f (sanitize_for_comment t) in
    (
      clean (github_form b'p') (github-Free t b'p' refl (λ u h. (classic_none u h).0)),
      (
        clean (github_form b'o') (github-Free t b'o' refl (λ u h. (classic_none u h).1)),
        (
          clean (github_form b'u') (github-Free t b'u' refl (λ u h. (classic_none u h).2)),
          (
            clean (github_form b's') (github-Free t b's' refl (λ u h. (classic_none u h).3)),
            (
              clean (github_form b'r') (github-Free t b'r' refl (λ u h. (classic_none u h).4)),
              (clean fine_form (fine-Free t), (clean key_form (key-Free t), tt)),
            ),
          ),
        ),
      ),
    )

of_All : (P : Form → Type 0) (f : Form) (fs : List Form) → All P fs → Any (λ g. g ≡ f) fs → P f
of_All P f [] h a = elim a [ ]
of_All P f (g ∷ fs) (h, hs) (inl e) = subst P e h
of_All P f (g ∷ fs) (h, hs) (inr a) = of_All P f fs hs a

-- Whatever the text, no place of the comment holds a GitHub token of a classic form with 36 letters
-- or digits, one of the fine-grained form with 22, or an API key with 20, nor a longer one: neither
-- one of the text nor one that a redaction brought together.
pub sanitize_for_comment-ne-token :
    (t front body back : Text) (f : Form)
    → Any (λ g. g ≡ f) token_forms
    → all is_alnum body ≡ true
    → f.least ≤ length body
    → sanitize_for_comment t ≢ front ++ (f.begins ++ (body ++ back))
sanitize_for_comment-ne-token t front body back f known =
    of_All (HoldsNone (sanitize_for_comment t)) f token_forms (sanitize_for_comment-HoldsNone t)
      known front body back

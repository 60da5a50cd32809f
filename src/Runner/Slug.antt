-- ===== src/Runner/Slug.antt =====
-- runner.py: the names of a dispatch's log files, and dashboard.py, `_valid_run_stem`, which tells
-- the names that it serves.
use orchestrator_service.Prelude.{
  ℕ, Text, codes, Bool, true, ◌&&◌, ◌||◌, not, Option, none, some, ◌≡◌, refl, [], ◌∷◌, ◌++◌, map,
  all, leb, ◌==◌, if◌then◌else◌, is_empty, arith, Bool-cases, inl, inr,
}

pub record DispatchContext : Type 0 where
  pub repo_full_name : Text
  pub issue_number : Text  -- its decimal digits
  pub trigger_label : Option Text

-- c.isalnum(), for ASCII
unfoldable pub is_alnum : ℕ → Bool
is_alnum c = (leb b'A' c && leb c b'Z') || (leb b'a' c && leb c b'z') || (leb b'0' c && leb c b'9')

-- [A-Za-z0-9_-]
unfoldable pub is_safe : ℕ → Bool
unfolding is_alnum
is_safe c = is_alnum c || c == b'-' || c == b'_'

-- _SLUG_SAFE_RE.sub("-", value)
unfoldable pub slug_segment : Text → Text
slug_segment = map (λ c. if is_safe c then c else b'-')

-- full_name.replace("/", "__")
unfoldable pub double_slashes : Text → Text
double_slashes [] = []
double_slashes (c ∷ t) =
    let rest = double_slashes t in if c == b'/' then b'_' ∷ b'_' ∷ rest else c ∷ rest

unfoldable pub slug_repo : Text → Text
unfolding slug_segment double_slashes
slug_repo full_name = slug_segment (double_slashes full_name)

repo_part : Option DispatchContext → Text
repo_part none = codes "adhoc"
repo_part (some ctx) = slug_repo ctx.repo_full_name

issue_part : Option DispatchContext → Text
issue_part none = codes "no-issue"
issue_part (some ctx) = codes "issue-" ++ ctx.issue_number

-- An empty workflow name is falsy.
workflow_part : Option Text → Text
workflow_part none = codes "adhoc"
workflow_part (some w) = if is_empty w then codes "adhoc" else slug_segment w

unfoldable pub dispatch_slug : Option DispatchContext → Option Text → Text → Text
unfolding repo_part issue_part workflow_part slug_repo
dispatch_slug ctx workflow ts =
    codes "prompt-"
    ++ (repo_part ctx
        ++ (codes "__"
            ++ (issue_part ctx ++ (codes "__" ++ (workflow_part workflow ++ (codes "__" ++ ts))))))

-- The stem of the file that `mkstemp` makes with the prefix f"{slug}-".
unfoldable pub prompt_stem : Text → Text → Text
prompt_stem slug random = slug ++ (b'-' ∷ random)

-- dashboard.py
unfoldable pub valid_run_stem : Text → Bool
valid_run_stem stem = not (is_empty stem) && all (λ c. is_alnum c || c == b'-' || c == b'_') stem

all_safe-append :
    (xs ys : Text) → all is_safe xs ≡ true → all is_safe ys ≡ true → all is_safe (xs ++ ys) ≡ true
all_safe-append [] ys hx hy = hy
all_safe-append (x ∷ xs) ys hx hy = ground (arith, all_safe-append xs ys)

all_safe-slug_segment : (t : Text) → all is_safe (slug_segment t) ≡ true
unfolding slug_segment is_safe
all_safe-slug_segment [] = refl
all_safe-slug_segment (c ∷ t) = ground (arith, all_safe-slug_segment t)

all_safe-repo_part : (ctx : Option DispatchContext) → all is_safe (repo_part ctx) ≡ true
unfolding repo_part slug_repo is_safe
all_safe-repo_part none = refl
all_safe-repo_part (some ctx) = all_safe-slug_segment (double_slashes ctx.repo_full_name)

all_safe-workflow_part : (w : Option Text) → all is_safe (workflow_part w) ≡ true
unfolding workflow_part is_safe
all_safe-workflow_part none = refl
all_safe-workflow_part (some w) = elim (Bool-cases (is_empty w)) [
  | inl e ↦ rw e refl
  | inr e ↦ rw e (all_safe-slug_segment w)
]

-- The issue number of a context is written in digits.
abbrev pub HasDigits : Option DispatchContext → Type 0
HasDigits none = Unit {0}
HasDigits (some ctx) = all (λ c. leb b'0' c && leb c b'9') ctx.issue_number ≡ true

all_safe-digits : (t : Text) → all (λ c. leb b'0' c && leb c b'9') t ≡ true → all is_safe t ≡ true
unfolding is_safe
all_safe-digits [] h = refl
all_safe-digits (c ∷ t) h = ground (arith, all_safe-digits t)

all_safe-issue_part :
    (ctx : Option DispatchContext) → HasDigits ctx → all is_safe (issue_part ctx) ≡ true
unfolding issue_part is_safe
all_safe-issue_part none h = refl
all_safe-issue_part (some ctx) h =
    all_safe-append (codes "issue-") ctx.issue_number refl (all_safe-digits ctx.issue_number h)

all_safe-dispatch_slug :
    (ctx : Option DispatchContext) (workflow : Option Text) (ts : Text)
    → HasDigits ctx
    → all is_safe ts ≡ true
    → all is_safe (dispatch_slug ctx workflow ts) ≡ true
unfolding dispatch_slug is_safe
all_safe-dispatch_slug ctx workflow ts digits stamp =
    all_safe-append (repo_part ctx) _ (all_safe-repo_part ctx) (
      all_safe-append (issue_part ctx) _ (all_safe-issue_part ctx digits)
        (all_safe-append (workflow_part workflow) _ (all_safe-workflow_part workflow) stamp))

-- Every stem that the runner makes, whatever the repository and the workflow are called, is one that
-- the dashboard serves, if the time stamp and the random part of the name hold safe characters.
pub prompt_stem-valid :
    (ctx : Option DispatchContext) (workflow : Option Text) (ts random : Text)
    → HasDigits ctx
    → all is_safe ts ≡ true
    → all is_safe random ≡ true
    → valid_run_stem (prompt_stem (dispatch_slug ctx workflow ts) random) ≡ true
unfolding valid_run_stem prompt_stem
prompt_stem-valid ctx workflow ts random digits stamp chars =
    let safe : all is_safe (dispatch_slug ctx workflow ts ++ (b'-' ∷ random)) ≡ true =
      all_safe-append (dispatch_slug ctx workflow ts) (b'-' ∷ random)
        (all_safe-dispatch_slug ctx workflow ts digits stamp) (unfold is_safe in chars) in
    unfold is_safe dispatch_slug in safe

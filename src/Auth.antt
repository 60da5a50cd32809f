-- ===== src/Auth.antt =====
-- auth.py: the token that gates the dashboard and the simulator.
use orchestrator_service.Prelude.{
  ℕ, Text, codes, Bool, false, ◌&&◌, ◌≡◌, refl, ap, ◌⊎◌, inl, inr, Option, none, some, [], ◌∷◌, all,
  leb, if◌then◌else◌, is_empty, is_space, lstrip, strip, lower, starts_with, same, same_iff, arith,
  Bool-cases,
}

-- What _extract_token reads of a request; `authorization` is empty where the header is missing.
pub record Request : Type 0 where
  pub authorization : Text
  pub query_token : Option Text
  pub cookie_token : Option Text
  pub is_https : Bool

-- A token, no token, or an exception that the framework answers with a 500.
pub data Extracted : Type 0 where
  token : Option Text → Extracted
  index_error : Extracted

-- The text behind the first word.
unfoldable pub behind_word : Text → Text
behind_word [] = []
behind_word (c ∷ t) = let rest = behind_word t in if is_space c then c ∷ t else rest

-- header.split(None, 1)[1].strip(): there is no second part behind which only spaces stand
unfoldable pub second_part : Text → Option Text
unfolding behind_word
second_part header =
    let rest = strip (behind_word (lstrip header)) in if is_empty rest then none else some rest

-- `a or b`, for a text or None
unfoldable pub or_token : Option Text → Option Text → Option Text
or_token none b = b
or_token (some a) b = if is_empty a then b else some a

unfoldable pub is_bearer : Text → Bool
is_bearer header = starts_with (codes "bearer ") (lower header)

unfoldable pub bearer_token : Text → Extracted
unfolding is_bearer second_part
bearer_token header =
    if is_bearer header
    then elim (second_part header) [ none ↦ index_error | some t ↦ token (some t) ]
    else token none

fall_back : Extracted → Option Text → Option Text → Extracted
fall_back index_error query cookie = index_error
fall_back (token t) query cookie = token (or_token (or_token t query) cookie)

unfoldable pub extract_token : Request → Extracted
unfolding fall_back
extract_token r = fall_back (bearer_token r.authorization) r.query_token r.cookie_token

-- The route is served, refused with a status, or an exception is raised.
pub data Access : Type 0 where
  granted : Access
  refused : ℕ → Access
  crashed : Access

-- hmac.compare_digest takes no text with a character that is not ASCII.
unfoldable pub is_ascii : Text → Bool
is_ascii = all (λ c. leb c 127)

unfoldable pub compare_tokens : Text → Text → Access
compare_tokens provided expected =
    if is_ascii provided && is_ascii expected
    then if same provided expected then granted else refused 401
    else crashed

check_token : Text → Extracted → Access
check_token expected index_error = crashed
check_token expected (token none) = refused 401
check_token expected (token (some provided)) =
    if is_empty provided then refused 401 else compare_tokens provided expected

unfoldable pub require_token : ℕ → Option Text → Request → Access
unfolding check_token
require_token disabled_status none r = refused disabled_status
require_token disabled_status (some expected) r =
    if is_empty expected then refused disabled_status else check_token expected (extract_token r)

-- What persist_token_cookie does: no cookie, a cookie with its value and whether it is for https
-- only, or an exception.
pub data Cookie : Type 0 where
  no_cookie cookie_error : Cookie
  set_cookie : Text → Bool → Cookie

unfoldable pub persist_token_cookie : Request → Option Text → Cookie
unfolding compare_tokens
persist_token_cookie r none = no_cookie
persist_token_cookie r (some expected) = elim r.query_token [
  | none ↦ no_cookie
  | some query ↦
      if is_empty query
      then no_cookie
      else if is_empty expected
      then no_cookie
      else elim (compare_tokens query expected) [
        | granted ↦ set_cookie query r.is_https
        | refused status ↦ no_cookie
        | crashed ↦ cookie_error
      ]
]

-- The places where a request can show a token.
abbrev pub Shows : Request → Text → Type 0
Shows r t =
    (bearer_token r.authorization ≡ token (some t))
    ⊎ (r.query_token ≡ some t)
    ⊎ (r.cookie_token ≡ some t)

or_token-cases :
    (a b : Option Text) (t : Text) → or_token a b ≡ some t → (a ≡ some t) ⊎ (b ≡ some t)
unfolding or_token
or_token-cases none b t h = inr h
or_token-cases (some a) b t h = ground arith

fall_back-cases :
    (x : Extracted) (query cookie : Option Text) (t : Text)
    → fall_back x query cookie ≡ token (some t)
    → (x ≡ token (some t)) ⊎ (query ≡ some t) ⊎ (cookie ≡ some t)
unfolding fall_back
fall_back-cases index_error query cookie t h = cc
fall_back-cases (token o) query cookie t h =
    let both : or_token (or_token o query) cookie ≡ some t = cc in
    elim (or_token-cases (or_token o query) cookie t both) [
      | inl first ↦ elim (or_token-cases o query t first) [
        | inl e ↦ inl (ap token e)
        | inr e ↦ inr (inl e)
      ]
      | inr e ↦ inr (inr e)
    ]

compare_tokens-granted :
    (provided expected : Text) → compare_tokens provided expected ≡ granted → provided ≡ expected
unfolding compare_tokens
compare_tokens-granted provided expected h = ground (arith, same_iff provided expected)

check_token-granted :
    (expected : Text) (x : Extracted) → check_token expected x ≡ granted → x ≡ token (some expected)
unfolding check_token
check_token-granted expected index_error h = cc
check_token-granted expected (token none) h = cc
check_token-granted expected (token (some provided)) h = elim (Bool-cases (is_empty provided)) [
  | inl e ↦ cc (rw e at h)
  | inr e ↦ ap (λ (t : Text). token (some t)) (compare_tokens-granted provided expected (rw e at h))
]

-- A route that is gated serves a request only if a token is configured that is not empty, and the
-- request shows exactly this token, in its header, its query or its cookie.
pub require_token-granted :
    (disabled_status : ℕ) (expected : Option Text) (r : Request)
    → require_token disabled_status expected r ≡ granted
    → (t : Text) × (expected ≡ some t) × (is_empty t ≡ false) × Shows r t
unfolding require_token extract_token
require_token-granted disabled_status none r h = cc
require_token-granted disabled_status (some expected) r h = elim (Bool-cases (is_empty expected)) [
  | inl e ↦ cc (rw e at h)
  | inr e ↦
      let shown = check_token-granted expected (extract_token r) (rw e at h) in
      (
        expected,
        refl,
        e,
        fall_back-cases (bearer_token r.authorization) r.query_token r.cookie_token expected shown,
      )
]

-- ===== src/Config/Ceiling.antt =====
-- config.py with watchdog.py: the hard ceiling of a run that the environment sets.
use orchestrator_service.Prelude.{
  Text, codes, ◌≡◌, refl, ap, ◌∙◌, ◌⊎◌, inl, inr, Option, none, some, Dict, ℤ, pos, is_empty, strip,
  Bool-cases, [],
}
use orchestrator_service.Config.{
  Loaded, loaded, value_error, ◌>>=◌, Settings, int_env, parse_optional_int, resolve_hard_ceiling,
  env_or, from_env, load, hard_or_legacy,
}
use orchestrator_service.Watchdog.Tunables.{from_settings}

>>=-eq-loaded {ℓ κ} :
    {A : Type ℓ} {B : Type κ} (read : Loaded A) (rest : A → Loaded B) {last : B}
    → (read >>= rest) ≡ loaded last
    → (value : A) × (read ≡ loaded value) × (rest value ≡ loaded last)
>>=-eq-loaded (value_error about) rest h = cc
>>=-eq-loaded (loaded value) rest h = (value, refl, h)

loaded_inj {ℓ} : {A : Type ℓ} {a b : A} → loaded a ≡ loaded b → a ≡ b
loaded_inj h = cc

abbrev ceiling_env : Text
ceiling_env = codes "HARD_CEILING_SECS"

abbrev timeout_env : Text
timeout_env = codes "DISPATCH_TIMEOUT_SECS"

-- Where the ceiling comes from: its own variable, or else the old one, or else the default.
abbrev pub ComesFrom : Dict Text → ℤ → Type 0
ComesFrom env n =
    (parse_optional_int (codes "HARD_CEILING_SECS") env ≡ loaded (some n))
    ⊎ ((parse_optional_int (codes "HARD_CEILING_SECS") env ≡ loaded none)
        × (parse_optional_int (codes "DISPATCH_TIMEOUT_SECS") env ≡ loaded (some n)))
    ⊎ ((parse_optional_int (codes "HARD_CEILING_SECS") env ≡ loaded none)
        × (parse_optional_int (codes "DISPATCH_TIMEOUT_SECS") env ≡ loaded none)
        × (n ≡ pos 5400))

legacy-ComesFrom :
    (legacy : Option ℤ) (env : Dict Text) (n : ℤ)
    → parse_optional_int ceiling_env env ≡ loaded none
    → parse_optional_int timeout_env env ≡ loaded legacy
    → loaded (elim legacy [ some m ↦ m | none ↦ pos 5400 ]) ≡ loaded n
    → ComesFrom env n
legacy-ComesFrom none env n read old h = inr (inr (read, old, cc))
legacy-ComesFrom (some m) env n read old h = inr (inl (read, old ∙ ap (λ x. loaded (some x)) (cc)))

hard_or_legacy-ComesFrom :
    (hard : Option ℤ) (env : Dict Text) (n : ℤ)
    → parse_optional_int ceiling_env env ≡ loaded hard
    → hard_or_legacy hard env ≡ loaded n
    → ComesFrom env n
unfolding hard_or_legacy
hard_or_legacy-ComesFrom (some m) env n read h = inl (read ∙ ap (λ x. loaded (some x)) (cc))
hard_or_legacy-ComesFrom none env n read h =
    let (legacy, old, is) = >>=-eq-loaded (parse_optional_int timeout_env env) _ h in
    legacy-ComesFrom legacy env n read old is

resolve_hard_ceiling-ComesFrom :
    (env : Dict Text) (n : ℤ) → resolve_hard_ceiling env ≡ loaded n → ComesFrom env n
unfolding resolve_hard_ceiling
resolve_hard_ceiling-ComesFrom env n h =
    let (hard, read, is) =
      >>=-eq-loaded (parse_optional_int ceiling_env env) (λ hard. hard_or_legacy hard env) h in
    hard_or_legacy-ComesFrom hard env n read is

module _ (resolve : Text → Text) (script log_dir : Text) where
  load-ceiling :
      (secret : Text) (env : Dict Text) (s : Settings)
      → load resolve script log_dir secret env ≡ loaded s
      → resolve_hard_ceiling env ≡ loaded s.hard_ceiling_secs
  unfolding load
  load-ceiling secret env s h =
      let (port, _, h1) = >>=-eq-loaded (int_env (codes "WEBHOOK_PORT") (codes "8080") env) _ h in
      let (chars, _, h2) =
        >>=-eq-loaded (int_env (codes "WEBHOOK_MAX_PAYLOAD_CHARS") (codes "120000") env) _ h1 in
      let (bytes, _, h3) =
        >>=-eq-loaded (int_env (codes "WEBHOOK_MAX_BODY_BYTES") (codes "26214400") env) _ h2 in
      let (poll, _, h4) =
        >>=-eq-loaded (int_env (codes "BEADS_POLL_INTERVAL") (codes "10") env) _ h3 in
      let (retries, _, h5) =
        >>=-eq-loaded (int_env (codes "BEADS_MAX_RETRIES") (codes "3") env) _ h4 in
      let (timeout, _, h6) = >>=-eq-loaded (parse_optional_int timeout_env env) _ h5 in
      let (idle, _, h7) =
        >>=-eq-loaded (int_env (codes "IDLE_TIMEOUT_SECS") (codes "900") env) _ h6 in
      let (grace, _, h8) =
        >>=-eq-loaded (int_env (codes "ERROR_GRACE_SECS") (codes "300") env) _ h7 in
      let (ceiling, read, h9) = >>=-eq-loaded (resolve_hard_ceiling env) _ h8 in
      let (watch, _, h10) =
        >>=-eq-loaded (int_env (codes "WATCHDOG_POLL_SECS") (codes "30") env) _ h9 in
      let (errors, _, h11) =
        >>=-eq-loaded (int_env (codes "MAX_CONSECUTIVE_ERRORS") (codes "5") env) _ h10 in
      let (ask, _, h12) =
        >>=-eq-loaded (int_env (codes "PERMISSION_ASK_GRACE_SECS") (codes "60") env) _ h11 in
      read ∙ ap (λ (x : Settings). loaded x.hard_ceiling_secs) (loaded_inj h12)

  -- The watchdog of a run that the settings of the environment start has a hard ceiling, from its own
  -- variable where this is set, or else from the old one, or else the default.
  pub from_env-ComesFrom :
      (env : Dict Text) (s : Settings)
      → from_env resolve script log_dir env ≡ loaded s
      → (n : ℤ) × ((from_settings s env).hard_ceiling_secs ≡ some n) × ComesFrom env n
  unfolding from_env from_settings
  from_env-ComesFrom env s h =
      elim (Bool-cases (is_empty (strip (env_or (codes "OS_WEBHOOK_SECRET") [] env)))) [
        | inl e ↦ cc (rw (e, from_env) at h)
        | inr e ↦
            let secret = strip (env_or (codes "OS_WEBHOOK_SECRET") [] env) in
            let read = load-ceiling secret env s (rw (e, from_env) at h) in
            (s.hard_ceiling_secs, refl, resolve_hard_ceiling-ComesFrom env s.hard_ceiling_secs read)
      ]

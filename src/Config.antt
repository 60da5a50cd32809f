-- ===== src/Config.antt =====
-- config.py: the settings that the service reads from its environment.
pub mod Ceiling
use orchestrator_service.Prelude.{
  ℕ, ◌+◌, ◌*◌, ◌-◌, Text, codes, Bool, false, ◌&&◌, Option, none, some, [], ◌∷◌, leb, ◌==◌,
  if◌then◌else◌, is_empty, strip, lower, reverse, member, Dict, lookup, ℤ, pos, negsuc,
}

-- A ValueError, with what it is about.
pub data Loaded {ℓ} (A : Type ℓ) : Type ℓ where
  loaded : A → Loaded A
  value_error : Text → Loaded A

module _ {κ ℓ} {Read : Type ℓ} {Result : Type κ} where
  infixl 5 ◌>>=◌
  abbrev pub ◌>>=◌ : Loaded Read → (Read → Loaded Result) → Loaded Result
  value_error about >>= rest = value_error about
  loaded value >>= rest = rest value

-- Digits, with single underscores between them; `after` says that a digit stands before.
unfoldable pub digits_value : Bool → ℕ → Text → Option ℕ
digits_value after n [] = if after then some n else none
digits_value after n (c ∷ t) =
    let is_digit = leb b'0' c && leb c b'9' in
    let rest = digits_value is_digit (if is_digit then n * 10 + (c - b'0') else n) t in
    if is_digit then rest else if after && c == b'_' then rest else none

negated : Option ℕ → Option ℤ
negated none = none
negated (some n) = some (if n == 0 then pos 0 else negsuc (n - 1))

plain : Option ℕ → Option ℤ
plain none = none
plain (some n) = some (pos n)

signed : Text → Option ℤ
unfolding negated plain digits_value
signed [] = none
signed (c ∷ t) =
    if c == b'-'
    then negated (digits_value false 0 t)
    else if c == b'+'
    then plain (digits_value false 0 t)
    else plain (digits_value false 0 (c ∷ t))

-- int(text), for ASCII text
unfoldable pub int_of : Text → Loaded ℤ
unfolding signed
int_of t = elim (signed (strip t)) [ none ↦ value_error t | some n ↦ loaded n ]

-- os.environ.get(name, default)
unfoldable pub env_or : Text → Text → Dict Text → Text
env_or name default env = elim (lookup name env) [ none ↦ default | some v ↦ v ]

unfoldable pub parse_optional_int : Text → Dict Text → Loaded (Option ℤ)
unfolding env_or int_of
parse_optional_int name env =
    let raw = strip (env_or name [] env) in
    if is_empty raw then loaded none else int_of raw >>= (λ n. loaded (some n))

unfoldable pub hard_or_legacy : Option ℤ → Dict Text → Loaded ℤ
unfolding parse_optional_int
hard_or_legacy (some hard) env = loaded hard
hard_or_legacy none env =
    parse_optional_int (codes "DISPATCH_TIMEOUT_SECS") env
    >>= (λ legacy. loaded (elim legacy [ some n ↦ n | none ↦ pos 5400 ]))

unfoldable pub resolve_hard_ceiling : Dict Text → Loaded ℤ
unfolding hard_or_legacy
resolve_hard_ceiling env =
    parse_optional_int (codes "HARD_CEILING_SECS") env >>= (λ hard. hard_or_legacy hard env)

-- x.strip().lower() in ("1", "true", "yes")
unfoldable pub is_true : Text → Bool
is_true t = member (lower (strip t)) (codes "1" ∷ codes "true" ∷ codes "yes" ∷ [])

lstrip_slashes : Text → Text
lstrip_slashes [] = []
lstrip_slashes (c ∷ t) = let rest = lstrip_slashes t in if c == b'/' then rest else c ∷ t

-- url.rstrip("/")
unfoldable pub rstrip_slashes : Text → Text
unfolding lstrip_slashes
rstrip_slashes t = reverse (lstrip_slashes (reverse t))

-- The settings; `prompt_script` and `log_dir` are paths.
pub record Settings : Type 0 where
  pub host : Text
  pub port : ℤ
  pub github_webhook_secret : Text
  pub opencode_server_url : Text
  pub prompt_script : Text
  pub workspace : Text
  pub model : Text
  pub agent : Text
  pub variant : Text
  pub max_payload_chars : ℤ
  pub max_body_bytes : ℤ
  pub log_level : Text
  pub enable_simulator : Bool
  pub beads_enabled : Bool
  pub beads_poll_interval : ℤ
  pub beads_max_retries : ℤ
  pub beads_workspace_root : Text
  pub dashboard_token : Option Text
  pub dispatch_timeout : Option ℤ
  pub idle_timeout_secs : ℤ
  pub error_grace_secs : ℤ
  pub hard_ceiling_secs : ℤ
  pub watchdog_poll_secs : ℤ
  pub max_consecutive_errors : ℤ
  pub watchdog_debug : Bool
  pub permission_ask_grace_secs : ℤ
  pub server_log_path : Text
  pub log_dir : Text

int_env : Text → Text → Dict Text → Loaded ℤ
unfolding env_or int_of
int_env name default env = int_of (env_or name default env)

unfoldable pub token_env : Dict Text → Option Text
unfolding env_or
token_env env =
    let t = strip (env_or (codes "DASHBOARD_TOKEN") [] env) in if is_empty t then none else some t

-- `resolve` is Path.resolve, `script` the default prompt script and `log_dir` the default directory.
module _ (resolve : Text → Text) (script log_dir : Text) where
  load : Text → Dict Text → Loaded Settings
  unfolding int_env token_env resolve_hard_ceiling is_true rstrip_slashes env_or parse_optional_int
  load secret env = do
    port ← int_env (codes "WEBHOOK_PORT") (codes "8080") env
    chars ← int_env (codes "WEBHOOK_MAX_PAYLOAD_CHARS") (codes "120000") env
    bytes ← int_env (codes "WEBHOOK_MAX_BODY_BYTES") (codes "26214400") env
    poll ← int_env (codes "BEADS_POLL_INTERVAL") (codes "10") env
    retries ← int_env (codes "BEADS_MAX_RETRIES") (codes "3") env
    timeout ← parse_optional_int (codes "DISPATCH_TIMEOUT_SECS") env
    idle ← int_env (codes "IDLE_TIMEOUT_SECS") (codes "900") env
    grace ← int_env (codes "ERROR_GRACE_SECS") (codes "300") env
    ceiling ← resolve_hard_ceiling env
    watch ← int_env (codes "WATCHDOG_POLL_SECS") (codes "30") env
    errors ← int_env (codes "MAX_CONSECUTIVE_ERRORS") (codes "5") env
    ask ← int_env (codes "PERMISSION_ASK_GRACE_SECS") (codes "60") env
    loaded (record {
      host = env_or (codes "WEBHOOK_HOST") (codes "0.0.0.0") env;
      port = port;
      github_webhook_secret = secret;
      opencode_server_url =
          rstrip_slashes (env_or (codes "OPENCODE_SERVER_URL") (codes "http://localhost:4099") env);
      prompt_script = resolve (env_or (codes "PROMPT_SCRIPT") script env);
      workspace = env_or (codes "ORCHESTRATOR_WORKSPACE") (codes "/workspace") env;
      model = env_or (codes "OPENCODE_MODEL") (codes "qwencloud/qwen3.7-max") env;
      agent = env_or (codes "OPENCODE_AGENT") (codes "orchestrator") env;
      variant = env_or (codes "OPENCODE_VARIANT") (codes "high") env;
      max_payload_chars = chars;
      max_body_bytes = bytes;
      log_level = lower (env_or (codes "WEBHOOK_LOG_LEVEL") (codes "info") env);
      enable_simulator = is_true (env_or (codes "WEBHOOK_ENABLE_SIMULATOR") [] env);
      beads_enabled = is_true (env_or (codes "BEADS_ENABLED") (codes "true") env);
      beads_poll_interval = poll;
      beads_max_retries = retries;
      beads_workspace_root = env_or (codes "BEADS_WORKSPACE_ROOT") (codes "/workspace") env;
      dashboard_token = token_env env;
      dispatch_timeout = timeout;
      idle_timeout_secs = idle;
      error_grace_secs = grace;
      hard_ceiling_secs = ceiling;
      watchdog_poll_secs = watch;
      max_consecutive_errors = errors;
      watchdog_debug = is_true (env_or (codes "WATCHDOG_DEBUG") [] env);
      permission_ask_grace_secs = ask;
      server_log_path =
          env_or (codes "OPENCODE_SERVER_LOG_PATH")
            (codes "/home/app/.local/share/opencode/log/opencode.log") env;
      log_dir = log_dir;
    })

  unfoldable pub from_env : Dict Text → Loaded Settings
  unfolding load env_or
  from_env env =
      let secret = strip (env_or (codes "OS_WEBHOOK_SECRET") [] env) in
      if is_empty secret then value_error (codes "OS_WEBHOOK_SECRET") else load secret env

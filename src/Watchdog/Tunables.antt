-- ===== src/Watchdog/Tunables.antt =====
-- watchdog.py, WatchdogConfig with all its fields, as it is built from the settings, and the lines that
-- are logged before a kill.
use orchestrator_service.Prelude.{
  ◌-◌, Text, codes, Bool, Option, none, some, List, [], map, length, drop, is_empty, if◌then◌else◌,
  Dict, ℤ, pos,
}
use orchestrator_service.Config.{Settings, env_or}
use orchestrator_service.Narrative.Events.{rstrip}
use orchestrator_service.Runner.Stream.{splitlines}

pub record Tunables : Type 0 where
  pub idle_timeout_secs : ℤ
  pub error_grace_secs : ℤ
  pub hard_ceiling_secs : Option ℤ
  pub poll_interval_secs : ℤ
  pub max_consecutive_errors : ℤ
  pub sigterm_grace_secs : ℤ
  pub debug : Bool
  pub permission_ask_grace_secs : ℤ
  pub server_log_path : Text
  pub server_url : Text
  pub server_username : Text
  pub server_password : Text
  pub session_directory : Text

-- The settings have every attribute, so no default of `getattr` is used.
unfoldable pub from_settings : Settings → Dict Text → Tunables
from_settings s env = record {
  idle_timeout_secs = s.idle_timeout_secs;
  error_grace_secs = s.error_grace_secs;
  hard_ceiling_secs = some s.hard_ceiling_secs;
  poll_interval_secs = s.watchdog_poll_secs;
  max_consecutive_errors = s.max_consecutive_errors;
  sigterm_grace_secs = pos 10;
  debug = s.watchdog_debug;
  permission_ask_grace_secs = s.permission_ask_grace_secs;
  server_log_path = s.server_log_path;
  server_url = s.opencode_server_url;
  server_username = env_or (codes "OPENCODE_SERVER_USERNAME") (codes "opencode") env;
  server_password = env_or (codes "OPENCODE_SERVER_PASSWORD") [] env;
  session_directory = s.workspace;
}

-- The directory that the scanner of permission questions is bound to, none for an empty one.
unfoldable pub scan_directory : Tunables → Option Text
scan_directory t = if is_empty t.session_directory then none else some t.session_directory

-- The lines of stderr that _dump_diagnostics logs, the last 20; none where there is no file, or it
-- cannot be read.
unfoldable pub diagnostic_lines : Option Text → List Text
diagnostic_lines none = []
diagnostic_lines (some stderr) =
    let lines = splitlines stderr in map rstrip (drop (length lines - 20) lines)

-- ===== src/Tests/Dispatches.antt =====
-- A dispatch that is started, and ends.
use orchestrator_service.Prelude.{
  ℕ, Text, codes, true, false, ◌≡◌, refl, Option, none, some, List, [], ◌∷◌, ◌++◌, Any, pos, same,
  starts_with, lstrip, is_space, lower,
}
use orchestrator_service.Json.{Json, text, obj, Fields, ok}
use orchestrator_service.Config.{Settings}
use orchestrator_service.Runner.Slug.{DispatchContext, dispatch_slug, prompt_stem}
use orchestrator_service.Runner.Completion.{RunEnd, Evidence}
use orchestrator_service.Runner.Manifest.{update_run_manifest}
use orchestrator_service.Runner.Start.{
  Launch, write_manifest, started, parse_workflow_name, dispatch_to_opencode,
}
use orchestrator_service.Runner.Start.Recorded.{Identifies, dispatch-Identifies}

abbrev pub settings : Settings
settings = record {
  host = codes "0.0.0.0";
  port = pos 8080;
  github_webhook_secret = codes "k";
  opencode_server_url = codes "http://localhost:4099";
  prompt_script = codes "/app/prompt.ps1";
  workspace = codes "/workspace";
  model = codes "m";
  agent = codes "orchestrator";
  variant = codes "high";
  max_payload_chars = pos 120000;
  max_body_bytes = pos 1000;
  log_level = codes "info";
  enable_simulator = false;
  beads_enabled = true;
  beads_poll_interval = pos 10;
  beads_max_retries = pos 3;
  beads_workspace_root = codes "/workspace";
  dashboard_token = none;
  dispatch_timeout = none;
  idle_timeout_secs = pos 900;
  error_grace_secs = pos 300;
  hard_ceiling_secs = pos 5400;
  watchdog_poll_secs = pos 30;
  max_consecutive_errors = pos 5;
  watchdog_debug = false;
  permission_ask_grace_secs = pos 60;
  server_log_path = [];
  log_dir = codes "/logs";
}

abbrev launch : Launch
launch = record {
  ctx = some (record {
    repo_full_name = codes "acme/site";
    issue_number = codes "7";
    trigger_label = none;
  });
  html_url = none;
  stamp = codes "20260101T000000Z";
  random = codes "x1";
}

abbrev prompt : Text
prompt = codes "Run $workflow_name = project-setup now"

abbrev spawn : List Text → Option ℕ
spawn args = some 41

abbrev number_of : Text → Json
number_of t = text t

abbrev run_end : RunEnd
run_end = record {
  exit_code = pos 0;
  timed_out = false;
  kill_reason = none;
  errors = 0;
  last_error = [];
}

abbrev evidence : Evidence
evidence = record { ctx = launch.ctx; tools = codes "bash" ∷ []; issue_closed = true }

workflow_found : parse_workflow_name prompt ≡ some (codes "project-setup")
unfolding parse_workflow_name starts_with lstrip is_space orchestrator_service.Runner.Slug.is_alnum
    orchestrator_service.Runner.Slug.is_safe orchestrator_service.Runner.Stream.run_of
workflow_found = refl

abbrev stem : Text
stem = codes "prompt-acme__site__issue-7__project-setup__20260101T000000Z-x1"

dispatch-Identifies_example :
    let run = dispatch_to_opencode number_of spawn settings prompt true launch in
    (m : Fields) × (final : Fields) × Any
      (λ step. step ≡ write_manifest (stem ++ codes ".manifest.json") m)
      run.0
    × Identifies number_of launch prompt stem m
    × (update_run_manifest (λ n. []) (λ ts. ts) (some (obj m)) (codes "later") run_end evidence
        ≡ ok final)
    × Identifies number_of launch prompt stem final
unfolding dispatch_to_opencode parse_workflow_name starts_with lstrip is_space same lower
    orchestrator_service.Runner.Slug.is_alnum orchestrator_service.Runner.Slug.is_safe
    orchestrator_service.Runner.Stream.run_of dispatch_slug prompt_stem
    orchestrator_service.Runner.Start.prompt_script_invocation
    orchestrator_service.Runner.Start.suffix orchestrator_service.Runner.Slug.slug_repo
    orchestrator_service.Runner.Slug.slug_segment orchestrator_service.Runner.Slug.double_slashes
dispatch-Identifies_example =
    dispatch-Identifies number_of spawn settings prompt true launch stem (λ n. []) (λ ts. ts)
      (codes "later") run_end evidence refl

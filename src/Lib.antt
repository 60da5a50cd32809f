-- ===== src/Lib.antt =====
-- The orchestrator service (webhook_receiver/): a web service that takes GitHub webhooks, decides
-- which of them may start an orchestrator agent, starts it, watches it and reports how it ended, and
-- a background loop that hands the tasks ("beads") of every project to agents.
--
-- How the parts work together. A delivery reaches `github_webhook` (app.py), which verifies its
-- signature (github.py), asks the gate (filters.py), writes to the event store (event_store.py) and
-- to the webhook store (webhook_store.py), and schedules a dispatch. The runner (runner.py) starts the
-- agent and waits for it under the watchdog (watchdog.py), which reads the agent's lines and the
-- server's log; when the run has ended, the runner reads its stream (run_stream.py) and writes the
-- manifest, the comments and the event. The loop over the beads (beads_loop.py) polls each project,
-- in whose workspace (workspace.py) each bead has a worktree. The dashboard (dashboard.py) shows the
-- beads, the runs' files and the narrative of a run (run_narrative.py) to whoever has its token
-- (auth.py).
--
-- Which file models what:
--   Prelude, Prelude/*     text as the list of its code points, with the methods of `str` that the
--                          service calls; lists, dictionaries, exit codes; lemmas about them
--   Json                   the values of `json.loads`, and Python's reading of them: truth, `or`,
--                          `.get`, `str`, iteration, with the exceptions that these raise
--   Signature              webhook_receiver/github.py: compute_signature, verify_signature
--   Filters, Filters/*     webhook_receiver/filters.py: should_dispatch and its helpers
--   App/Handler            webhook_receiver/app.py: github_webhook, _derive_project_slug
--   App/Branch             _safe_branch
--   App/Dispatch           _safe_dispatch, the background task, with _validate_clone_url and
--                          _dispatch_context_from_payload
--   App/Confined           the changes of the disk that this task may make
--   EventStore, Ring, Feed webhook_receiver/event_store.py, one thread: emit, recent, subscribe, close
--   EventStore/Threads     the same with several threads, as a step relation on the whole state
--   Deliveries/Defs        webhook_receiver/webhook_store.py: WebhookStore, each method one function
--   Watchdog/Signals       webhook_receiver/watchdog.py: classify_line, WatchdogState
--   Watchdog/Growth        _ServerLogMonitor
--   Watchdog/Asks          _PermissionAskMonitor, its regular expressions as functions on text
--   Watchdog/Loop          WatchdogConfig, WatchdogResult, IdleWatchdog.run: a turn is `turn`, the
--                          four tests `verdict`
--   Watchdog/Loop/Terminate  _terminate and _abort_server_session
--   Watchdog/Tunables      the configuration with all its fields, from_settings, _dump_diagnostics
--   Beads/State            webhook_receiver/beads_loop.py: _poll_and_process_project, _process_bead,
--                          _increment_retry, _scan_and_process
--   Beads/View             state_for_project
--   Beads/Select           _get_next_bead: what bvr and br print is an input, as is Python's `<`
--   Beads/Status           _check_bead_status
--   Beads/Spawn            _plan_tracked, _build_bead_prompt and _spawn_agent
--   Beads/Context          webhook_receiver/bead_context.py: what an agent is told of its project
--   Runner/Slug            webhook_receiver/runner.py: _dispatch_slug, and _valid_run_stem of
--                          webhook_receiver/dashboard.py
--   Runner/Stream          webhook_receiver/run_stream.py: extract_tool_names
--   Runner/Completion      _run_completion_watcher of runner.py, behind the wait for the process
--   Runner/Manifest        _update_run_manifest, and the fields of a run that has ended
--   Runner/Comments        the texts of the comments, _sanitize_for_comment, _format_log_line
--   Runner/Streaming       _stream_to_logger_and_file, and should_filter of filters.py
--   Runner/Start           dispatch_to_opencode, _parse_workflow_name and the calls of gh
--   Narrative/Events       webhook_receiver/run_stream.py: parse_events
--   Narrative/*            webhook_receiver/run_narrative.py: the timeline and its grouping, the
--                          statistics, the status of a run, parse_narrative; Consumers is
--                          on run_stream.py alone
--   Config                 webhook_receiver/config.py: Settings.from_env
--   Prompts                webhook_receiver/prompts.py: the event in a prompt
--   Auth                   webhook_receiver/auth.py: the token of the dashboard
--   Dashboard/Tail         webhook_receiver/dashboard.py: _tail_lines
--   Dashboard/Cache        _cached and _generate_pages_bundle; Dashboard/Cache/Recent has sequences of
--                          its calls
--   Dashboard/Beads        the list of beads, the overview and the active agents
--   Dashboard/Graph        the dependency graph, one bead, the project of a request
--   Dashboard/Runs, Stories  the files of the runs and the routes that read them
--   Dashboard/Pages        the HTML pages and the bundle of static pages, behind the token
--   Simulator              webhook_receiver/simulator.py; Simulator/Templates is
--                          webhook_receiver/simulator_templates.py
--   Workspace/Machine      the interface to the disk and to git that workspace.py works on
--   Workspace/*            webhook_receiver/workspace.py: projects, clones and worktrees
--   Tests/*                inputs on which the theorems apply
--
-- What stands for the world. The HMAC, the JSON parser (none for a JSONDecodeError), Python's text of
-- a value that is no text, the rendered prompt and the containment check of a project's path are
-- arguments; so are floats, the parsing of times, urlparse and the decoding of UTF-8. The disk and git
-- are a record of operations on a state of any type. Each turn of the watchdog reads a `Moment`:
-- whether the process has ended, the clock, the state that the readers left and the server log. Each poll of a project reads a `Poll`: whether
-- the plan is committed, the next bead, and how an attempt would go.
--
-- Bounds and fuel. Numbers are natural numbers; the service has no machine integers. Times are whole
-- units, and a difference of times stops at 0, as the clock only goes on. `run` of the watchdog is
-- on fuel, one for each turn; as many as the hard ceiling has units and one more are enough, if the
-- clock goes on by a unit or more in each turn. All else is structural. `lower`, `strip` and
-- `isalnum` are those of ASCII text, and one code point of the server log stands for one byte.
--
-- Not modelled: the wiring of the routes and the entry point (webhook_receiver/__main__.py), the event
-- stream of the dashboard, its lists of events and of deliveries, the fixed texts of the prompt and of
-- the agent's guide, the scripts outside webhook_receiver, and what is only logged. A request body or a
-- file that is no UTF-8, for which the parsers raise another error, is left out.
pub mod Prelude
pub mod Json
pub mod Signature
pub mod Filters
pub mod EventStore
pub mod Deliveries
pub mod Watchdog
pub mod Beads
pub mod Runner
pub mod Narrative
pub mod Config
pub mod Prompts
pub mod Auth
pub mod Dashboard
pub mod Workspace
pub mod App
pub mod Simulator
pub mod Tests

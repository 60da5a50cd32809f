-- ===== src/Dashboard/Runs.antt =====
-- dashboard.py: the files of the dispatch runs, as the routes read them.
use orchestrator_service.Prelude.{
  ℕ, ◌+◌, ◌-◌, Text, codes, Bool, true, false, not, ◌&&◌, ◌||◌, Option, none, some, List, [], ◌∷◌,
  ◌++◌, map, length, take, all, min, max, leb, ltb, ◌==◌, if◌then◌else◌, is_empty, starts_with,
  text_less, reverse, Dict, any, join_lines,
}
use orchestrator_service.Json.{Json, text, obj, Fields, end, find_field, empty_text, to_text}
use orchestrator_service.Runner.Slug.{is_alnum, valid_run_stem}
use orchestrator_service.Runner.Manifest.{set_field}
use orchestrator_service.Beads.Select.{has_key}
use orchestrator_service.Narrative.Events.{Event, parse_events}
use orchestrator_service.Dashboard.Tail.{tail_lines}
use orchestrator_service.Dashboard.Tail.Lines.{last_of}
use orchestrator_service.Runner.Stream.{splitlines}
use orchestrator_service.Dashboard.Cache.{cached}

-- The directory of the logs: its files, newest changes, and what can be read; none for a name that is
-- no file, or a file that cannot be read.
pub record LogDir : Type 0 where
  pub is_dir : Bool
  pub names : List Text
  pub mtime : Text → ℕ
  pub bytes : Text → Option (List ℕ)

-- _MAX_RUNS
abbrev pub max_runs : ℕ
max_runs = 100

-- text.endswith(suffix)
unfoldable pub ends_with : Text → Text → Bool
ends_with suffix t = starts_with (reverse suffix) (reverse t)

-- name[: -len(suffix)]
unfoldable pub without_end : Text → Text → Text
without_end suffix name = take (length name - length suffix) name

is_dash : ℕ → Bool
is_dash c = c == b'-' || c == b'_'

letters_only : Text → Text
unfolding is_dash
letters_only [] = []
letters_only (c ∷ t) = let rest = letters_only t in if is_dash c then rest else c ∷ rest

-- isalnum() is false for the empty text.
unfoldable pub valid_bead_id : Text → Bool
unfolding letters_only
valid_bead_id id = not (is_empty (letters_only id)) && all is_alnum (letters_only id)

-- max(1, min(tail, most)); a number below 0 counts as 0
unfoldable pub clamp_tail : ℕ → ℕ → ℕ
clamp_tail most tail = max 1 (min tail most)

unfoldable pub stem_is_bad : Option Text → Bool
stem_is_bad none = false
stem_is_bad (some stem) = not (is_empty stem) && not (valid_run_stem stem)

-- An answer, or the status of a refusal.
pub data Answer {ℓ} (A : Type ℓ) : Type ℓ where
  answer : A → Answer A
  refused : ℕ → Answer A

pub record RunLogs : Type 0 where
  pub prompt : Text
  pub stdout : Text
  pub stderr : Text
  pub available : Bool

-- `decode` is bytes.decode("utf-8", errors="replace").
module _ (decode : List ℕ → Text) where
  tail_of : LogDir → Text → ℕ → Text
  tail_of logs name n = elim (logs.bytes name) [ none ↦ [] | some file ↦ tail_lines decode file n ]

  unfoldable pub read_run_logs : LogDir → Text → ℕ → Answer RunLogs
  unfolding tail_of
  read_run_logs logs stem n =
      let prompt = tail_of logs (stem ++ codes ".md") n in
      let stdout = tail_of logs (stem ++ codes ".stdout") n in
      let stderr = tail_of logs (stem ++ codes ".stderr") n in
      if valid_run_stem stem
      then answer (record {
        prompt = prompt;
        stdout = stdout;
        stderr = stderr;
        available = not (is_empty prompt && (is_empty stdout && is_empty stderr));
      })
      else refused 400

  unfoldable pub run_logs : LogDir → Text → ℕ → Answer RunLogs
  unfolding read_run_logs clamp_tail
  run_logs logs stem tail = read_run_logs logs stem (clamp_tail 4000 tail)

-- Names, those that changed last first; names that changed at one time keep their order.
insert_newest : (Text → ℕ) → Text → List Text → List Text
insert_newest mtime name [] = name ∷ []
insert_newest mtime name (n ∷ ns) =
    let later = insert_newest mtime name ns in
    if ltb (mtime name) (mtime n) then n ∷ later else name ∷ n ∷ ns

unfoldable pub newest_first : (Text → ℕ) → List Text → List Text
unfolding insert_newest
newest_first mtime [] = []
newest_first mtime (n ∷ ns) = insert_newest mtime n (newest_first mtime ns)

-- The names that a pattern "front*end" matches; a glob's star matches no leading part of either.
unfoldable pub matching : Text → Text → List Text → List Text
matching front back [] = []
matching front back (n ∷ ns) =
    let rest = matching front back ns in
    if leb (length front + length back) (length n) && (starts_with front n && ends_with back n)
    then n ∷ rest
    else rest

unfoldable pub discover_runs : LogDir → List Text
unfolding matching newest_first ends_with without_end
discover_runs logs =
    if logs.is_dir
    then map (without_end (codes ".stderr")) (
        take max_runs
          (newest_first logs.mtime (matching (codes "prompt-") (codes ".stderr") logs.names)))
    else []

-- data.setdefault("stem", ...)
unfoldable pub with_stem : Text → Fields → Fields
with_stem stem fs =
    if has_key (codes "stem") (obj fs) then fs else set_field (codes "stem") (text stem) fs

-- The dict in a manifest file, if it is one; `parse` is json.loads on the decoded bytes, none for a
-- JSONDecodeError.
unfoldable pub manifest_in : (List ℕ → Option Json) → LogDir → Text → Text → Option Fields
unfolding with_stem
manifest_in parse logs name stem = elim (logs.bytes name) [
  | none ↦ none
  | some file ↦ elim (parse file) [
    | none ↦ none
    | some value ↦ elim value [ obj fs ↦ some (with_stem stem fs) | _ ↦ none ]
  ]
]

unfoldable pub load_single_manifest : (List ℕ → Option Json) → LogDir → Text → Fields
unfolding manifest_in
load_single_manifest parse logs stem =
    elim (manifest_in parse logs (stem ++ codes ".manifest.json") stem) [
      | none ↦ end
      | some fs ↦ fs
    ]

-- `repr` is str of a value that is no text.
module _ (parse : List ℕ → Option Json) (repr : Json → Text) where
  unfoldable pub manifests_in : LogDir → List Text → List Fields
  unfolding manifest_in without_end
  manifests_in logs [] = []
  manifests_in logs (name ∷ names) =
      let rest = manifests_in logs names in
      elim (manifest_in parse logs name (without_end (codes ".manifest.json") name)) [
        | none ↦ rest
        | some fs ↦ fs ∷ rest
      ]

  started : Fields → Text
  started fs = to_text repr (find_field (codes "started_at") empty_text fs)

  insert_latest : Fields → List Fields → List Fields
  unfolding started
  insert_latest m [] = m ∷ []
  insert_latest m (n ∷ ns) =
      let later = insert_latest m ns in
      if text_less (started m) (started n) then n ∷ later else m ∷ n ∷ ns

  -- runs.sort(key=..., reverse=True)
  unfoldable pub latest_first : List Fields → List Fields
  unfolding insert_latest
  latest_first [] = []
  latest_first (m ∷ ms) = insert_latest m (latest_first ms)

  unfoldable pub load_run_manifests : LogDir → List Fields
  unfolding matching manifests_in latest_first
  load_run_manifests logs =
      if logs.is_dir
      then take max_runs
          (latest_first (manifests_in logs (matching [] (codes ".manifest.json") logs.names)))
      else []

-- What /run-events answers.
pub record RunEvents : Type 0 where
  pub stem : Option Text
  pub runs : List Text
  pub events : List Event
  pub available : Bool

-- The entries of the cache that /run-events uses: its runs, and the events of each run.
pub record EventCache : Type 0 where
  pub runs_cache : Dict (ℕ × List Text)
  pub events_cache : Dict (ℕ × List Event)

-- stem if stem else (runs[0] if runs else None)
unfoldable pub target_of : Option Text → List Text → Option Text
target_of (some (c ∷ t)) runs = some (c ∷ t)
target_of _ [] = none
target_of _ (r ∷ runs) = some r

module _ (decode : List ℕ → Text) where
  unfoldable pub events_of :
      ℕ → LogDir → Option Text → Dict (ℕ × List Event) → List Event × Bool × Dict (ℕ × List Event)
  unfolding cached
  events_of now logs none cache = ([], false, cache)
  events_of now logs (some target) cache = elim (logs.bytes (target ++ codes ".stderr")) [
    | none ↦ ([], false, cache)
    | some file ↦
        let (events, kept) =
          cached now (codes "run_events:" ++ target) (parse_events (decode file)) cache in
        (events, true, kept)
  ]

  unfoldable pub run_events_for : ℕ → LogDir → Option Text → EventCache → RunEvents × EventCache
  unfolding cached discover_runs target_of events_of
  run_events_for now logs stem cache =
      let (runs, runs_kept) =
        cached now (codes "discover_runs") (discover_runs logs) cache.runs_cache in
      let target = target_of stem runs in
      let (events, available, events_kept) = events_of now logs target cache.events_cache in
      (
        record { stem = target; runs = runs; events = events; available = available },
        record { runs_cache = runs_kept; events_cache = events_kept },
      )

  -- A stem that is given and not empty is checked.
  unfoldable pub run_events : ℕ → LogDir → Option Text → EventCache → Answer RunEvents × EventCache
  unfolding run_events_for
  run_events now logs stem cache =
      let (found, kept) = run_events_for now logs stem cache in
      elim (stem_is_bad stem) [ true ↦ (refused 400, cache) | false ↦ (answer found, kept) ]

  latest_text : LogDir → Text → Text → ℕ → Text
  unfolding matching newest_first
  latest_text logs id suffix n =
      elim (newest_first logs.mtime
        (matching (codes "bead-" ++ (id ++ codes "-")) suffix logs.names)) [
          | [] ↦ []
          | name ∷ older ↦ elim (logs.bytes name) [
            | none ↦ []
            | some file ↦ join_lines (last_of n (splitlines (decode file)))
          ]
        ]

  -- The prompt is not shown.
  unfoldable pub bead_logs : LogDir → Text → ℕ → Answer RunLogs
  unfolding valid_bead_id clamp_tail latest_text
  bead_logs logs id tail =
      let stdout = latest_text logs id (codes ".stdout") (clamp_tail 2000 tail) in
      let stderr = latest_text logs id (codes ".stderr") (clamp_tail 2000 tail) in
      if valid_bead_id id
      then answer (record {
        prompt = [];
        stdout = stdout;
        stderr = stderr;
        available = not (is_empty stdout && is_empty stderr);
      })
      else refused 400

-- pages_serve for a path in the bundle other than the index: `root` and `candidate` are the real paths
-- of the bundle and of the path in it.
unfoldable pub serve_asset : Text → Text → Text → (Text → Bool) → Answer Text
serve_asset file_path root candidate is_file =
    if any (λ c. c == 0) file_path
    then refused 404
    else if not (starts_with (root ++ codes "/") candidate)
    then refused 404
    else if is_file candidate
    then answer candidate
    else refused 404

-- ===== src/Narrative/Timeline.antt =====
-- run_narrative.py: the timeline of a run and the grouping of its reads.
use orchestrator_service.Prelude.{
  ℕ, zero, suc, ==_iff, ap, refl, ◌≡◌, sym, ◌∙◌, ◌-◌, Text, codes, Bool, true, false, ◌&&◌, not,
  Option, none, some, List, [], ◌∷◌, ◌++◌, map, reverse, length, ltb, ◌==◌, if◌then◌else◌, is_empty,
  strip,
}
use orchestrator_service.Narrative.Events.{
  Kind, delegation, delegation_done, error_kind, tool, webfetch, read, write, glob, checklist,
  model, watchdog, exit_kind, Event,
}

-- `agent or default`
unfoldable pub agent_or : Text → Option Text → Text
agent_or default none = default
agent_or default (some a) = if is_empty a then default else a

-- detail.rsplit("/", 1)[-1]
unfoldable pub last_part : Text → Text → Text
last_part acc [] = reverse acc
last_part acc (c ∷ t) = last_part (if c == b'/' then [] else c ∷ acc) t

unfoldable pub summarize_event : Kind → Option Text → Text → Text
unfolding agent_or last_part
summarize_event delegation agent detail =
    codes "Delegated to "
    ++ (agent_or (codes "subagent") agent
        ++ (codes " agent" ++ (if is_empty detail then [] else codes ": " ++ detail)))
summarize_event delegation_done agent detail =
    strip (codes "Subagent " ++ (agent_or [] agent ++ codes " returned"))
summarize_event error_kind agent detail = codes "Error: " ++ detail
summarize_event exit_kind agent detail = detail
summarize_event watchdog agent detail = codes "Watchdog: " ++ detail
summarize_event model agent detail = codes "Model: " ++ detail
summarize_event checklist agent detail = codes "Checklist: " ++ detail
summarize_event read agent detail = codes "Read " ++ last_part [] detail
summarize_event glob agent detail = codes "Search files: " ++ detail
summarize_event webfetch agent detail = codes "Fetch URL: " ++ detail
summarize_event write agent detail = codes "Write " ++ detail
summarize_event tool agent detail = detail

-- _GROUPABLE
unfoldable pub is_groupable : Kind → Bool
is_groupable read = true
is_groupable glob = true
is_groupable webfetch = true
is_groupable _ = false

-- Kinds are compared by their numbers in the list of them.
unfoldable pub kind_number : Kind → ℕ
kind_number delegation = 0
kind_number delegation_done = 1
kind_number error_kind = 2
kind_number tool = 3
kind_number webfetch = 4
kind_number read = 5
kind_number write = 6
kind_number glob = 7
kind_number checklist = 8
kind_number model = 9
kind_number watchdog = 10
kind_number exit_kind = 11

unfoldable pub same_kind : Kind → Kind → Bool
unfolding kind_number
same_kind j k = kind_number j == kind_number k

-- Kinds that are the same compare alike.
pub same_kind_left : (i j k : Kind) → same_kind i j ≡ true → same_kind i k ≡ same_kind j k
unfolding same_kind
same_kind_left i j k h =
    ap (λ (n : ℕ). n == kind_number k) ((==_iff (kind_number i) (kind_number j)).0 h)

pub same_kind_right : (i j k : Kind) → same_kind j k ≡ true → same_kind i j ≡ same_kind i k
unfolding same_kind
same_kind_right i j k h =
    ap (λ (n : ℕ). kind_number i == n) ((==_iff (kind_number j) (kind_number k)).0 h)

kind_at : ℕ → Kind
kind_at n =
    if n == 0
    then delegation
    else if n == 1
    then delegation_done
    else if n == 2
    then error_kind
    else if n == 3
    then tool
    else if n == 4
    then webfetch
    else if n == 5
    then read
    else if n == 6
    then write
    else if n == 7
    then glob
    else if n == 8
    then checklist
    else if n == 9
    then model
    else if n == 10
    then watchdog
    else exit_kind

kind_at-kind_number : (k : Kind) → kind_at (kind_number k) ≡ k
unfolding kind_at kind_number
kind_at-kind_number delegation = refl
kind_at-kind_number delegation_done = refl
kind_at-kind_number error_kind = refl
kind_at-kind_number tool = refl
kind_at-kind_number webfetch = refl
kind_at-kind_number read = refl
kind_at-kind_number write = refl
kind_at-kind_number glob = refl
kind_at-kind_number checklist = refl
kind_at-kind_number model = refl
kind_at-kind_number watchdog = refl
kind_at-kind_number exit_kind = refl

pub same_kind_eq : (j k : Kind) → same_kind j k ≡ true → j ≡ k
unfolding same_kind
same_kind_eq j k h =
    sym (kind_at-kind_number j)
    ∙ (ap kind_at ((==_iff (kind_number j) (kind_number k)).0 h) ∙ kind_at-kind_number k)

pub same_kind_refl : (k : Kind) → same_kind k k ≡ true
unfolding same_kind
same_kind_refl k = (==_iff (kind_number k) (kind_number k)).1 refl

unfoldable pub verb_for_kind : Kind → Text
verb_for_kind read = codes "Read"
verb_for_kind glob = codes "Searched"
verb_for_kind webfetch = codes "Fetched"
verb_for_kind _ = codes "Processed"

unfoldable pub noun_for_kind : Kind → Text
noun_for_kind read = codes "files"
noun_for_kind glob = codes "patterns"
noun_for_kind webfetch = codes "URLs"
noun_for_kind _ = codes "items"

-- An entry of the timeline; `items` only where entries were grouped.
pub record Entry (Real : Type 0) : Type 0 where
  pub seq : ℕ
  pub kind : Kind
  pub agent : Option Text
  pub detail : Text
  pub offset_s : Real
  pub summary : Text
  pub items : Option (List Text)

-- `timeline[j]["kind"] == entry["kind"]` from `j` on: the run, and what is behind it.
module _ {Real : Type 0} where
  unfoldable pub run_from : Kind → List (Entry Real) → List (Entry Real)
  run_from kind [] = []
  run_from kind (e ∷ es) =
      let more = run_from kind es in if same_kind e.kind kind then e ∷ more else []

  unfoldable pub behind_run : Kind → List (Entry Real) → List (Entry Real)
  behind_run kind [] = []
  behind_run kind (e ∷ es) =
      let rest = behind_run kind es in if same_kind e.kind kind then rest else e ∷ es

  -- The entry that stands for a run of two or more; `decimal` is str of an int.
  unfoldable pub grouped_entry : (ℕ → Text) → Entry Real → List (Entry Real) → Entry Real
  unfolding noun_for_kind verb_for_kind
  grouped_entry decimal e more =
      let count = decimal (length (e ∷ more)) in
      let noun = noun_for_kind e.kind in
      record {
        seq = e.seq;
        kind = e.kind;
        agent = none;
        detail = count ++ (codes " " ++ noun);
        offset_s = e.offset_s;
        summary = verb_for_kind e.kind ++ (codes " " ++ (count ++ (codes " " ++ noun)));
        items = some (map (λ (r : Entry Real). r.detail) (e ∷ more));
      }

  unfoldable pub entry_for_run : (ℕ → Text) → Entry Real → List (Entry Real) → Entry Real
  unfolding grouped_entry
  entry_for_run decimal e more = if is_empty more then e else grouped_entry decimal e more

  -- The while loop, one unit of fuel for each round.
  unfoldable pub group_loop : (ℕ → Text) → ℕ → List (Entry Real) → List (Entry Real)
  unfolding run_from behind_run entry_for_run is_groupable
  group_loop decimal zero timeline = []
  group_loop decimal (suc fuel) [] = []
  group_loop decimal (suc fuel) (e ∷ es) =
      let one = e ∷ group_loop decimal fuel es in
      let rest = group_loop decimal fuel (behind_run e.kind es) in
      if is_groupable e.kind then entry_for_run decimal e (run_from e.kind es) ∷ rest else one

  unfoldable pub group_timeline : (ℕ → Text) → List (Entry Real) → List (Entry Real)
  unfolding group_loop
  group_timeline decimal timeline = group_loop decimal (length timeline) timeline

-- `Real` stands for Python's floats, `nothing` for the int 0 and `portion total k n` for
-- round(total * k / n, 1).
module _ {Real : Type 0} (nothing : Real) (is_nothing : Real → Bool)
    (portion : Real → ℕ → ℕ → Real) where
  unfoldable pub offset_of : Option Real → ℕ → ℕ → Real
  offset_of none n seq = nothing
  offset_of (some total) n seq =
      if ltb 1 n && not (is_nothing total) then portion total (seq - 1) n else nothing

  unfoldable pub entry_of : Option Real → ℕ → Event → Entry Real
  unfolding offset_of summarize_event
  entry_of duration n e = record {
    seq = e.seq;
    kind = e.kind;
    agent = e.agent;
    detail = e.detail;
    offset_s = offset_of duration n e.seq;
    summary = summarize_event e.kind e.agent e.detail;
    items = none;
  }

  unfoldable pub build_timeline : List Event → Option Real → List (Entry Real)
  unfolding entry_of
  build_timeline events duration = map (entry_of duration (length events)) events

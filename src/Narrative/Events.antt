-- ===== src/Narrative/Events.antt =====
-- run_stream.py, parse_events: the captured client stream as a list of typed events.
use orchestrator_service.Prelude.{
  ℕ, ◌+◌, Text, codes, Bool, true, false, ◌&&◌, ◌||◌, Option, none, some, List, [], ◌∷◌, ◌++◌,
  reverse, length, take, drop, any, ltb, ◌==◌, if◌then◌else◌, is_empty, starts_with, contains,
  strip, lstrip, lower, is_space,
}
use orchestrator_service.Runner.Stream.{letter, digit, run_of, stripped, splitlines}

-- The kinds, which the code spells as text.
pub data Kind : Type 0 where
  delegation delegation_done error_kind tool webfetch read write glob checklist : Kind
  model watchdog exit_kind : Kind

pub record Event : Type 0 where
  pub seq : ℕ
  pub kind : Kind
  pub agent : Option Text
  pub detail : Text

noise_prefixes : List Text
noise_prefixes =
    codes "INFO "
    ∷ codes "sqlite-migration"
    ∷ codes "Database migration"
    ∷ codes "Performing one time"
    ∷ []

unfoldable pub is_noise : Text → Bool
unfolding noise_prefixes
is_noise line = any (λ p. starts_with p line) noise_prefixes

-- _GLYPH_KIND
unfoldable pub glyph_kind : ℕ → Option Kind
glyph_kind g =
    if g == 8226
    then some delegation
    else if g == 10003
    then some delegation_done
    else if g == 10007
    then some error_kind
    else if g == 9881
    then some tool
    else if g == b'%'
    then some webfetch
    else if g == 8594
    then some read
    else if g == 8592
    then some write
    else if g == 10033
    then some glob
    else if g == b'#'
    then some checklist
    else none

-- What a line without a glyph says, if it is kept.
unfoldable pub plain_kind : Text → Option Kind
plain_kind line =
    if starts_with (codes "> orchestrator") line
    then some model
    else if contains (codes "[watchdog]") line
    then some watchdog
    else if contains (codes "Invalid Tool") line || contains (codes "Rate limit") line
    then some error_kind
    else if contains (codes "exited with code") (lower line)
    then some exit_kind
    else none

word_char : ℕ → Bool
word_char c = letter c || digit c || c == b'_'

-- \s+Agent\s*$
agent_tail : Text → Bool
agent_tail [] = false
agent_tail (c ∷ t) =
    is_space c && (starts_with (codes "Agent") (lstrip t) && is_empty (lstrip (drop 5 (lstrip t))))

-- The name that _AGENT_RE matches at the beginning of the text.
agent_at : Text → Option Text
unfolding letter digit run_of agent_tail
agent_at [] = none
agent_at (c ∷ t) =
    let name = run_of (λ x. letter x || digit x || x == b'-') t in
    if letter c && agent_tail (drop (length name) t) then some (c ∷ name) else none

-- _AGENT_RE.search: the name and the text in front of the match; `before` is what was passed, last
-- character first, and `inside` whether that is a word character.
unfoldable pub find_agent : Bool → Text → Text → Option (Text × Text)
unfolding word_char agent_at
find_agent inside before [] = none
find_agent inside before (c ∷ t) =
    let later = find_agent (word_char c) (c ∷ before) t in
    if inside
    then later
    else elim (agent_at (c ∷ t)) [ none ↦ later | some name ↦ some (name, reverse before) ]

unfoldable pub rstrip : Text → Text
rstrip t = reverse (lstrip (reverse t))

unfoldable pub names_agent : Kind → Bool
names_agent delegation = true
names_agent delegation_done = true
names_agent _ = false

-- Agent and detail of a line, from what is behind its glyph.
unfoldable pub split_agent : Kind → Text → Option Text × Text
unfolding names_agent find_agent rstrip
split_agent kind detail =
    if names_agent kind
    then elim (find_agent false [] detail) [
      | none ↦ (none, detail)
      | some (name, front) ↦ (some name, rstrip front)
    ]
    else (none, detail)

unfoldable pub is_tool : Kind → Bool
is_tool tool = true
is_tool _ = false

-- The detail of a tool call is cut at 140 characters.
unfoldable pub shorten : Kind → Text → Text
unfolding is_tool rstrip
shorten kind detail =
    if is_tool kind && ltb 140 (length detail)
    then rstrip (take 140 detail) ++ 8230 ∷ []
    else detail

-- The kind of a line and the text of its detail.
unfoldable pub kind_of : Text → Option (Kind × Text)
unfolding glyph_kind plain_kind
kind_of [] = none
kind_of (g ∷ rest) = elim (glyph_kind g) [
  | some kind ↦ some (kind, strip rest)
  | none ↦ elim (plain_kind (g ∷ rest)) [ none ↦ none | some kind ↦ some (kind, g ∷ rest) ]
]

unfoldable pub event_with : ℕ → Kind → Text → Event
unfolding split_agent shorten
event_with seq kind detail = record {
  seq = seq;
  kind = kind;
  agent = (split_agent kind detail).0;
  detail = shorten kind (split_agent kind detail).1;
}

-- The body of the loop: a line that is empty, noise, or says nothing is dropped.
unfoldable pub event_of : ℕ → Text → Option Event
unfolding is_noise kind_of event_with
event_of seq line = if is_empty line || is_noise line then none else elim (kind_of line) [
  | none ↦ none
  | some (kind, detail) ↦ some (event_with seq kind detail)
]

-- The loop, with `seq` the number of the last event.
unfoldable pub events_from : ℕ → List Text → List Event
unfolding event_of
events_from seq [] = []
events_from seq (raw ∷ lines) = elim (event_of (seq + 1) (stripped raw)) [
  | none ↦ events_from seq lines
  | some event ↦ event ∷ events_from (seq + 1) lines
]

unfoldable pub parse_events : Text → List Event
unfolding events_from
parse_events stderr = events_from 0 (splitlines stderr)

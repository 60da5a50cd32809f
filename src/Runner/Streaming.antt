-- ===== src/Runner/Streaming.antt =====
-- runner.py, _stream_to_logger_and_file, and filters.py, should_filter: what becomes of the lines that
-- an agent prints.
use mathlib.Core.List.{append_assoc, append-nil}
use orchestrator_service.Prelude.{
  Text, codes, Bool, false, ◌≡◌, refl, Option, none, some, List, [], ◌∷◌, ◌++◌, any, if◌then◌else◌,
  is_empty, strip, All, Bool-cases, inl, inr,
}
use orchestrator_service.Filters.{split_from}
use orchestrator_service.Narrative.Events.{rstrip}
use orchestrator_service.Runner.Comments.{format_log_line}
use orchestrator_service.Watchdog.Signals.{WatchdogState, record_line}
use orchestrator_service.Watchdog.Signals.Streak.{Line, read_all}

unfoldable pub default_blacklist : List Text
default_blacklist =
    codes "service=bus\\s+type=message\\.part\\.delta"
    ∷ codes "service=bus\\s+type=message\\.part\\.updated"
    ∷ codes "evaluated permission=.*action\\.action=allow"
    ∷ codes "message=tracking hash="
    ∷ codes "message=loop .*step="
    ∷ codes "message=stream .*modelID="
    ∷ codes "\"llm runtime selected\""
    ∷ codes "message=process .*messageID="
    ∷ codes "\"touching file\""
    ∷ codes "^$"
    ∷ codes "message=loading path="
    ∷ codes "created id=ses"
    ∷ []

-- [p.strip() for p in pieces if p.strip()]
stripped_pieces : List Text → List Text
stripped_pieces [] = []
stripped_pieces (p ∷ ps) =
    let rest = stripped_pieces ps in if is_empty (strip p) then rest else strip p ∷ rest

-- The argument is the value of TRACE_BLACKLIST_PATTERNS.
unfoldable pub load_patterns : Text → List Text
unfolding default_blacklist stripped_pieces
load_patterns raw =
    if is_empty (strip raw) then default_blacklist else stripped_pieces (split_from 10 [] raw)

-- `search` is re.search: the pattern, and the line.
unfoldable pub should_filter : (Text → Text → Bool) → List Text → Text → Bool
should_filter search patterns line = any (λ p. search p line) patterns

-- What a reader leaves: the text of the file, the state of the watchdog, if it has one, and the lines
-- that were logged.
pub record Streamed : Type 0 where
  pub file : Text
  pub state : Option WatchdogState
  pub logged : List Text

record_in : Line → Option WatchdogState → Option WatchdogState
record_in l none = none
record_in l (some s) = some (record_line l.content l.at s)

unfoldable pub log_line : Text → Text → Text
log_line label line = codes "[" ++ (label ++ (codes "] " ++ format_log_line (rstrip line)))

module _ (filters : Text → Bool) (label : Text) where
  unfoldable pub stream_line : Line → Streamed → Streamed
  unfolding record_in log_line
  stream_line l s = record {
    file = s.file ++ l.content;
    state = record_in l s.state;
    logged = if filters l.content then s.logged else s.logged ++ log_line label l.content ∷ [];
  }

  -- The lines that readline gives; the reading ends with an empty one, or when the pipe is closed.
  unfoldable pub stream_lines : List Line → Streamed → Streamed
  unfolding stream_line
  stream_lines [] s = s
  stream_lines (l ∷ ls) s =
      let rest = stream_lines ls (stream_line l s) in if is_empty l.content then s else rest

-- The contents of the lines, one after another.
abbrev pub contents : List Line → Text
contents [] = []
contents (l ∷ ls) = l.content ++ contents ls

-- The lines that the log shows.
abbrev pub shown : (Text → Bool) → Text → List Line → List Text
shown filters label [] = []
shown filters label (l ∷ ls) =
    if filters l.content
    then shown filters label ls
    else log_line label l.content ∷ shown filters label ls

module _ (filters : Text → Bool) (label : Text) where
  -- If no line is empty, then the file of a run gets all that the agent printed, and the watchdog
  -- counts every line, whatever the filter hides; the log gets, in their order, just the lines
  -- that the filter lets through.
  pub stream_lines_lem :
      (ls : List Line) (file : Text) (state : WatchdogState) (logged : List Text)
      → All (λ l. is_empty l.content ≡ false) ls
      → stream_lines filters label ls (record { file = file; state = some state; logged = logged })
        ≡ record {
          file = file ++ contents ls;
          state = some (read_all ls state);
          logged = logged ++ shown filters label ls;
        }
  unfolding stream_lines read_all
  stream_lines_lem [] file state logged h = rw (append-nil file, append-nil logged) refl
  stream_lines_lem (l ∷ ls) file state logged (h, hs) = elim (Bool-cases (filters l.content)) [
    | inl hidden ↦
        rw
          (
            h,
            hidden,
            stream_lines_lem ls (file ++ l.content) (record_line l.content l.at state) logged hs,
            append_assoc file l.content (contents ls),
          )
          refl
    | inr seen ↦
        rw
          (
            h,
            seen,
            stream_lines_lem ls (file ++ l.content) (record_line l.content l.at state)
                (logged ++ log_line label l.content ∷ []) hs,
            append_assoc file l.content (contents ls),
            append_assoc logged (log_line label l.content ∷ []) (shown filters label ls),
          )
          refl
  ]

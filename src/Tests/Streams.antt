-- ===== src/Tests/Streams.antt =====
-- What an agent printed, as a reader passes it on.
use orchestrator_service.Prelude.{Text, codes, Bool, ◌≡◌, refl, some, List, [], ◌∷◌, ◌++◌, contains}
use orchestrator_service.Watchdog.Signals.{new_state}
use orchestrator_service.Watchdog.Signals.Streak.{Line, read_all}
use orchestrator_service.Runner.Streaming.{
  should_filter, stream_lines, contents, shown, stream_lines_lem,
}

-- A filter for one plain text.
abbrev hides : Text → Bool
hides = should_filter contains (codes "touching file" ∷ [])

abbrev printed : List Line
printed =
    record { content = codes "touching file a\n"; at = 11 }
    ∷ record { content = codes "done\n"; at = 12 }
    ∷ []

stream_lines_lem_example :
    stream_lines hides
      (codes "run")
      printed
      (record { file = codes "boot\n"; state = some (new_state 10); logged = [] })
    ≡ record {
      file = codes "boot\n" ++ contents printed;
      state = some (read_all printed (new_state 10));
      logged = [] ++ shown hides (codes "run") printed;
    }
stream_lines_lem_example =
    stream_lines_lem hides (codes "run") printed (codes "boot\n") (new_state 10) []
      (refl, (refl, tt))

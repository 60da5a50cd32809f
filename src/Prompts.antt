-- ===== src/Prompts.antt =====
-- prompts.py: the event in a prompt, and how it is cut.
use orchestrator_service.Prelude.{ℕ, Text, codes, Bool, ◌++◌, length, take, ltb, if◌then◌else◌}

-- _format_event_data: `event_json` is the payload with its delivery id and type, as json.dumps prints
-- it; the text, and whether it was cut.
unfoldable pub format_event_data : Text → ℕ → Text × Bool
format_event_data event_json limit =
    let truncated = ltb limit (length event_json) in
    (if truncated then take limit event_json else event_json, truncated)

-- `render` fills the template.
unfoldable pub build_orchestrator_prompt : (Text → Text) → Text → ℕ → Text
unfolding format_event_data
build_orchestrator_prompt render event_json limit =
    let (shown, truncated) = format_event_data event_json limit in
    if truncated
    then render shown
      ++ codes
          "\n\n(Payload JSON was truncated for size; use `gh` against the repo for full context.)"
    else render shown

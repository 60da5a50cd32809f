-- ===== src/Narrative/Consumers.antt =====
-- run_stream.py: the feed of events and the tools that classify a run read the same lines alike.
mod Names
use orchestrator_service.Prelude.{
  ℕ, ◌+◌, Text, codes, Bool, true, false, not, ◌&&◌, ◌||◌, ◌≡◌, ◌⊎◌, refl, sym, ap, ◌∙◌, inl, inr,
  Option, none, some, List, [], ◌∷◌, ◌++◌, reverse, length, take, starts_with, ltb, ◌==◌, ==_iff,
  if◌then◌else◌, is_empty, is_space, lstrip, strip, lower, same, same_refl, member, All,
  All-reverse, Bool-cases, Option-cases, arith,
}
use mathlib.Core.List.{append_assoc, append-nil, reverse-append, reverse-reverse}
use orchestrator_service.Runner.Stream.{
  letter, digit, run_of, is_plain, token_char, token_of, tool_of, tools_of_lines,
  extract_tool_names, stripped, splitlines,
}
use orchestrator_service.Narrative.Events.{
  Kind, delegation, delegation_done, error_kind, tool, webfetch, read, write, glob, checklist,
  model, watchdog, exit_kind, Event, glyph_kind, plain_kind, names_agent, split_agent, shorten,
  kind_of, event_with, event_of, events_from, parse_events, is_noise, is_tool, rstrip,
}
use orchestrator_service.Narrative.Consumers.Names.{token_of-strip}

-- The kinds of an event whose detail begins with the name of a tool.
abbrev pub shows_tool : Kind → Bool
shows_tool tool = true
shows_tool webfetch = true
shows_tool read = true
shows_tool write = true
shows_tool glob = true
shows_tool checklist = true
shows_tool _ = false

-- Whether the detail may have been cut: that of a tool call, with an ellipsis at its end.
abbrev pub may_be_cut : Kind → Text → Bool
may_be_cut kind detail = is_tool kind && starts_with (8230 ∷ []) (reverse detail)

plain_at : (g n : ℕ) → (g == n) ≡ true → is_plain n ≡ false → is_plain g ≡ false
plain_at g n e h = rw ((==_iff g n).0 e) h

-- No glyph of the feed is a character that may not lead a line of a tool.
glyph_kind-is_plain : (g : ℕ) (kind : Kind) → glyph_kind g ≡ some kind → is_plain g ≡ false
unfolding glyph_kind is_plain letter digit
glyph_kind-is_plain g kind h = ground arith

plain_kind-shows_tool :
    (line : Text) (kind : Kind) → plain_kind line ≡ some kind → shows_tool kind ≡ false
unfolding plain_kind
plain_kind-shows_tool line kind h = ground arith

-- The line names the tool that its event shows.
kind_of-tool_of :
    (line : Text) (kind : Kind) (detail t : Text)
    → kind_of line ≡ some (kind, detail)
    → shows_tool kind ≡ true
    → token_of detail ≡ some t
    → tool_of line ≡ some (lower t)
unfolding kind_of tool_of
kind_of-tool_of [] kind detail t h shows found = cc
kind_of-tool_of (g ∷ rest) kind detail t h shows found = elim (Option-cases (glyph_kind g)) [
  | inl e ↦ elim (Option-cases (plain_kind (g ∷ rest))) [
    | inl f ↦ cc (rw (e, f, kind_of) at h)
    | inr (k, f) ↦
        let known : some (k, g ∷ rest) ≡ some (kind, detail) = rw (e, f, kind_of) at h in
        cc (plain_kind-shows_tool (g ∷ rest) k f)
  ]
  | inr (k, e) ↦
      let known : some (k, strip rest) ≡ some (kind, detail) = rw (e, kind_of) at h in
      let same_detail : strip rest ≡ detail = cc in
      let name : token_of (lstrip rest) ≡ some t =
        token_of-strip rest ∙ (ap token_of same_detail ∙ found) in
      rw (glyph_kind-is_plain g k e, name) refl
]

shows_tool-names_agent : (kind : Kind) → shows_tool kind ≡ true → names_agent kind ≡ false
unfolding names_agent
shows_tool-names_agent kind h = ground arith

pushed-ends : (t : Text) → starts_with (8230 ∷ []) (reverse (t ++ 8230 ∷ [])) ≡ true
unfolding starts_with
pushed-ends t = rw (reverse-append t (8230 ∷ [])) refl

cut_or_whole :
    (is_call long : Bool) (t detail : Text)
    → (is_call
        && starts_with (8230 ∷ []) (reverse (if is_call && long then t ++ 8230 ∷ [] else detail)))
      ≡ false
    → (if is_call && long then t ++ 8230 ∷ [] else detail) ≡ detail
cut_or_whole true true t detail h = cc (pushed-ends t)
cut_or_whole true false t detail h = refl
cut_or_whole false long t detail h = refl

-- A detail that cannot have been cut is the text behind the glyph.
shorten-whole :
    (kind : Kind) (detail : Text)
    → may_be_cut kind (shorten kind detail) ≡ false
    → shorten kind detail ≡ detail
unfolding shorten
shorten-whole kind detail h =
    cut_or_whole (is_tool kind) (ltb 140 (length detail)) (rstrip (take 140 detail)) detail h

split_agent-detail :
    (kind : Kind) (detail : Text) → names_agent kind ≡ false → (split_agent kind detail).1 ≡ detail
unfolding split_agent
split_agent-detail kind detail h = rw h refl

event_with-detail :
    (seq : ℕ) (kind : Kind) (detail : Text)
    → shows_tool kind ≡ true
    → may_be_cut kind (event_with seq kind detail).detail ≡ false
    → (event_with seq kind detail).detail ≡ detail
unfolding event_with
event_with-detail seq kind detail shows whole =
    let is = split_agent-detail kind detail (shows_tool-names_agent kind shows) in
    shorten-whole kind (split_agent kind detail).1 whole ∙ is

-- What an event promises: the tool that it shows, if it cannot have been cut, is among the tools.
abbrev pub IsCounted : List Text → Event → Type 0
IsCounted tools e =
    (t : Text)
    → shows_tool e.kind ≡ true
    → may_be_cut e.kind e.detail ≡ false
    → token_of e.detail ≡ some t
    → member (lower t) tools ≡ true

-- The event of a line is the one of the tool that the line names.
event_of-tool_of :
    (seq : ℕ) (line : Text) (e : Event) (t : Text)
    → event_of seq line ≡ some e
    → shows_tool e.kind ≡ true
    → may_be_cut e.kind e.detail ≡ false
    → token_of e.detail ≡ some t
    → tool_of line ≡ some (lower t)
unfolding event_of
event_of-tool_of seq line e t h shows whole found =
    elim (Bool-cases (is_empty line || is_noise line)) [
      | inl b ↦ cc (rw (event_of, b) at h)
      | inr b ↦ elim (Option-cases (kind_of line)) [
        | inl n ↦ cc (rw (event_of, b, n) at h)
        | inr ((kind, detail), k) ↦
            let made : some (event_with seq kind detail) ≡ some e = rw (event_of, b, k) at h in
            let is : event_with seq kind detail ≡ e = cc in
            let same_kind : shows_tool kind ≡ true =
              ap (λ (x : Event). shows_tool x.kind) is ∙ shows in
            let not_cut : may_be_cut kind (event_with seq kind detail).detail ≡ false =
              ap (λ (x : Event). may_be_cut x.kind x.detail) is ∙ whole in
            let its = event_with-detail seq kind detail same_kind not_cut in
            let token : token_of detail ≡ some t =
              ap token_of (sym its ∙ ap (λ (x : Event). x.detail) is) ∙ found in
            kind_of-tool_of line kind detail t k same_kind token
      ]
    ]

member-added :
    (t : Text) (rest : List Text) → member t (if member t rest then rest else t ∷ rest) ≡ true
member-added t rest = elim (Bool-cases (member t rest)) [
  | inl e ↦ rw (e, e) refl
  | inr e ↦ rw e (unfold member in rw (same_refl t) refl)
]

member-kept :
    (t u : Text) (rest : List Text)
    → member t rest ≡ true
    → member t (if member u rest then rest else u ∷ rest) ≡ true
member-kept t u rest h = elim (Bool-cases (member u rest)) [
  | inl e ↦ rw e h
  | inr e ↦ rw e (unfold member in rw h (ground arith))
]

member-tool :
    (l : Text) (ls : List Text) (t : Text)
    → tool_of (stripped l) ≡ some t
    → member t (tools_of_lines (l ∷ ls)) ≡ true
unfolding tools_of_lines
member-tool l ls t h = rw (h, tools_of_lines) (member-added t (tools_of_lines ls))

member-later :
    (l : Text) (ls : List Text) (t : Text)
    → member t (tools_of_lines ls) ≡ true
    → member t (tools_of_lines (l ∷ ls)) ≡ true
unfolding tools_of_lines
member-later l ls t h = elim (Option-cases (tool_of (stripped l))) [
  | inl n ↦ rw (n, tools_of_lines) h
  | inr (u, e) ↦ rw (e, tools_of_lines) (member-kept t u (tools_of_lines ls) h)
]

IsCounted-later :
    (l : Text) (ls : List Text) (es : List Event)
    → All (IsCounted (tools_of_lines ls)) es
    → All (IsCounted (tools_of_lines (l ∷ ls))) es
IsCounted-later l ls [] h = tt
IsCounted-later l ls (e ∷ es) (h, hs) = (
  λ t shows whole found. member-later l ls (lower t) (h t shows whole found),
  IsCounted-later l ls es hs,
)

events_from-IsCounted :
    (seq : ℕ) (lines : List Text) → All (IsCounted (tools_of_lines lines)) (events_from seq lines)
unfolding events_from
events_from-IsCounted seq [] = tt
events_from-IsCounted seq (raw ∷ lines) = elim (Option-cases (event_of (seq + 1) (stripped raw))) [
  | inl n ↦
      rw (n, events_from)
        (IsCounted-later raw lines (events_from seq lines) (events_from-IsCounted seq lines))
  | inr (e, is) ↦
      rw (is, events_from)
        (
          λ t shows whole found.
              member-tool raw lines (lower t)
                (event_of-tool_of (seq + 1) (stripped raw) e t is shows whole found),
          IsCounted-later raw lines (events_from (seq + 1) lines)
              (events_from-IsCounted (seq + 1) lines),
        )
]

-- Each event of the feed that shows a fetch, a read, a write, a glob or a checklist, or a tool call
-- whose detail does not end in an ellipsis, and whose detail begins with a name, is counted: the
-- name, in lower case, is among the tools by which the run is classified.
pub parse_events-extract_tool_names :
    (stderr : Text) → All (IsCounted (extract_tool_names stderr)) (parse_events stderr)
unfolding parse_events extract_tool_names
parse_events-extract_tool_names stderr = events_from-IsCounted 0 (splitlines stderr)

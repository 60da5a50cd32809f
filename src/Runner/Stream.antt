-- ===== src/Runner/Stream.antt =====
-- run_stream.py: the tools that a captured client stream names. runner.py reads them to tell a run
-- that worked from one that only planned.
use orchestrator_service.Prelude.{
  ℕ, zero, suc, ◌+◌, ◌-◌, Text, codes, Bool, false, not, ◌&&◌, ◌||◌, Option, none, some, List, [],
  ◌∷◌, reverse, length, drop, leb, ◌==◌, if◌then◌else◌, is_empty, member, strip, lstrip, lower,
}

unfoldable pub letter : ℕ → Bool
letter c = (leb b'A' c && leb c b'Z') || (leb b'a' c && leb c b'z')

unfoldable pub digit : ℕ → Bool
digit c = leb b'0' c && leb c b'9'

among : ℕ → Text → Bool
among c [] = false
among c (d ∷ t) = c == d || among c t

-- The longest run of characters that pass the test.
unfoldable pub run_of : (ℕ → Bool) → Text → Text
run_of test [] = []
run_of test (c ∷ t) = let rest = run_of test t in if test c then c ∷ rest else []

-- The length of what ANSI_RE matches at the beginning: ESC [ parameters letter.
ansi_tail : Text → ℕ → Option ℕ
unfolding letter
ansi_tail [] n = none
ansi_tail (c ∷ t) n = if letter c then some (n + 1) else none

unfoldable pub ansi_length : Text → Option ℕ
unfolding run_of digit ansi_tail
ansi_length [] = none
ansi_length (e ∷ []) = none
ansi_length (e ∷ b ∷ t) =
    let params = run_of (λ c. digit c || c == b';') t in
    if e == 27 && b == b'[' then ansi_tail (drop (length params) t) (length params + 2) else none

-- ANSI_RE.sub("", line); `skip` characters belong to a match before.
unfoldable pub strip_ansi : ℕ → Text → Text
strip_ansi skip [] = []
strip_ansi (suc k) (c ∷ t) = strip_ansi k t
strip_ansi zero (c ∷ t) = elim (ansi_length (c ∷ t)) [
  | none ↦ c ∷ strip_ansi zero t
  | some n ↦ strip_ansi (n - 1) t
]

unfoldable pub stripped : Text → Text
unfolding strip_ansi
stripped line = strip (strip_ansi zero line)

-- A character that _GLYPH_CHAR does not allow to lead.
unfoldable pub is_plain : ℕ → Bool
unfolding letter digit among
is_plain c = letter c || digit c || among c (32 ∷ 9 ∷ 13 ∷ 10 ∷ codes "{}()[]\"'<>,;:|\\/")

-- The places where str.splitlines cuts.
unfoldable pub is_line_end : ℕ → Bool
unfolding among
is_line_end c = leb 10 c && leb c 13 || leb 28 c && leb c 30 || among c (133 ∷ 8232 ∷ 8233 ∷ [])

-- `after_cr` says that the character before was \r, with which a \n makes one line end; `acc` is the
-- line so far, its last character first.
unfoldable pub split_from : Bool → Text → Text → List Text
unfolding is_line_end
split_from after_cr acc [] = if is_empty acc then [] else reverse acc ∷ []
split_from after_cr acc (c ∷ t) =
    let rest = split_from (c == 13) (if is_line_end c then [] else c ∷ acc) t in
    if is_line_end c && not (after_cr && c == 10) then reverse acc ∷ rest else rest

unfoldable pub splitlines : Text → List Text
unfolding split_from
splitlines = split_from false []

-- [A-Za-z0-9_-]
unfoldable pub token_char : ℕ → Bool
token_char c = letter c || digit c || c == b'_' || c == b'-'

-- _TOKEN_RE.match(text)
unfoldable pub token_of : Text → Option Text
token_of [] = none
token_of (c ∷ t) = if letter c then some (c ∷ run_of token_char t) else none

-- The tool that a stripped line names, if a glyph leads it.
unfoldable pub tool_of : Text → Option Text
unfolding is_plain token_of
tool_of [] = none
tool_of (g ∷ rest) =
    if is_plain g
    then none
    else elim (token_of (lstrip rest)) [ none ↦ none | some t ↦ some (lower t) ]

-- The set of tools, as a list that is searched and sorted only.
unfoldable pub tools_of_lines : List Text → List Text
tools_of_lines [] = []
tools_of_lines (l ∷ ls) =
    let rest = tools_of_lines ls in
    elim (tool_of (stripped l)) [ none ↦ rest | some t ↦ if member t rest then rest else t ∷ rest ]

unfoldable pub extract_tool_names : Text → List Text
unfolding splitlines tools_of_lines stripped tool_of
extract_tool_names stderr = tools_of_lines (splitlines stderr)

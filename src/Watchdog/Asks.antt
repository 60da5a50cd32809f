-- ===== src/Watchdog/Asks.antt =====
-- watchdog.py, _PermissionAskMonitor: the permission question that nobody has answered, and the
-- session of this dispatch, as the server log shows them.
pub mod Sessions
use orchestrator_service.Prelude.{
  ℕ, suc, zero, ◌+◌, ◌-◌, Text, codes, Bool, true, false, ◌&&◌, ◌||◌, not, Option, none, some, List,
  [], ◌∷◌, ◌++◌, length, take, drop, reverse, ltb, leb, ◌==◌, if◌then◌else◌, starts_with, is_space,
  strip, same, is_empty,
}

-- [A-Za-z]
is_letter : ℕ → Bool
is_letter c = (leb b'A' c && leb c b'Z') || (leb b'a' c && leb c b'z')

is_digit : ℕ → Bool
is_digit c = leb b'0' c && leb c b'9'

-- \w
is_word : ℕ → Bool
unfolding is_letter is_digit
is_word c = is_letter c || is_digit c || c == b'_'

-- The longest run of characters that pass the test.
span_of : (ℕ → Bool) → Text → Text
span_of test [] = []
span_of test (c ∷ t) = let rest = span_of test t in if test c then c ∷ rest else []

-- \b at a place between a word character and `t`
word_ends : Text → Bool
word_ends [] = true
word_ends (c ∷ t) = not (is_word c)

newline : ℕ
newline = 10

ask_text : Text
ask_text = codes "message=asking"

permission_text : Text
permission_text = codes "permission="

-- `.*?permission=([A-Za-z_]+)` from here on, with the text that it matches
match_permission : Text → Option Text
match_permission [] = none
match_permission (c ∷ t) =
    let here = starts_with permission_text (c ∷ t) in
    let kind = span_of (λ x. is_letter x || x == b'_') (drop (length permission_text) (c ∷ t)) in
    let later = match_permission t in
    if here && not (is_empty kind)
    then some (permission_text ++ kind)
    else if c == newline
    then none
    else elim later [ none ↦ none | some m ↦ some (c ∷ m) ]

-- _ASK_RE at the beginning of a text
unfoldable pub match_ask : Text → Option Text
unfolding match_permission is_letter is_word span_of word_ends newline ask_text permission_text
match_ask t =
    let rest = drop (length ask_text) t in
    if starts_with ask_text t && word_ends rest
    then elim (match_permission rest) [ none ↦ none | some m ↦ some (ask_text ++ m) ]
    else none

-- _REPLIED_RE at the beginning of a text
unfoldable pub matches_reply : Text → Bool
matches_reply t =
    starts_with (codes "message=replied") t || starts_with (codes "permission.replied") t

-- The last match of _ASK_RE: its start and its text. `skip` characters belong to a match before.
unfoldable pub last_ask : ℕ → ℕ → Option (ℕ × Text) → Text → Option (ℕ × Text)
last_ask skip i found [] = found
last_ask (suc k) i found (c ∷ t) = last_ask k (i + 1) found t
last_ask zero i found (c ∷ t) = elim (match_ask (c ∷ t)) [
  | none ↦ last_ask zero (i + 1) found t
  | some m ↦ last_ask (length m - 1) (i + 1) (some (i, m)) t
]

-- The start of the last match of _REPLIED_RE; no two matches overlap.
unfoldable pub last_reply : ℕ → Option ℕ → Text → Option ℕ
last_reply i found [] = found
last_reply i found (c ∷ t) = last_reply (i + 1) (if matches_reply (c ∷ t) then some i else found) t

-- The longest run of non-spaces behind `key` (`(\S+)`), at the first place in the line where `key`
-- begins at a word boundary; `inside` tells whether a word character stands before.
unfoldable pub find_value : Bool → Text → Text → Option Text
unfolding is_word span_of
find_value inside key [] = none
find_value inside key (c ∷ t) =
    let value = span_of (λ x. not (is_space x)) (drop (length key) (c ∷ t)) in
    let later = find_value (is_word c) key t in
    if not inside && starts_with key (c ∷ t) && not (is_empty value) then some value else later

-- _SESSION_CREATED_RE in a line: the first session id
unfoldable pub find_created : Text → Option Text
unfolding is_letter is_digit span_of
find_created [] = none
find_created (c ∷ t) =
    let id = span_of (λ x. is_letter x || is_digit x) (drop 15 (c ∷ t)) in
    let later = find_created t in
    if starts_with (codes "created id=ses_") (c ∷ t) && not (is_empty id)
    then some (codes "ses_" ++ id)
    else later

abbrev says : Option Text → Text → Bool
says none t = false
says (some v) t = same v t

-- `directory` is none without a configured one.
unfoldable pub creation_qualifies : Option Text → Text → Bool
unfolding find_value span_of is_word
creation_qualifies none line = true
creation_qualifies (some dir) line =
    says (find_value false (codes "directory=") line) dir
    && says (find_value false (codes "parentID=") line) (codes "undefined")

-- text.split("\n")
unfoldable pub lines_from : Text → Text → List Text
unfolding newline
lines_from acc [] = reverse acc ∷ []
lines_from acc (c ∷ t) =
    let cut = lines_from [] t in
    let more = lines_from (c ∷ acc) t in if c == newline then reverse acc ∷ cut else more

-- The loop over the matches of _SESSION_CREATED_RE, line by line: a match stays in one line, and
-- all matches of a line qualify or none does.
unfoldable pub first_session : Option Text → List Text → Option Text
first_session dir [] = none
first_session dir (l ∷ ls) =
    let later = first_session dir ls in
    if creation_qualifies dir l
    then elim (find_created l) [ none ↦ later | some id ↦ some id ]
    else later

pub record PermissionAskMonitor : Type 0 where
  pub enabled : Bool
  pub directory : Option Text
  pub pos : ℕ
  pub last_ask_time : Option ℕ
  pub last_ask_detail : Text
  pub session_id : Option Text

-- The last part of `poll`: the newest of the two signals of the chunk decides.
unfoldable pub resolve :
    Option ℕ → Option (ℕ × Text) → ℕ → PermissionAskMonitor → PermissionAskMonitor
resolve none none now m = m
resolve (some r) none now m = record m { last_ask_time = none }
resolve none (some (i, detail)) now m = record m {
  last_ask_time = some now;
  last_ask_detail = take 160 (strip detail);
}
resolve (some r) (some (i, detail)) now m =
    if ltb i r
    then record m { last_ask_time = none }
    else record m { last_ask_time = some now; last_ask_detail = take 160 (strip detail) }

unfoldable pub bind_session : Text → PermissionAskMonitor → PermissionAskMonitor
unfolding first_session lines_from
bind_session chunk m =
    let found = first_session m.directory (lines_from [] chunk) in
    record m { session_id = elim m.session_id [ some id ↦ some id | none ↦ found ] }

unfoldable pub consume : Text → ℕ → PermissionAskMonitor → PermissionAskMonitor
unfolding bind_session resolve
consume chunk now m =
    resolve (last_reply 0 none chunk) (last_ask 0 0 none chunk) now (bind_session chunk m)

-- The log as a poll finds it: the size that `stat` gives, and what a read of `n` bytes from `pos`
-- gives; none for an OSError. One code point stands for one byte.
pub record ServerLog : Type 0 where
  pub size : Option ℕ
  pub read : ℕ → ℕ → Option Text

unfoldable pub poll_read : ℕ → ServerLog → ℕ → PermissionAskMonitor → PermissionAskMonitor
unfolding consume
poll_read size log now m = elim (log.read m.pos (size - m.pos)) [
  | none ↦ m
  | some chunk ↦ consume chunk now (record m { pos = size })
]

unfoldable pub poll_size : ℕ → ServerLog → ℕ → PermissionAskMonitor → PermissionAskMonitor
unfolding poll_read
poll_size size log now m =
    let start = if ltb size m.pos then 0 else m.pos in
    if leb size start
    then record m { pos = start }
    else poll_read size log now (record m { pos = start })

unfoldable pub poll : ServerLog → ℕ → PermissionAskMonitor → PermissionAskMonitor
unfolding poll_size
poll log now m =
    if m.enabled then elim log.size [ none ↦ m | some size ↦ poll_size size log now m ] else m

-- pending_ask: the time and the detail of the unanswered question
unfoldable pub pending_ask : PermissionAskMonitor → Option (ℕ × Text)
pending_ask m = elim m.last_ask_time [ none ↦ none | some t ↦ some (t, m.last_ask_detail) ]

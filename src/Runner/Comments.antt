-- ===== src/Runner/Comments.antt =====
-- runner.py: the texts of the comments on the triggering issue, and the lines of the container's log.
use orchestrator_service.Prelude.{
  ℕ, zero, suc, ◌+◌, ◌-◌, Text, codes, Bool, not, ◌&&◌, ◌||◌, Option, none, some, List, [], ◌∷◌,
  ◌++◌, length, take, drop, leb, ◌==◌, if◌then◌else◌, is_empty, is_space, lstrip, starts_with,
  lower, join_with, sorted, ℤ,
}
use orchestrator_service.Runner.Slug.{is_alnum}
use orchestrator_service.Runner.Stream.{run_of}
use orchestrator_service.Watchdog.Loop.{
  KillReason, idle_timeout, hard_ceiling, consecutive_errors, permission_deadlock,
}

-- A pattern at the beginning of a text: the length of its match.
abbrev pub Pattern : Type 0
Pattern = Text → Option ℕ

-- A prefix, and behind it at least `least` characters that pass the test.
unfoldable pub prefixed : Text → (ℕ → Bool) → ℕ → Pattern
prefixed prefix test least t =
    let count = length (run_of test (drop (length prefix) t)) in
    if starts_with prefix t && leb least count then some (length prefix + count) else none

-- The first of two patterns that matches.
unfoldable pub either : Pattern → Pattern → Pattern
either p q t = elim (p t) [ some n ↦ some n | none ↦ q t ]

-- A pattern, and behind it a rest whose length the second gives.
unfoldable pub behind : Pattern → Pattern → Pattern
behind p q t = elim (p t) [
  | none ↦ none
  | some n ↦ elim (q (drop n t)) [ none ↦ none | some k ↦ some (n + k) ]
]

-- [A-Za-z0-9._-]
bearer_char : ℕ → Bool
bearer_char c = is_alnum c || (c == b'.' || (c == b'_' || c == b'-'))

unfoldable pub classic_token : Pattern
unfolding prefixed either
classic_token = either (prefixed (codes "ghp_") is_alnum 36) (
    either (prefixed (codes "gho_") is_alnum 36) (
      either (prefixed (codes "ghu_") is_alnum 36)
        (either (prefixed (codes "ghs_") is_alnum 36) (prefixed (codes "ghr_") is_alnum 36))))

unfoldable pub fine_token : Pattern
unfolding prefixed
fine_token = prefixed (codes "github_pat_") is_alnum 22

unfoldable pub api_key : Pattern
unfolding prefixed
api_key = prefixed (codes "sk-") is_alnum 20

unfoldable pub bearer : Pattern
unfolding prefixed either behind bearer_char
bearer =
    behind (either (prefixed (codes "Bearer") is_space 1) (prefixed (codes "bearer") is_space 1))
      (prefixed [] bearer_char 20)

-- A word, in letters of any case.
word : Text → Pattern
word w t = if starts_with w (lower t) then some (length w) else none

-- api[_-]?key
api_word : Pattern
unfolding word either
api_word = either (word (codes "apikey")) (either (word (codes "api_key")) (word (codes "api-key")))

-- \s*[:=]\s*\S+
assigned : Pattern
assigned t =
    let before = length (run_of is_space t) in
    elim (drop before t) [
      | [] ↦ none
      | c ∷ rest ↦
          let gap = length (run_of is_space rest) in
          let value = length (run_of (λ x. not (is_space x)) (drop gap rest)) in
          if (c == b':' || c == b'=') && not (value == 0)
          then some (before + (1 + (gap + value)))
          else none
    ]

unfoldable pub assignment : Pattern
unfolding word either api_word assigned behind
assignment =
    behind
      (either (word (codes "password")) (
        either (word (codes "passwd")) (
          either (word (codes "secret"))
            (either api_word (either (word (codes "token")) (word (codes "auth")))))))
      assigned

-- pattern.sub("[REDACTED]", text); `skip` characters belong to a match before.
unfoldable pub redact : Pattern → ℕ → Text → Text
redact p skip [] = []
redact p (suc k) (c ∷ t) = redact p k t
redact p zero (c ∷ t) = elim (p (c ∷ t)) [
  | none ↦ c ∷ redact p zero t
  | some n ↦ codes "[REDACTED]" ++ redact p (n - 1) t
]

unfoldable pub sanitize_for_comment : Text → Text
unfolding redact classic_token fine_token api_key bearer assignment
sanitize_for_comment t = redact assignment zero (
    redact bearer zero (redact api_key zero (redact fine_token zero (redact classic_token zero t))))

-- The two lines that name the files of a run.
log_lines : Text → Text → Text
log_lines log_dir stem =
    codes "Runner logs (`"
    ++ (log_dir
        ++ (codes "`):\n- `" ++ (stem ++ (codes ".stdout`\n- `" ++ (stem ++ codes ".stderr`\n")))))

-- `decimal` is str of a count, `code_text` str of an exit code.
module _ (decimal : ℕ → Text) (code_text : ℤ → Text) where
  unfoldable pub failure_reason : Option KillReason → ℤ → Bool → ℕ → Text
  failure_reason (some idle_timeout) code timed_out errors =
      codes "went idle (no output from the orchestrator CLI)"
  failure_reason (some hard_ceiling) code timed_out errors = codes "hit the hard runtime ceiling"
  failure_reason (some consecutive_errors) code timed_out errors =
      codes "hit " ++ (decimal errors ++ codes " consecutive errors")
  failure_reason (some permission_deadlock) code timed_out errors =
      codes "was killed: permission ask deadlock (headless mode cannot answer permission prompts)"
  failure_reason none code timed_out errors =
      if timed_out then codes "timed out" else codes "exited with status " ++ code_text code

  last_error_line : Option KillReason → Text → Text
  unfolding sanitize_for_comment
  last_error_line (some consecutive_errors) message =
      if is_empty message
      then []
      else codes "\nLast error: `" ++ (sanitize_for_comment (take 200 message) ++ codes "`\n")
  last_error_line _ message = []

  unfoldable pub build_failure_body : ℤ → Text → Text → Bool → Option KillReason → ℕ → Text → Text
  unfolding failure_reason last_error_line log_lines
  build_failure_body code log_dir stem timed_out kill_reason errors last_error =
      codes "❌ Orchestrator run did not complete ("
      ++ (failure_reason kill_reason code timed_out errors
          ++ (codes ").\n\n" ++ (log_lines log_dir stem ++ last_error_line kill_reason last_error)))

-- ", ".join(tools) or "none detected"
unfoldable pub listed_tools : List Text → Text
listed_tools tools =
    let listed = join_with (codes ", ") tools in
    if is_empty listed then codes "none detected" else listed

unfoldable pub build_zero_work_body : List Text → Text → Text → Text
unfolding listed_tools log_lines
build_zero_work_body tools log_dir stem =
    (9888
      ∷ 65039
      ∷ codes
          " Orchestrator run exited cleanly (status 0) but executed **no work tools** (no `bash`/`task`/`write`/`edit`).\n\nDetected tool calls (planning/reading only): `")
    ++ (listed_tools (sorted tools)
        ++ (codes
              "`\n\nThis usually means the agent narrated a plan instead of acting and self-terminated early. No code/issue/PR changes were made. See the runner logs and retry.\n\n"
            ++ log_lines log_dir stem))

unfoldable pub build_incomplete_body : List Text → Text → Text → Text
unfolding listed_tools log_lines
build_incomplete_body tools log_dir stem =
    (9888
      ∷ 65039
      ∷ codes
          " Orchestrator run exited cleanly but the dispatch issue is still open — the workflow likely did **not** finish (remaining assignments, post-assignment events, the `orchestration:plan-approved` label, or PR merge/close may be incomplete).\n\nDetected tool calls: `")
    ++ (listed_tools tools
        ++ (codes
              "`\n\nCompare against the golden-path checklist pattern (`traces/golden-path-foxtrot54-project-setup.md`): a healthy run re-prints its `[ ]`→`[x]` checklist after every assignment.\n\n"
            ++ log_lines log_dir stem))

-- A word that begins with the name and goes on for at least one more character without a space.
named : Text → Pattern
named name t =
    let value = length (run_of (λ x. not (is_space x)) (drop (length name) t)) in
    if starts_with name t && not (value == 0) then some (length name + value) else none

-- \s+ and such a word
spaced : Text → Pattern
unfolding named
spaced name t =
    let gap = length (run_of is_space t) in
    if gap == 0
    then none
    else elim (named name (drop gap t)) [ none ↦ none | some n ↦ some (gap + n) ]

bracketed : Text → Text → Text
bracketed envelope rest =
    if is_empty rest
    then codes "[" ++ (envelope ++ codes "]")
    else codes "[" ++ (envelope ++ (codes "] " ++ rest))

-- The envelope from its parts, and what is behind it.
with_run : Text → Text → Text → Text
unfolding spaced bracketed
with_run stamp level t = elim (spaced (codes "run=") t) [
  | none ↦ bracketed (stamp ++ (codes " " ++ level)) (lstrip t)
  | some n ↦
      bracketed (stamp ++ (codes " " ++ (level ++ (codes " " ++ lstrip (take n t)))))
        (lstrip (drop n t))
]

-- _format_log_line, for a line with no space at its end, as its caller gives it.
unfoldable pub format_log_line : Text → Text
unfolding named spaced with_run
format_log_line line = elim (named (codes "timestamp=") line) [
  | none ↦ line
  | some n ↦ elim (spaced (codes "level=") (drop n line)) [
    | none ↦ line
    | some k ↦ with_run (take n line) (lstrip (take k (drop n line))) (drop k (drop n line))
  ]
]

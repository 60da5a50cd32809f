-- ===== src/Tests/Comments.antt =====
-- A comment on a run whose last error showed a token.
use orchestrator_service.Prelude.{Text, codes, ◌≢◌, refl, inl, ◌++◌, arith}
use orchestrator_service.Runner.Comments.{sanitize_for_comment}
use orchestrator_service.Runner.Redacted.{github_form, sanitize_for_comment-ne-token}

abbrev digits_36 : Text
digits_36 = codes "0123456789abcdefghijABCDEFGHIJ987654"

sanitize_for_comment-ne-token_example :
    sanitize_for_comment (codes "push with ghp_" ++ (digits_36 ++ codes " refused"))
    ≢ codes "push with " ++ (codes "ghp_" ++ (digits_36 ++ codes " refused"))
unfolding orchestrator_service.Runner.Slug.is_alnum
sanitize_for_comment-ne-token_example =
    sanitize_for_comment-ne-token (codes "push with ghp_" ++ (digits_36 ++ codes " refused"))
      (codes "push with ") digits_36 (codes " refused") (github_form b'p') (inl refl) refl
      (omega arith)

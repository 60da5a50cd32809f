-- ===== src/Tests/Tokens.antt =====
-- A request that shows its token, for auth.py.
use orchestrator_service.Prelude.{
  ℕ, Text, codes, Bool, true, false, ◌≡◌, refl, Option, none, some, is_empty,
}
use orchestrator_service.Auth.{Request, granted, require_token, Shows, require_token-granted}

abbrev with_header : Request
with_header = record {
  authorization = codes "Bearer s3cret";
  query_token = none;
  cookie_token = some (codes "old");
  is_https = true;
}

require_token-granted_example :
    (t : Text) × (some (codes "s3cret") ≡ some t) × (is_empty t ≡ false) × Shows with_header t
unfolding require_token orchestrator_service.Auth.extract_token
    orchestrator_service.Auth.bearer_token orchestrator_service.Prelude.starts_with
    orchestrator_service.Prelude.lower orchestrator_service.Prelude.strip
    orchestrator_service.Auth.or_token orchestrator_service.Auth.compare_tokens
    orchestrator_service.Auth.is_ascii orchestrator_service.Prelude.same
require_token-granted_example = require_token-granted 404 (some (codes "s3cret")) with_header refl

-- ===== src/Tests/Branches.antt =====
-- A default branch that app.py is sent.
use orchestrator_service.Prelude.{codes, ◌≡◌, refl}
use orchestrator_service.Json.{text}
use orchestrator_service.App.Branch.{safe_branch}

-- A usual name is kept, without the blanks round it.
usual_branch : safe_branch (text (codes " feature/a-1 ")) ≡ codes "feature/a-1"
unfolding safe_branch orchestrator_service.Prelude.strip orchestrator_service.Prelude.starts_with
    orchestrator_service.Prelude.contains
usual_branch = refl

-- ===== src/Api/SystemRoutes.antt =====
-- app/main.py: the routes that say how the system is.
use crypto_ledger_sandbox.Prelude.{Bool, true, false, String, List, [], ◌∷◌}
use crypto_ledger_sandbox.Config.{Settings}
use crypto_ledger_sandbox.Api.Answers.{Answer, respond, http_exception}

-- `dict[str, str]`
abbrev Texts : Type 0
Texts = List (String × String)

unfoldable pub root : Answer Texts
root = respond 200 (("message", "Crypto Ledger Sandbox API") ∷ ("docs", "/docs") ∷ [])

unfoldable pub health : Settings → Answer Texts
health settings = respond 200 (
    ("status", "ok")
    ∷ ("environment", settings.environment)
    ∷ ("service", settings.project_name)
    ∷ [])

-- Whether the engine connects and runs `SELECT 1`, or one of the two raises an `SQLAlchemyError`.
unfoldable pub readiness : Bool → Answer Texts
readiness true = respond 200 (("status", "ready") ∷ ("database", "connected") ∷ [])
readiness false = http_exception 503 "Database is unavailable."

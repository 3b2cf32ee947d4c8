-- ===== src/Api/Answers.antt =====
-- What a request is answered: FastAPI turns what a route returns or raises into a response.
use crypto_ledger_sandbox.Prelude.{ℕ, Option, none, some, String}
use crypto_ledger_sandbox.Models.{User}
use crypto_ledger_sandbox.Db.{Db, Error}

pub data Answer (A : Type 0) : Type 0 where
  -- The status and the body.
  respond : ℕ → A → Answer A
  -- `HTTPException`: the status and the detail.
  http_exception : ℕ → String → Answer A
  -- Any other exception leaves the route.
  unhandled : Error → Answer A

-- A route, run on the tables.
abbrev pub Route : Type 0 → Type 0
Route A = Db → Answer A × Db

-- `Depends(get_current_active_user)`: the route runs for the user, or not at all.
abbrev pub for_user : {A : Type 0} → Option User → (User → Route A) → Route A
for_user none route db = (http_exception 401 "Could not validate credentials.", db)
for_user (some current_user) route db = route current_user db

-- ===== src/Api/AuthRoutes.antt =====
-- app/api/routes/auth.py and app/api/routes/me.py, for validated requests.
use crypto_ledger_sandbox.Prelude.{
  ℕ, Bool, true, not, Option, none, some, String, str_eq, if◌then◌else◌, find?, lower,
}
use crypto_ledger_sandbox.Models.{Uuid, User}
use crypto_ledger_sandbox.Db.{Platform, Result, ok, err, integrity_error, run, insert_user}
use crypto_ledger_sandbox.Api.Answers.{Answer, respond, http_exception, unhandled, Route}
use crypto_ledger_sandbox.Api.Schemas.{RegisterRequest, LoginRequest, TokenResponse, UserResponse}
use crypto_ledger_sandbox.Api.Security.{Library, create_access_token}

-- What a registration draws: the user's identifier and the salt of the hash.
pub record RegisterDraws : Type 0 where
  pub user_id : Uuid
  pub salt : ℕ

abbrev pub has_email : String → User → Bool
has_email email u = str_eq u.email email

module _ (platform : Platform) (library : Library) (minutes : ℕ) where
  abbrev pub token_response : ℕ → Uuid → TokenResponse
  token_response now user_id = record {
    access_token = create_access_token library minutes now (platform.uuid_str user_id);
    token_type = "bearer";
  }

  abbrev pub new_user : RegisterDraws → RegisterRequest → User
  new_user draws payload = record {
    id = draws.user_id;
    email = lower payload.email;
    hashed_password = library.hash_password draws.salt payload.password;
    is_active = true;
  }

  -- The commit, and `except IntegrityError`.
  abbrev pub registered : ℕ → Uuid → Result (Unit {0}) → Answer TokenResponse
  registered now user_id (ok _) = respond 201 (token_response now user_id)
  registered now user_id (err integrity_error) = http_exception 409 "Email is already registered."
  registered now user_id (err e) = unhandled e

  abbrev pub register_unless :
      ℕ → RegisterDraws → RegisterRequest → Option User → Route TokenResponse
  register_unless now draws payload (some existing_user) db =
      (http_exception 409 "Email is already registered.", db)
  register_unless now draws payload none db =
      let (result, db') = run (insert_user (new_user draws payload)) db in
      (registered now draws.user_id result, db')

  unfoldable pub register : ℕ → RegisterDraws → RegisterRequest → Route TokenResponse
  register now draws payload db =
      register_unless now draws payload (find? (has_email (lower payload.email)) db.users) db

  abbrev pub login_as : ℕ → LoginRequest → Option User → Answer TokenResponse
  login_as now payload none = http_exception 401 "Invalid email or password."
  login_as now payload (some u) =
      if not u.is_active
      then http_exception 401 "Invalid email or password."
      else if not (library.verify_password payload.password u.hashed_password)
      then http_exception 401 "Invalid email or password."
      else respond 200 (token_response now u.id)

  unfoldable pub login : ℕ → LoginRequest → Route TokenResponse
  login now payload db =
      (login_as now payload (find? (has_email (lower payload.email)) db.users), db)

unfoldable pub read_current_user : User → Route UserResponse
read_current_user current_user db = (
  respond 200 (record {
    id = current_user.id;
    email = current_user.email;
    is_active = current_user.is_active;
  }),
  db,
)

-- ===== src/Api/Security.antt =====
-- app/core/security.py and app/api/deps.py: passwords, access tokens, and the user of a request.
use crypto_ledger_sandbox.Prelude.{
  ℕ, ◌+◌, ◌*◌, Bool, true, ◌&&◌, Option, none, some, String, ◌≡◌, ◌==◌, ltb, leb, if◌then◌else◌,
  find?,
}
use crypto_ledger_sandbox.Models.{Uuid, User}
use crypto_ledger_sandbox.Db.{Db, Platform}

-- The payload of a token: its subject and the seconds at which it is issued and expires.
pub record Claims : Type 0 where
  pub sub : String
  pub iat : ℕ
  pub exp : ℕ

-- What app/core/security.py calls: `pwdlib` draws a salt for each hash; `jwt.encode` and
-- `jwt.decode` with the program's key and algorithm, where `none` is an `InvalidTokenError` and
-- `some none` a payload with no subject; the constructor `UUID`, which refuses other texts.
pub record Library : Type 0 where
  pub hash_password : ℕ → String → String
  pub verify_password : String → String → Bool
  pub jwt_encode : Claims → String
  pub jwt_decode : ℕ → String → Option (Option String)
  pub parse_uuid : String → Option Uuid

-- Documented behaviour of these: a password verifies against its own hashes; a token decodes to its
-- subject from the second of its issue until it expires, and to no payload from then on; the text
-- of a UUID reads back.
pub record IsLawful (platform : Platform) (library : Library) : Type 0 where
  pub verified :
      (salt : ℕ) (password : String)
      → library.verify_password password (library.hash_password salt password) ≡ true
  pub decoded :
      (now : ℕ) (claims : Claims)
      → library.jwt_decode now (library.jwt_encode claims)
        ≡ (if leb claims.iat now && ltb now claims.exp then some (some claims.sub) else none)
  pub parsed : (k : Uuid) → library.parse_uuid (platform.uuid_str k) ≡ some k

module _ (library : Library) where
  -- `minutes` is the setting ACCESS_TOKEN_EXPIRE_MINUTES.
  unfoldable pub create_access_token : ℕ → ℕ → String → String
  create_access_token minutes now subject =
      library.jwt_encode (record { sub = subject; iat = now; exp = now + 60 * minutes })

  -- `UUID(str(payload.get("sub")))`: `str(None)` is no UUID.
  abbrev pub subject_id : Option (Option String) → Option Uuid
  subject_id (some (some sub)) = library.parse_uuid sub
  subject_id (some none) = library.parse_uuid "None"
  subject_id none = none

  abbrev pub if_active : Option User → Option User
  if_active none = none
  if_active (some u) = if u.is_active then some u else none

  abbrev pub user_with_id : Option Uuid → Db → Option User
  user_with_id none db = none
  user_with_id (some user_id) db = if_active (find? (λ u. u.id == user_id) db.users)

  abbrev pub user_of_token : ℕ → Option String → Db → Option User
  user_of_token now none db = none
  user_of_token now (some credentials) db =
      user_with_id (subject_id (library.jwt_decode now credentials)) db

  -- `none` is the exception of `authentication_error`.
  unfoldable pub get_current_active_user : ℕ → Option String → Db → Option User
  get_current_active_user now credentials db = user_of_token now credentials db

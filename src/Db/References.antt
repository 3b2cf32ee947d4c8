-- ===== src/Db/References.antt =====
-- The rows that the others refer to: users (app/models/user.py) and assets (app/models/asset.py).
use crypto_ledger_sandbox.Prelude.{Bool, not, ◌&&◌, ◌∷◌, ◌==◌, str_eq, leb, any?, upper}
use crypto_ledger_sandbox.Models.{User, Asset}
use crypto_ledger_sandbox.Db.Sessions.{Db, Session}
use crypto_ledger_sandbox.Db.Constraints.{write_if}

unfoldable pub user_allowed : User → Db → Bool
user_allowed u db =
    not (any? (λ v. v.id == u.id) db.users) && not (any? (λ v. str_eq v.email u.email) db.users)

-- CHECK code_uppercase, precision_range
unfoldable pub asset_allowed : Asset → Db → Bool
asset_allowed a db =
    str_eq a.code (upper a.code)
    && leb a.precision 18
    && not (any? (λ b. b.id == a.id) db.assets)
    && not (any? (λ b. str_eq b.code a.code) db.assets)

unfoldable pub insert_user : User → Session (Unit {0})
insert_user u db = write_if (user_allowed u db) (λ d. record d { users = u ∷ d.users }) db

unfoldable pub insert_asset : Asset → Session (Unit {0})
insert_asset a db = write_if (asset_allowed a db) (λ d. record d { assets = a ∷ d.assets }) db

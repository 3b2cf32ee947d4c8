-- ===== src/Db/Sessions.antt =====
-- app/db/session.py and what the services use of SQLAlchemy's session: a service call reads and
-- changes the tables of one transaction, and either commits or raises. A table lists its rows, the
-- newest first; each query of the program answers at most one row, or states its order.
use crypto_ledger_sandbox.Prelude.{Bool, true, false, Option, none, some, List, String}
use crypto_ledger_sandbox.Decimal.{Decimal}
use crypto_ledger_sandbox.Models.{
  Uuid, User, Asset, Wallet, LedgerTransaction, LedgerEntry, Order, OutboxEvent,
}

pub record Db : Type 0 where
  pub users : List User
  pub assets : List Asset
  pub wallets : List Wallet
  pub transactions : List LedgerTransaction
  pub entries : List LedgerEntry
  pub orders : List Order
  pub events : List OutboxEvent

-- What the services call and the repository does not hold: PostgreSQL's conversion of a value to
-- NUMERIC(38, 18), which rounds it or refuses it; `str` of a UUID and of a Decimal; the digest.
pub record Platform : Type 0 where
  pub store_numeric : Decimal → Option Decimal
  pub uuid_str : Uuid → String
  pub decimal_str : Decimal → String
  pub sha256_hexdigest : String → String

-- The exceptions: those of the services, Python's `ValueError`, and the database's
-- `IntegrityError` and `DataError`.
pub data Error : Type 0 where
  asset_not_found treasury_not_initialized insufficient_treasury_balance : Error
  idempotency_conflict order_asset_not_found insufficient_available_balance : Error
  order_idempotency_conflict order_not_found order_not_cancelable order_reservation_state : Error
  integrity_error data_error runtime_error : Error
  value_error : String → Error

pub data Result (A : Type 0) : Type 0 where
  ok : A → Result A
  err : Error → Result A

abbrev pub Session : Type 0 → Type 0
Session A = Db → Result (A × Db)

module _ {A : Type 0} where
  abbrev pub pure : A → Session A
  pure a db = ok (a, db)

  abbrev pub raise : Error → Session A
  raise e db = err e

  -- A query.
  abbrev pub select : (Db → A) → Session A
  select query db = ok (query db, db)

  abbrev pub or_raise : Option A → Error → Session A
  or_raise none e = raise e
  or_raise (some a) e = pure a

  -- An early return of a value that is there.
  abbrev pub return_or : Option A → Session A → Session A
  return_or none rest = rest
  return_or (some a) rest = pure a

infixl 5 ◌>>=◌ ◌>>◌
abbrev pub ◌>>=◌ : {A B : Type 0} → Session A → (A → Session B) → Session B
◌>>=◌ m f db = elim (m db) [ ok (a, db') ↦ f a db' | err e ↦ err e ]

abbrev pub ◌>>◌ : {A B : Type 0} → Session A → Session B → Session B
m >> k = m >>= λ _. k

abbrev pub raise_if : Bool → Error → Session (Unit {0})
raise_if true e db = err e
raise_if false e db = ok (tt, db)

-- `async with AsyncSessionFactory() as session`: what a call that raises has changed is rolled back.
abbrev pub rolled_back : {A : Type 0} → Db → Result (A × Db) → Result A × Db
rolled_back before (ok (a, after)) = (ok a, after)
rolled_back before (err e) = (err e, before)

abbrev pub run : {A : Type 0} → Session A → Db → Result A × Db
run m db = rolled_back db (m db)

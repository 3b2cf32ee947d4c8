-- ===== src/Accounts.antt =====
-- The books: what the wallets hold against what the ledger's entries and the open orders say.
-- This is the contract between app/services/ledger.py and app/services/orders.py.
pub mod Explained
pub mod Balances
pub mod Holds
pub mod Posts
pub mod Deposits
pub mod Balanced
pub mod Backing
pub mod Reserving
pub mod Unlocking
pub mod Opening
pub mod Funding
pub mod Supply
pub mod Supplied
pub mod Untouched
pub mod Releasing
pub mod Cancelable
pub mod Backed
use crypto_ledger_sandbox.Prelude.{
  ℕ, Bool, ◌&&◌, Option, none, some, true, ltb_ℤ, ◌≡◌, ◌==◌, if◌then◌else◌, pos, ◌+ℤ◌, ◌-ℤ◌, find?,
  total, Unique, All,
}
use crypto_ledger_sandbox.Decimal.{Decimal, IsMoney}
use crypto_ledger_sandbox.Models.{
  Uuid, Wallet, LedgerEntry, LedgerEntryType, debit, credit, BalanceBucket, available, locked,
  bucket_eq, Order, opened, status_eq,
}
use crypto_ledger_sandbox.Db.{Db, Platform}
use crypto_ledger_sandbox.Ledger.{is_user_wallet}
use crypto_ledger_sandbox.Orders.{reserve_asset_id}

-- A documented property of NUMERIC(38, 18): a value with at most 18 decimal places that fits is
-- stored as it is. It is asked only of values below 10^10.
pub record ExactColumns (platform : Platform) : Type 0 where
  pub exact : (a : Decimal) → IsMoney a → platform.store_numeric a ≡ some a

abbrev pub bucket_value : BalanceBucket → Wallet → Decimal
bucket_value available w = w.available_balance
bucket_value locked w = w.locked_balance

abbrev pub signed : LedgerEntryType → Decimal → Decimal
signed credit amount = amount
signed debit amount = pos 0 -ℤ amount

-- What an entry says of a wallet's bucket.
abbrev pub posting : BalanceBucket → Uuid → LedgerEntry → Decimal
posting b k e =
    if e.wallet_id == k && bucket_eq e.balance_bucket b then signed e.entry_type e.amount else pos 0

abbrev pub value_or_zero : BalanceBucket → Option Wallet → Decimal
value_or_zero b none = pos 0
value_or_zero b (some w) = bucket_value b w

-- The part of a balance that no entry explains: what the wallet was opened with.
unfoldable pub unexplained : BalanceBucket → Uuid → Db → Decimal
unexplained b k db =
    value_or_zero b (find? (λ w. w.id == k) db.wallets) -ℤ total (posting b k) db.entries

-- What the entries of a transaction sum up to.
abbrev pub posting_of : Uuid → LedgerEntry → Decimal
posting_of t e = if e.transaction_id == t then signed e.entry_type e.amount else pos 0

unfoldable pub net : Uuid → Db → Decimal
net t db = total (posting_of t) db.entries

-- The balances are money, also together.
abbrev pub HasMoney : Wallet → Type 0
HasMoney w =
    IsMoney w.available_balance
    × IsMoney w.locked_balance
    × IsMoney (w.available_balance +ℤ w.locked_balance)

-- The reserved amount is money, and positive.
abbrev pub IsReserved : Order → Type 0
IsReserved o = IsMoney o.reserved_amount × (ltb_ℤ (pos 0) o.reserved_amount ≡ true)

pub record IsSound (db : Db) : Type 0 where
  pub ids : Unique (λ w. w.id) db.wallets
  pub money : All HasMoney db.wallets
  pub order_ids : Unique (λ o. o.id) db.orders
  pub reserved : All IsReserved db.orders

-- What an order holds of the user's wallet in the asset.
abbrev pub held_by : Uuid → Uuid → Order → Decimal
held_by user_id asset_id o =
    if o.user_id == user_id && (reserve_asset_id o == asset_id && status_eq o.status opened)
    then o.reserved_amount
    else pos 0

-- Every user's locked balance in an asset is what the user's open orders hold of it.
pub record IsBacked (db : Db) : Type 0 where
  pub locked :
      (user_id asset_id : Uuid)
      → value_or_zero locked (find? (is_user_wallet user_id asset_id) db.wallets)
        ≡ total (held_by user_id asset_id) db.orders

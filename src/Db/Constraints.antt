-- ===== src/Db/Constraints.antt =====
-- The writes, with the constraints that app/models declares: a write that breaks one is an
-- `IntegrityError`. The values of NUMERIC columns are converted first.
use crypto_ledger_sandbox.Prelude.{
  Bool, true, false, not, ◌&&◌, Option, none, some, ◌∷◌, String, ◌==◌, str_eq, if◌then◌else◌, pos,
  ltb_ℤ, leb_ℤ, any?, update,
}
use crypto_ledger_sandbox.Decimal.{Decimal}
use crypto_ledger_sandbox.Models.{
  Uuid, Wallet, LedgerTransaction, LedgerEntry, Order, OutboxEvent, WalletOwnerType, user, system,
}
use crypto_ledger_sandbox.Db.Sessions.{
  Db, Platform, integrity_error, data_error, ok, err, Session, or_raise, ◌>>=◌,
}

-- SQL's `=`: not true where a side is NULL.
abbrev pub uuid_matches : Option Uuid → Option Uuid → Bool
uuid_matches (some a) (some b) = a == b
uuid_matches _ _ = false

abbrev pub text_matches : Option String → Option String → Bool
text_matches (some a) (some b) = str_eq a b
text_matches _ _ = false

-- A write that is done if the constraints allow it.
abbrev pub write_if : Bool → (Db → Db) → Session (Unit {0})
write_if allowed change db = if allowed then ok (tt, change db) else err integrity_error

abbrev pub is_null : {A : Type 0} → Option A → Bool
is_null none = true
is_null (some _) = false

-- CHECK valid_owner
abbrev pub valid_owner : WalletOwnerType → Option Uuid → Option String → Bool
valid_owner user owner account = not (is_null owner) && is_null account
valid_owner system owner account = is_null owner && not (is_null account)

-- CHECK available_balance_non_negative, locked_balance_non_negative
abbrev pub non_negative : Decimal → Decimal → Bool
non_negative available_balance locked_balance =
    leb_ℤ (pos 0) available_balance && leb_ℤ (pos 0) locked_balance

has_owner : Option Uuid → Db → Bool
has_owner none db = true
has_owner (some u) db = any? (λ x. x.id == u) db.users

unfoldable pub wallet_allowed : Wallet → Db → Bool
unfolding has_owner
wallet_allowed w db =
    valid_owner w.owner_type w.user_id w.system_account
    && non_negative w.available_balance w.locked_balance
    && not (any? (λ v. v.id == w.id) db.wallets)
    && not (any? (λ v. uuid_matches v.user_id w.user_id && v.asset_id == w.asset_id) db.wallets)
    && not (
        any? (λ v. text_matches v.system_account w.system_account && v.asset_id == w.asset_id)
          db.wallets)
    && any? (λ a. a.id == w.asset_id) db.assets
    && has_owner w.user_id db

unfoldable pub transaction_allowed : LedgerTransaction → Db → Bool
transaction_allowed t db =
    not (any? (λ s. s.id == t.id) db.transactions)
    && not (any? (λ s. str_eq s.reference t.reference) db.transactions)
    && not (any? (λ s. text_matches s.idempotency_key t.idempotency_key) db.transactions)

unfoldable pub entry_allowed : LedgerEntry → Db → Bool
entry_allowed e db =
    ltb_ℤ (pos 0) e.amount
    && not (any? (λ d. d.id == e.id) db.entries)
    && not (any? (λ d. d.transaction_id == e.transaction_id && d.sequence == e.sequence) db.entries)
    && any? (λ t. t.id == e.transaction_id) db.transactions
    && any? (λ w. w.id == e.wallet_id) db.wallets

unfoldable pub order_allowed : Order → Db → Bool
order_allowed o db =
    ltb_ℤ (pos 0) o.price
    && ltb_ℤ (pos 0) o.quantity
    && leb_ℤ (pos 0) o.remaining_quantity
    && leb_ℤ o.remaining_quantity o.quantity
    && ltb_ℤ (pos 0) o.reserved_amount
    && not (o.base_asset_id == o.quote_asset_id)
    && not (any? (λ p. p.id == o.id) db.orders)
    && not (
        any? (λ p. p.user_id == o.user_id && text_matches p.idempotency_key o.idempotency_key)
          db.orders)
    && not (any? (λ p. p.reservation_transaction_id == o.reservation_transaction_id) db.orders)
    && any? (λ x. x.id == o.user_id) db.users
    && any? (λ a. a.id == o.base_asset_id) db.assets
    && any? (λ a. a.id == o.quote_asset_id) db.assets
    && any? (λ t. t.id == o.reservation_transaction_id) db.transactions

unfoldable pub event_allowed : OutboxEvent → Db → Bool
event_allowed e db =
    not (any? (λ d. d.id == e.id) db.events)
    && not (any? (λ d. str_eq d.event_key e.event_key) db.events)

unfoldable pub insert_transaction : LedgerTransaction → Session (Unit {0})
insert_transaction t db =
    write_if (transaction_allowed t db) (λ d. record d { transactions = t ∷ d.transactions }) db

unfoldable pub insert_event : OutboxEvent → Session (Unit {0})
insert_event e db = write_if (event_allowed e db) (λ d. record d { events = e ∷ d.events }) db

module _ (platform : Platform) where
  -- The value as its NUMERIC(38, 18) column holds it.
  abbrev pub numeric : Decimal → Session Decimal
  numeric x = or_raise (platform.store_numeric x) data_error

  unfoldable pub insert_wallet : Wallet → Session (Unit {0})
  insert_wallet w = do
    available_balance ← numeric w.available_balance
    locked_balance ← numeric w.locked_balance
    let row : Wallet = record w {
      available_balance = available_balance;
      locked_balance = locked_balance;
    }
    λ db. write_if (wallet_allowed row db) (λ d. record d { wallets = row ∷ d.wallets }) db

  unfoldable pub insert_entry : LedgerEntry → Session (Unit {0})
  insert_entry e = do
    amount ← numeric e.amount
    let row : LedgerEntry = record e { amount = amount }
    λ db. write_if (entry_allowed row db) (λ d. record d { entries = row ∷ d.entries }) db

  -- Answers the row as it is stored, which `session.refresh` reads back.
  unfoldable pub insert_order : Order → Session Order
  insert_order o = do
    price ← numeric o.price
    quantity ← numeric o.quantity
    remaining_quantity ← numeric o.remaining_quantity
    reserved_amount ← numeric o.reserved_amount
    let row : Order = record o {
      price = price;
      quantity = quantity;
      remaining_quantity = remaining_quantity;
      reserved_amount = reserved_amount;
    }
    λ db.
        if order_allowed row db
        then ok (row, record db { orders = row ∷ db.orders })
        else err integrity_error

  -- UPDATE wallets SET available_balance = …, locked_balance = … WHERE id = …
  unfoldable pub set_balances : Uuid → Decimal → Decimal → Session (Unit {0})
  set_balances k available_balance locked_balance = do
    a ← numeric available_balance
    l ← numeric locked_balance
    λ db.
        write_if (non_negative a l)
          (λ d. record d {
            wallets =
                update (λ w. w.id) k (λ w. record w { available_balance = a; locked_balance = l })
                  d.wallets;
          })
          db

  -- UPDATE wallets SET available_balance = … WHERE id = …
  unfoldable pub set_available : Uuid → Decimal → Session (Unit {0})
  set_available k available_balance = do
    a ← numeric available_balance
    λ db.
        write_if (leb_ℤ (pos 0) a)
          (λ d. record d {
            wallets = update (λ w. w.id) k (λ w. record w { available_balance = a }) d.wallets;
          })
          db

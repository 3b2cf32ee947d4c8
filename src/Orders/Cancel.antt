-- ===== src/Orders/Cancel.antt =====
-- `cancel_order_reservation`. A call is given what it draws from `uuid4`.
use crypto_ledger_sandbox.Prelude.{
  Bool, true, false, not, ◌&&◌, Option, none, some, [], ◌∷◌, String, ◌++◌, ◌==◌, if◌then◌else◌,
  ltb_ℤ, find?, update,
}
use crypto_ledger_sandbox.Decimal.{add, sub}
use crypto_ledger_sandbox.Models.{
  Uuid, Asset, Wallet, LedgerTransaction, LedgerEntry, Order, buy, order_release, posted, debit,
  credit, available, locked, opened, canceled, side_eq, status_eq, side_value, status_value,
  Payload,
}
use crypto_ledger_sandbox.Db.{
  Platform, order_not_found, order_not_cancelable, order_reservation_state, Session, ok, pure,
  raise, select, or_raise, raise_if, ◌>>=◌, ◌>>◌, insert_transaction, insert_entry, set_balances,
}
use crypto_ledger_sandbox.Ledger.{is_user_wallet}
use crypto_ledger_sandbox.Outbox.{EventCall, EventDraws, enqueue_outbox_event}

pub record OrderCancellationResult : Type 0 where
  pub order : Order
  pub reserve_asset : Asset
  pub replayed : Bool

-- What a call draws: the identifiers of the rows that it adds, the text after `REL-`, the time.
pub record CancelDraws : Type 0 where
  pub transaction_id : Uuid
  pub debit_id : Uuid
  pub credit_id : Uuid
  pub reference : String
  pub event : EventDraws

abbrev pub is_own_order : Uuid → Uuid → Order → Bool
is_own_order user_id order_id o = o.id == order_id && o.user_id == user_id

abbrev pub reserve_asset_id : Order → Uuid
reserve_asset_id order =
    if side_eq order.side buy then order.quote_asset_id else order.base_asset_id

-- UPDATE orders SET status = 'canceled' WHERE id = …
abbrev pub cancel_row : Order → Order
cancel_row o = record o { status = canceled }

unfoldable pub set_canceled : Uuid → Session (Unit {0})
set_canceled order_id db =
    ok (tt, record db { orders = update (λ o. o.id) order_id cancel_row db.orders })

-- The locals of `cancel_order_reservation` once the order and its asset are found.
pub record Release : Type 0 where
  pub draws : CancelDraws
  pub order : Order
  pub reserve_asset : Asset

module _ (x : Release) where
  abbrev pub release_debit : Wallet → LedgerEntry
  release_debit wallet = record {
    id = x.draws.debit_id;
    transaction_id = x.draws.transaction_id;
    wallet_id = wallet.id;
    entry_type = debit;
    balance_bucket = locked;
    amount = x.order.reserved_amount;
    sequence = 1;
    description = some "Release from locked balance";
  }

  abbrev pub release_credit : Wallet → LedgerEntry
  release_credit wallet = record {
    id = x.draws.credit_id;
    transaction_id = x.draws.transaction_id;
    wallet_id = wallet.id;
    entry_type = credit;
    balance_bucket = available;
    amount = x.order.reserved_amount;
    sequence = 2;
    description = some "Return to available balance";
  }

  abbrev pub cancellation_result : Order → Bool → OrderCancellationResult
  cancellation_result order replayed = record {
    order = order;
    reserve_asset = x.reserve_asset;
    replayed = replayed;
  }

  -- The wallet, if it holds the reservation.
  abbrev pub holding : Option Wallet → Session Wallet
  holding none = raise order_reservation_state
  holding (some wallet) = do
    raise_if (ltb_ℤ wallet.locked_balance x.order.reserved_amount) order_reservation_state
    pure wallet

module _ (platform : Platform) (x : Release) where
  abbrev pub release_transaction : LedgerTransaction
  release_transaction = record {
    id = x.draws.transaction_id;
    reference = "REL-" ++ x.draws.reference;
    idempotency_key = none;
    transaction_type = order_release;
    status = posted;
    description = some (
        "Release "
        ++ (platform.decimal_str x.order.reserved_amount
            ++ (" " ++ (x.reserve_asset.code ++ (" for order " ++ platform.uuid_str x.order.id)))));
  }

  abbrev pub canceled_payload : Order → Payload
  canceled_payload order =
      ("order_id", platform.uuid_str order.id)
      ∷ ("user_id", platform.uuid_str order.user_id)
      ∷ ("side", side_value order.side)
      ∷ ("status", status_value order.status)
      ∷ ("reserved_asset_code", x.reserve_asset.code)
      ∷ ("reserved_amount", platform.decimal_str order.reserved_amount)
      ∷ []

  -- Written after the order's status is set.
  abbrev pub canceled_event : EventCall
  canceled_event = record {
    event_type = "order.canceled";
    aggregate_type = "order";
    aggregate_id = x.order.id;
    payload = canceled_payload (cancel_row x.order);
  }

  -- From the transaction's row to the commit.
  unfoldable pub release_funds : Wallet → Session OrderCancellationResult
  unfolding set_canceled
  release_funds wallet = do
    insert_transaction release_transaction
    set_balances platform wallet.id (add wallet.available_balance x.order.reserved_amount)
        (sub wallet.locked_balance x.order.reserved_amount)
    set_canceled x.order.id
    insert_entry platform (release_debit x wallet)
    insert_entry platform (release_credit x wallet)
    enqueue_outbox_event platform x.draws.event canceled_event
    pure (cancellation_result x (cancel_row x.order) false)

  -- The tests on the status, then the release.
  unfoldable pub cancel_open : Uuid → Session OrderCancellationResult
  cancel_open user_id =
      if status_eq x.order.status canceled then pure (cancellation_result x x.order true) else do
        raise_if (not (status_eq x.order.status opened)) order_not_cancelable
        found ← select (λ db. find? (is_user_wallet user_id x.reserve_asset.id) db.wallets)
        wallet ← holding x found
        release_funds wallet

unfoldable pub cancel_order_reservation :
    Platform → CancelDraws → Uuid → Uuid → Session OrderCancellationResult
cancel_order_reservation platform draws user_id order_id = do
  found ← select (λ db. find? (is_own_order user_id order_id) db.orders)
  order ← or_raise found order_not_found
  asset ← select (λ db. find? (λ a. a.id == reserve_asset_id order) db.assets)
  reserve_asset ← or_raise asset order_reservation_state
  cancel_open platform (record { draws = draws; order = order; reserve_asset = reserve_asset })
      user_id

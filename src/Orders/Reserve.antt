-- ===== src/Orders/Reserve.antt =====
-- `create_order_reservation` and its helpers. A call is given what it draws from `uuid4`.
use crypto_ledger_sandbox.Prelude.{
  Bool, true, false, not, ◌&&◌, ◌||◌, Option, none, some, [], ◌∷◌, String, ◌++◌, ◌==◌,
  if◌then◌else◌, pos, leb_ℤ, ltb_ℤ, eqb_ℤ, find?,
}
use crypto_ledger_sandbox.Decimal.{Decimal, add, sub, mul}
use crypto_ledger_sandbox.Models.{
  Uuid, Asset, Wallet, LedgerTransaction, LedgerEntry, Order, OrderSide, buy, order_reserve, posted,
  debit, credit, available, locked, opened, side_eq, side_value, status_value, Payload,
}
use crypto_ledger_sandbox.Db.{
  Platform, order_asset_not_found, insufficient_available_balance, order_idempotency_conflict,
  value_error, Session, pure, raise, select, or_raise, raise_if, ◌>>=◌, ◌>>◌, text_matches,
  insert_transaction, insert_entry, insert_order, set_balances,
}
use crypto_ledger_sandbox.Ledger.{active_with_code, is_user_wallet}
use crypto_ledger_sandbox.Outbox.{EventCall, EventDraws, enqueue_outbox_event}

pub record OrderReservationResult : Type 0 where
  pub order : Order
  pub base_asset : Asset
  pub quote_asset : Asset
  pub reserve_asset : Asset
  pub replayed : Bool

-- The keyword arguments of `create_order_reservation`.
pub record OrderCall : Type 0 where
  pub user_id : Uuid
  pub base_asset_code : String
  pub quote_asset_code : String
  pub side : OrderSide
  pub price : Decimal
  pub quantity : Decimal
  pub idempotency_key : String

-- What a call draws: the identifiers of the rows that it adds, the text after `ORD-`, the time.
pub record OrderDraws : Type 0 where
  pub transaction_id : Uuid
  pub order_id : Uuid
  pub debit_id : Uuid
  pub credit_id : Uuid
  pub reference : String
  pub event : EventDraws

abbrev pub amount_of : OrderSide → Decimal → Decimal → Decimal
amount_of side price quantity = if side_eq side buy then mul price quantity else quantity

unfoldable pub reservation_amount : OrderSide → Decimal → Decimal → Session Decimal
reservation_amount side price quantity = do
  raise_if (leb_ℤ price (pos 0) || leb_ℤ quantity (pos 0))
      (value_error "Order price and quantity must be greater than zero.")
  pure (amount_of side price quantity)

unfoldable pub ledger_idempotency_key : Platform → Uuid → String → String
ledger_idempotency_key platform user_id idempotency_key =
    platform.sha256_hexdigest (platform.uuid_str user_id ++ (":" ++ idempotency_key))

unfoldable pub active_asset : String → Session Asset
active_asset asset_code = do
  found ← select (λ db. find? (active_with_code asset_code) db.assets)
  or_raise found order_asset_not_found

-- The order has the data of the call.
abbrev pub same_order : Order → Asset → Asset → OrderCall → Bool
same_order order base_asset quote_asset call =
    order.base_asset_id == base_asset.id
    && order.quote_asset_id == quote_asset.id
    && side_eq order.side call.side
    && eqb_ℤ order.price call.price
    && eqb_ℤ order.quantity call.quantity

unfoldable pub validate_replay : Order → Asset → Asset → OrderCall → Session (Unit {0})
validate_replay order base_asset quote_asset call =
    raise_if (not (same_order order base_asset quote_asset call)) order_idempotency_conflict

-- WHERE user_id = … AND idempotency_key = …
abbrev pub is_order_of : Uuid → String → Order → Bool
is_order_of user_id key o = o.user_id == user_id && text_matches o.idempotency_key (some key)

unfoldable pub validated : Option Order → Asset → Asset → OrderCall → Session (Option Order)
validated none base_asset quote_asset call = pure none
validated (some order) base_asset quote_asset call = do
  validate_replay order base_asset quote_asset call
  pure (some order)

unfoldable pub existing_order_replay : Asset → Asset → OrderCall → Session (Option Order)
unfolding validated validate_replay
existing_order_replay base_asset quote_asset call = do
  order ← select (λ db. find? (is_order_of call.user_id call.idempotency_key) db.orders)
  validated order base_asset quote_asset call

-- The locals of `create_order_reservation` once its arguments are checked.
pub record Reservation : Type 0 where
  pub call : OrderCall
  pub draws : OrderDraws
  pub base_asset : Asset
  pub quote_asset : Asset
  pub reserve_asset : Asset
  pub reserved_amount : Decimal

module _ (x : Reservation) where
  abbrev pub new_order : Order
  new_order = record {
    id = x.draws.order_id;
    user_id = x.call.user_id;
    base_asset_id = x.base_asset.id;
    quote_asset_id = x.quote_asset.id;
    idempotency_key = some x.call.idempotency_key;
    reservation_transaction_id = x.draws.transaction_id;
    side = x.call.side;
    status = opened;
    price = x.call.price;
    quantity = x.call.quantity;
    remaining_quantity = x.call.quantity;
    reserved_amount = x.reserved_amount;
  }

  abbrev pub reserve_debit : Wallet → LedgerEntry
  reserve_debit wallet = record {
    id = x.draws.debit_id;
    transaction_id = x.draws.transaction_id;
    wallet_id = wallet.id;
    entry_type = debit;
    balance_bucket = available;
    amount = x.reserved_amount;
    sequence = 1;
    description = some "Reserve from available balance";
  }

  abbrev pub reserve_credit : Wallet → LedgerEntry
  reserve_credit wallet = record {
    id = x.draws.credit_id;
    transaction_id = x.draws.transaction_id;
    wallet_id = wallet.id;
    entry_type = credit;
    balance_bucket = locked;
    amount = x.reserved_amount;
    sequence = 2;
    description = some "Reserve into locked balance";
  }

  abbrev pub reservation_result : Order → Bool → OrderReservationResult
  reservation_result order replayed = record {
    order = order;
    base_asset = x.base_asset;
    quote_asset = x.quote_asset;
    reserve_asset = x.reserve_asset;
    replayed = replayed;
  }

  -- The wallet, if it covers the amount.
  abbrev pub covering : Option Wallet → Session Wallet
  covering none = raise insufficient_available_balance
  covering (some wallet) = do
    raise_if (ltb_ℤ wallet.available_balance x.reserved_amount) insufficient_available_balance
    pure wallet

  abbrev pub replayed_or :
      Option Order → Session OrderReservationResult → Session OrderReservationResult
  replayed_or none rest = rest
  replayed_or (some order) rest = pure (reservation_result order true)

module _ (platform : Platform) (x : Reservation) where
  abbrev pub reserve_transaction : LedgerTransaction
  reserve_transaction = record {
    id = x.draws.transaction_id;
    reference = "ORD-" ++ x.draws.reference;
    idempotency_key = some (ledger_idempotency_key platform x.call.user_id x.call.idempotency_key);
    transaction_type = order_reserve;
    status = posted;
    description = some (
        "Reserve "
        ++ (platform.decimal_str x.reserved_amount
            ++ (" "
                ++ (x.reserve_asset.code ++ (" for " ++ (side_value x.call.side ++ " order"))))));
  }

  -- The payload writes the order as the call made it, before the columns convert its values.
  abbrev pub created_payload : Order → Payload
  created_payload order =
      ("order_id", platform.uuid_str order.id)
      ∷ ("user_id", platform.uuid_str order.user_id)
      ∷ ("base_asset_code", x.base_asset.code)
      ∷ ("quote_asset_code", x.quote_asset.code)
      ∷ ("side", side_value order.side)
      ∷ ("status", status_value order.status)
      ∷ ("price", platform.decimal_str order.price)
      ∷ ("quantity", platform.decimal_str order.quantity)
      ∷ ("reserved_asset_code", x.reserve_asset.code)
      ∷ ("reserved_amount", platform.decimal_str order.reserved_amount)
      ∷ []

  abbrev pub created_event : EventCall
  created_event = record {
    event_type = "order.created";
    aggregate_type = "order";
    aggregate_id = x.draws.order_id;
    payload = created_payload (new_order x);
  }

  -- From the transaction's row to the commit.
  unfoldable pub place_order : Wallet → Session OrderReservationResult
  place_order wallet = do
    insert_transaction reserve_transaction
    order ← insert_order platform (new_order x)
    set_balances platform wallet.id (sub wallet.available_balance x.reserved_amount)
        (add wallet.locked_balance x.reserved_amount)
    insert_entry platform (reserve_debit x wallet)
    insert_entry platform (reserve_credit x wallet)
    enqueue_outbox_event platform x.draws.event created_event
    pure (reservation_result x order false)

  -- From the lock on the wallet on. The replay is looked up again, since the lock may have waited.
  unfoldable pub reserve_funds : Session OrderReservationResult
  reserve_funds = do
    found ← select (λ db. find? (is_user_wallet x.call.user_id x.reserve_asset.id) db.wallets)
    wallet ← covering x found
    replay ← existing_order_replay x.base_asset x.quote_asset x.call
    replayed_or x replay (place_order wallet)

abbrev pub reserve_asset_of : OrderSide → Asset → Asset → Asset
reserve_asset_of side base_asset quote_asset = if side_eq side buy then quote_asset else base_asset

abbrev pub reservation_of : OrderDraws → OrderCall → Asset → Asset → Decimal → Reservation
reservation_of draws call base_asset quote_asset reserved_amount = record {
  call = call;
  draws = draws;
  base_asset = base_asset;
  quote_asset = quote_asset;
  reserve_asset = reserve_asset_of call.side base_asset quote_asset;
  reserved_amount = reserved_amount;
}

unfoldable pub create_order_reservation :
    Platform → OrderDraws → OrderCall → Session OrderReservationResult
create_order_reservation platform draws call = do
  base_asset ← active_asset call.base_asset_code
  quote_asset ← active_asset call.quote_asset_code
  raise_if (base_asset.id == quote_asset.id)
      (value_error "Base and quote assets must be different.")
  reserved_amount ← reservation_amount call.side call.price call.quantity
  let x : Reservation = reservation_of draws call base_asset quote_asset reserved_amount
  replay ← existing_order_replay base_asset quote_asset call
  replayed_or x replay (reserve_funds platform x)

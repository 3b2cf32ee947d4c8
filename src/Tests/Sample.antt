-- ===== src/Tests/Sample.antt =====
-- A platform whose columns round half away from zero, and a seeded database with one user.
use crypto_ledger_sandbox.Prelude.{
  ℕ, zero, suc, ◌+◌, ◌*◌, ◌/◌, Option, some, none, true, false, [], ◌∷◌, String, ltb, ◌==◌,
  if◌then◌else◌, pos, negsuc,
}
use crypto_ledger_sandbox.Decimal.{Decimal, one, step}
use crypto_ledger_sandbox.Models.{
  Asset, Wallet, User, system, buy, opened, canceled, funding, posted,
}
use crypto_ledger_sandbox.Db.{Db, Platform}
use crypto_ledger_sandbox.Ledger.{FundingCall, FundingDraws, FundingResult, treasury_account}
use crypto_ledger_sandbox.Outbox.{Publisher}
use crypto_ledger_sandbox.Orders.{
  OrderCall, OrderDraws, Reservation, Release, OrderReservationResult, OrderCancellationResult,
  CancelDraws,
}

abbrev pub strokes : ℕ → String
strokes zero = String.[]
strokes (suc n) = String.◌∷◌ "1" (strokes n)

-- To 18 decimal places, half away from zero; at most 20 digits before the point.
abbrev pub round_column : ℕ → ℕ
round_column n = (n + step / 2) / step * step

abbrev pub store_column : Decimal → Option Decimal
store_column (pos n) =
    if ltb (round_column n) (100000000000000000000 * one) then some (pos (round_column n)) else none
store_column (negsuc n) = none

abbrev pub sample_platform : Platform
sample_platform = record {
  store_numeric = store_column;
  uuid_str = strokes;
  decimal_str = λ _. "amount";
  sha256_hexdigest = λ s. s;
}

abbrev pub usdt : Asset
usdt = record { id = 1; code = "USDT"; name = "Tether USD"; precision = 6; is_active = true }

abbrev pub btc : Asset
btc = record { id = 2; code = "BTC"; name = "Bitcoin"; precision = 8; is_active = true }

abbrev pub usdt_treasury : Wallet
usdt_treasury = record {
  id = 3;
  user_id = none;
  asset_id = 1;
  owner_type = system;
  system_account = some treasury_account;
  available_balance = pos (1000000 * one);
  locked_balance = pos 0;
}

abbrev pub alice : User
alice = record { id = 7; email = "a@example.com"; hashed_password = "x"; is_active = true }

abbrev pub seeded : Db
seeded = record {
  users = alice ∷ [];
  assets = btc ∷ usdt ∷ [];
  wallets = usdt_treasury ∷ [];
  transactions = [];
  entries = [];
  orders = [];
  events = [];
}

abbrev pub funding_call : FundingCall
funding_call = record {
  user_id = 7;
  asset_code = "usdt";
  amount = pos (100 * one);
  idempotency_key = "fund-key-1";
}

abbrev pub funding_draws : FundingDraws
funding_draws = record {
  wallet_id = 10;
  transaction_id = 11;
  debit_id = 12;
  credit_id = 13;
  reference = "A";
}

abbrev pub order_call : OrderCall
order_call = record {
  user_id = 7;
  base_asset_code = "BTC";
  quote_asset_code = "USDT";
  side = buy;
  price = pos (20000 * one);
  quantity = pos (one / 1000);
  idempotency_key = "order-key-1";
}

abbrev pub order_draws : OrderDraws
order_draws = record {
  transaction_id = 20;
  order_id = 21;
  debit_id = 22;
  credit_id = 23;
  reference = "B";
  event = record { event_id = 24; now = 100 };
}

abbrev pub cancel_draws : CancelDraws
cancel_draws = record {
  transaction_id = 30;
  debit_id = 31;
  credit_id = 32;
  reference = "C";
  event = record { event_id = 33; now = 200 };
}

-- A later request with the same key.
abbrev pub retry_draws : OrderDraws
retry_draws = record {
  transaction_id = 40;
  order_id = 41;
  debit_id = 42;
  credit_id = 43;
  reference = "D";
  event = record { event_id = 44; now = 300 };
}

abbrev pub placed_result : OrderReservationResult
placed_result = record {
  order = record {
    id = 21;
    user_id = 7;
    base_asset_id = 2;
    quote_asset_id = 1;
    idempotency_key = some "order-key-1";
    reservation_transaction_id = 20;
    side = buy;
    status = opened;
    price = pos (20000 * one);
    quantity = pos (one / 1000);
    remaining_quantity = pos (one / 1000);
    reserved_amount = pos (20 * one);
  };
  base_asset = btc;
  quote_asset = usdt;
  reserve_asset = usdt;
  replayed = false;
}

abbrev pub canceled_result : OrderCancellationResult
canceled_result = record {
  order = record placed_result.order { status = canceled };
  reserve_asset = usdt;
  replayed = false;
}

abbrev pub funded_result : FundingResult
funded_result = record {
  transaction = record {
    id = 11;
    reference = "FND-A";
    idempotency_key = some "fund-key-1";
    transaction_type = funding;
    status = posted;
    description = some "Sandbox funding for USDT";
  };
  asset = usdt;
  replayed = false;
}

-- The same key with another price.
abbrev pub changed_call : OrderCall
changed_call = record order_call { price = pos (30000 * one) }

abbrev pub changed_reservation : Reservation
changed_reservation = record {
  call = changed_call;
  draws = retry_draws;
  base_asset = btc;
  quote_asset = usdt;
  reserve_asset = usdt;
  reserved_amount = pos (30 * one);
}

abbrev pub retry_cancel_draws : CancelDraws
retry_cancel_draws = record {
  transaction_id = 50;
  debit_id = 51;
  credit_id = 52;
  reference = "E";
  event = record { event_id = 53; now = 400 };
}

abbrev pub placed_release : Release
placed_release = record { draws = cancel_draws; order = placed_result.order; reserve_asset = usdt }

-- A broker that refuses one event, and confirms the others.
abbrev pub refusing : Publisher
refusing e = if e.id == 24 then some "Event was not confirmed" else none

abbrev pub confirming : Publisher
confirming e = none

abbrev pub retry_funding_draws : FundingDraws
retry_funding_draws = record {
  wallet_id = 60;
  transaction_id = 61;
  debit_id = 62;
  credit_id = 63;
  reference = "F";
}

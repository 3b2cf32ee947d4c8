-- ===== src/Tests/Witnesses.antt =====
-- The theorems, applied to the sample's requests.
use crypto_ledger_sandbox.Prelude.{
  ◌≡◌, refl, some, true, pos, negsuc, find?, any?, update, upper, total, arith,
}
use crypto_ledger_sandbox.Decimal.{Decimal, IsMoney, add, sub, mul}
use crypto_ledger_sandbox.Models.{BalanceBucket, Uuid, Wallet}
use crypto_ledger_sandbox.Db.{
  ok, transaction_allowed, entry_allowed, order_allowed, event_allowed, insert_transaction,
  insert_entry, insert_order, insert_event, set_balances,
}
use crypto_ledger_sandbox.Outbox.{enqueue_outbox_event}
use crypto_ledger_sandbox.Orders.{
  create_order_reservation, reserve_funds, place_order, active_asset, reservation_amount,
  existing_order_replay, ledger_idempotency_key, cancel_order_reservation, cancel_open,
  release_funds, amount_of,
}
use crypto_ledger_sandbox.Orders.Replay.{create_order_reservation_idempotent}
use crypto_ledger_sandbox.Accounts.{ExactColumns, IsSound, IsBacked, unexplained}
use crypto_ledger_sandbox.Accounts.Reserving.{create_order_reservation-keeps_books}
use crypto_ledger_sandbox.Accounts.Releasing.{cancel_order_reservation-keeps_books}
use crypto_ledger_sandbox.Accounts.Backing.{create_order_reservation-IsBacked}
use crypto_ledger_sandbox.Accounts.Unlocking.{cancel_order_reservation-IsBacked}
use crypto_ledger_sandbox.Orders.Keys.{IsKeyAnswer}
use crypto_ledger_sandbox.Orders.Replay.{create_order_reservation-key_reuse}
use crypto_ledger_sandbox.Orders.Recanceled.{cancel_order_reservation_idempotent}
use crypto_ledger_sandbox.Orders.Outcomes.{IsAdmitted}
use crypto_ledger_sandbox.Orders.CancelOutcomes.{IsFound, IsReleasing}
use crypto_ledger_sandbox.Accounts.Cancelable.{cancel_order_reservation-releases}
use crypto_ledger_sandbox.Tests.Sample.{
  sample_platform, store_column, order_call, order_draws, retry_draws, changed_call,
  changed_reservation, retry_cancel_draws, placed_release, cancel_draws, placed_result,
  canceled_result,
}
use crypto_ledger_sandbox.Tests.Runs.{funded, reserved, released}

exact_column : (a : Decimal) → IsMoney a → store_column a ≡ some a
exact_column (pos n) h = ground arith
exact_column (negsuc n) h = absurd h

pub sample_columns : ExactColumns sample_platform
sample_columns = record { exact = exact_column }

pub funded-IsSound : IsSound funded
unfolding funded any?
funded-IsSound = record {
  ids = (refl, (refl, tt));
  money = (
    ((refl, omega arith), (refl, omega arith), (refl, omega arith)),
    (((refl, omega arith), (refl, omega arith), (refl, omega arith)), tt),
  );
  order_ids = tt;
  reserved = tt;
}

pub funded-IsBacked : IsBacked funded
unfolding funded find? total
funded-IsBacked = record { locked = λ user_id asset_id. ground arith }

pub order_success :
    create_order_reservation sample_platform order_draws order_call funded
    ≡ ok (placed_result, reserved)
unfolding funded reserved create_order_reservation reserve_funds place_order active_asset
    reservation_amount existing_order_replay ledger_idempotency_key insert_order insert_event
    order_allowed event_allowed set_balances mul enqueue_outbox_event insert_transaction
    insert_entry transaction_allowed entry_allowed add sub find? any? update upper
order_success = refl

pub cancel_success :
    cancel_order_reservation sample_platform cancel_draws 7 21 reserved
    ≡ ok (canceled_result, released)
unfolding reserved released cancel_order_reservation cancel_open release_funds insert_event
    event_allowed set_balances enqueue_outbox_event insert_transaction insert_entry
    transaction_allowed entry_allowed add sub find? any? update upper
cancel_success = refl

pub order_amount : IsMoney (amount_of order_call.side order_call.price order_call.quantity)
unfolding mul
order_amount = (refl, omega arith)

pub reserved-IsSound : IsSound reserved
reserved-IsSound =
    (create_order_reservation-keeps_books sample_platform order_draws order_call funded reserved
      placed_result sample_columns funded-IsSound order_amount order_success).0

create_order_reservation-keeps_books_example :
    IsSound reserved
    × ((b : BalanceBucket) (k : Uuid) → unexplained b k reserved ≡ unexplained b k funded)
create_order_reservation-keeps_books_example =
    create_order_reservation-keeps_books sample_platform order_draws order_call funded reserved
      placed_result sample_columns funded-IsSound order_amount order_success

create_order_reservation-IsBacked_example : IsBacked reserved
create_order_reservation-IsBacked_example =
    create_order_reservation-IsBacked sample_platform order_draws order_call funded reserved
      placed_result sample_columns funded-IsSound order_amount funded-IsBacked order_success

pub reserved-IsBacked : IsBacked reserved
reserved-IsBacked =
    create_order_reservation-IsBacked sample_platform order_draws order_call funded reserved
      placed_result sample_columns funded-IsSound order_amount funded-IsBacked order_success

cancel_order_reservation-keeps_books_example :
    IsSound released
    × ((b : BalanceBucket) (k : Uuid) → unexplained b k released ≡ unexplained b k reserved)
cancel_order_reservation-keeps_books_example =
    cancel_order_reservation-keeps_books sample_platform cancel_draws 7 21 reserved released
      canceled_result sample_columns reserved-IsSound cancel_success

cancel_order_reservation-IsBacked_example : IsBacked released
cancel_order_reservation-IsBacked_example =
    cancel_order_reservation-IsBacked sample_platform cancel_draws 7 21 reserved released
      canceled_result sample_columns reserved-IsSound reserved-IsBacked cancel_success

create_order_reservation_idempotent_example :
    create_order_reservation sample_platform retry_draws order_call reserved
    ≡ ok (record placed_result { replayed = true }, reserved)
create_order_reservation_idempotent_example =
    create_order_reservation_idempotent sample_platform order_draws retry_draws order_call funded
      reserved placed_result refl refl order_success

changed_call-IsAdmitted : IsAdmitted retry_draws changed_call reserved changed_reservation
unfolding reserved find? upper mul
changed_call-IsAdmitted = record {
  base = refl;
  quote = refl;
  distinct = refl;
  positive = refl;
  shape = refl;
}

create_order_reservation-key_reuse_example :
    IsKeyAnswer placed_result.order changed_reservation reserved
      (create_order_reservation sample_platform retry_draws changed_call reserved)
create_order_reservation-key_reuse_example =
    create_order_reservation-key_reuse sample_platform order_draws retry_draws order_call
      changed_call funded reserved placed_result changed_reservation order_success refl refl
      changed_call-IsAdmitted

cancel_order_reservation_idempotent_example :
    cancel_order_reservation sample_platform retry_cancel_draws 7 21 released
    ≡ ok (record canceled_result { replayed = true }, released)
cancel_order_reservation_idempotent_example =
    cancel_order_reservation_idempotent sample_platform cancel_draws retry_cancel_draws 7 21
      reserved released canceled_result cancel_success

placed_order-IsFound : IsFound 7 21 reserved placed_release
unfolding reserved find?
placed_order-IsFound = record { order = refl; asset = refl }

cancel_order_reservation-releases_example :
    (wallet : Wallet) × IsReleasing 7 reserved placed_release wallet
    × (cancel_order_reservation sample_platform cancel_draws 7 21 reserved
        ≡ release_funds sample_platform placed_release wallet reserved)
cancel_order_reservation-releases_example =
    cancel_order_reservation-releases 7 21 reserved reserved-IsSound reserved-IsBacked
      placed_release placed_order-IsFound refl sample_platform

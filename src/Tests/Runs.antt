-- ===== src/Tests/Runs.antt =====
-- The services, run on the sample.
use crypto_ledger_sandbox.Prelude.{
  ◌≡◌, refl, map, [], ◌∷◌, pos, ◌*◌, find?, any?, update, upper, List,
}
use crypto_ledger_sandbox.Decimal.{Decimal, one, add, sub, mul}
use crypto_ledger_sandbox.Db.{
  Db, run, wallet_allowed, transaction_allowed, entry_allowed, order_allowed, event_allowed,
  insert_wallet, insert_transaction, insert_entry, insert_order, insert_event, set_available,
  set_balances,
}
use crypto_ledger_sandbox.Ledger.{
  find_funding_replay, post_transfer, fund_from_treasury, wallet_or_opened, post_sandbox_funding,
}
use crypto_ledger_sandbox.Outbox.{enqueue_outbox_event}
use crypto_ledger_sandbox.Orders.{
  create_order_reservation, reserve_funds, place_order, active_asset, reservation_amount,
  existing_order_replay, ledger_idempotency_key, cancel_order_reservation, cancel_open,
  release_funds,
}
use crypto_ledger_sandbox.Tests.Sample.{
  sample_platform, seeded, funding_call, funding_draws, order_call, order_draws, cancel_draws,
}

abbrev wallet_balances : Db → List (Decimal × Decimal)
wallet_balances db = map (λ w. (w.available_balance, w.locked_balance)) db.wallets

unfoldable pub funded : Db
unfolding post_sandbox_funding find_funding_replay fund_from_treasury wallet_or_opened post_transfer
    insert_wallet insert_transaction insert_entry set_available wallet_allowed transaction_allowed
    entry_allowed add sub find? any? update upper
funded = (run (post_sandbox_funding sample_platform funding_draws funding_call) seeded).1

unfoldable pub reserved : Db
unfolding funded create_order_reservation reserve_funds place_order active_asset reservation_amount
    existing_order_replay ledger_idempotency_key insert_order insert_event order_allowed
    event_allowed set_balances mul enqueue_outbox_event
reserved = (run (create_order_reservation sample_platform order_draws order_call) funded).1

unfoldable pub released : Db
unfolding reserved cancel_order_reservation cancel_open release_funds
released = (run (cancel_order_reservation sample_platform cancel_draws 7 21) reserved).1

funded-wallet_balances :
    wallet_balances funded ≡ (pos (100 * one), pos 0) ∷ (pos (999900 * one), pos 0) ∷ []
unfolding funded
funded-wallet_balances = refl

reserved-wallet_balances :
    wallet_balances reserved ≡ (pos (80 * one), pos (20 * one)) ∷ (pos (999900 * one), pos 0) ∷ []
unfolding reserved
reserved-wallet_balances = refl

released-wallet_balances :
    wallet_balances released ≡ (pos (100 * one), pos 0) ∷ (pos (999900 * one), pos 0) ∷ []
unfolding released
released-wallet_balances = refl

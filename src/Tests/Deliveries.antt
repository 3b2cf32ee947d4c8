-- ===== src/Tests/Deliveries.antt =====
-- The theorems on funding and on the outbox, applied to the sample.
use crypto_ledger_sandbox.Prelude.{
  true, All, total, arith, ◌≡◌, refl, ◌⊎◌, false, none, ◌+ℤ◌, find?, any?, update, upper, Unique,
}
use crypto_ledger_sandbox.Decimal.{add, sub}
use crypto_ledger_sandbox.Models.{BalanceBucket, Uuid, OutboxEvent}
use crypto_ledger_sandbox.Db.{
  ok, wallet_allowed, transaction_allowed, entry_allowed, insert_wallet, insert_transaction,
  insert_entry, set_available,
}
use crypto_ledger_sandbox.Ledger.{
  find_funding_replay, post_transfer, fund_from_treasury, wallet_or_opened, post_sandbox_funding,
}
use crypto_ledger_sandbox.Outbox.{publish_next_outbox_event}
use crypto_ledger_sandbox.Ledger.Replay.{post_sandbox_funding_idempotent}
use crypto_ledger_sandbox.Outbox.Taken.{
  IsAvailable, IsNoLater, IsDelivery, publish_next_outbox_event-takes,
}
use crypto_ledger_sandbox.Accounts.{IsSound, IsBacked, unexplained}
use crypto_ledger_sandbox.Accounts.Opening.{HasRoom}
use crypto_ledger_sandbox.Accounts.Funding.{post_sandbox_funding-keeps_books}
use crypto_ledger_sandbox.Tests.Witnesses.{sample_columns}
use crypto_ledger_sandbox.Tests.Sample.{
  sample_platform, seeded, funding_call, funding_draws, retry_funding_draws, funded_result,
  refusing,
}
use crypto_ledger_sandbox.Tests.Runs.{funded, released}

pub funding_success :
    post_sandbox_funding sample_platform funding_draws funding_call seeded
    ≡ ok (funded_result, funded)
unfolding funded post_sandbox_funding find_funding_replay fund_from_treasury wallet_or_opened
    post_transfer insert_wallet insert_transaction insert_entry set_available wallet_allowed
    transaction_allowed entry_allowed add sub find? any? update upper
funding_success = refl

released_events : Unique (λ (e : OutboxEvent). e.id) released.events
unfolding released any?
released_events = (refl, (refl, tt))

publish_next_outbox_event-takes_example :
    (((d : OutboxEvent) → ¬ IsAvailable (λ _. false) none released.events d)
      × (publish_next_outbox_event refusing 500 (λ _. false) none released ≡ (false, released)))
    ⊎ ((e : OutboxEvent) × IsAvailable (λ _. false) none released.events e
        × ((d : OutboxEvent) → (¬ IsAvailable (λ _. false) none released.events d) ⊎ IsNoLater e d)
        × IsDelivery
            (refusing e)
            500
            e
            released
            (publish_next_outbox_event refusing 500 (λ _. false) none released).0
            (publish_next_outbox_event refusing 500 (λ _. false) none released).1)
publish_next_outbox_event-takes_example =
    publish_next_outbox_event-takes refusing 500 (λ _. false) none released released_events

pub seeded-IsSound : IsSound seeded
unfolding any? ◌+ℤ◌
seeded-IsSound = record {
  ids = (refl, tt);
  money = (((refl, omega arith), (refl, omega arith), (refl, omega arith)), tt);
  order_ids = tt;
  reserved = tt;
}

pub seeded_room : All (HasRoom funding_call.amount) seeded.wallets
unfolding ◌+ℤ◌
seeded_room = (((refl, omega arith), (refl, omega arith)), tt)

post_sandbox_funding-keeps_books_example :
    IsSound funded
    × ((b : BalanceBucket) (k : Uuid) → unexplained b k funded ≡ unexplained b k seeded)
post_sandbox_funding-keeps_books_example =
    post_sandbox_funding-keeps_books sample_platform funding_draws funding_call seeded funded
      funded_result sample_columns seeded-IsSound (refl, omega arith) seeded_room funding_success

pub seeded-IsBacked : IsBacked seeded
unfolding find? total
seeded-IsBacked = record { locked = λ user_id asset_id. refl }

post_sandbox_funding_idempotent_example :
    post_sandbox_funding sample_platform retry_funding_draws funding_call funded
    ≡ ok (record funded_result { replayed = true }, funded)
post_sandbox_funding_idempotent_example =
    post_sandbox_funding_idempotent sample_platform funding_draws retry_funding_draws funding_call
      seeded funded funded_result refl funding_success

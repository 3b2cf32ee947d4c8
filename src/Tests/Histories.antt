-- ===== src/Tests/Histories.antt =====
-- The theorems on the development data and on histories, applied to the sample.
use crypto_ledger_sandbox.Prelude.{
  ◌≡◌, refl, ◌⊎◌, true, false, String, List, [], ◌∷◌, pos, ◌*◌, find?, any?, total, arith, upper,
}
use crypto_ledger_sandbox.Decimal.{one}
use crypto_ledger_sandbox.Db.{
  Db, ok, run, asset_allowed, insert_asset, wallet_allowed, insert_wallet,
}
use crypto_ledger_sandbox.Orders.{amount_of}
use crypto_ledger_sandbox.Accounts.Balances.{balances, changed, deposited, IsHold, IsFree}
use crypto_ledger_sandbox.Accounts.Holds.{
  create_order_reservation-holds, cancel_order_reservation-frees,
}
use crypto_ledger_sandbox.Accounts.Deposits.{post_sandbox_funding-deposits}
use crypto_ledger_sandbox.Seed.{
  DevelopmentAsset, SeedDraws, development_assets, asset_or_created, treasury_or_created,
  seed_asset, seed_assets, seed,
}
use crypto_ledger_sandbox.Seed.Again.{seed_idempotent}
use crypto_ledger_sandbox.Seed.Books.{HasBooks, seed-HasBooks}
use crypto_ledger_sandbox.Tests.Sample.{
  sample_platform, seeded, funding_call, funding_draws, funded_result, order_call, order_draws,
  placed_result, cancel_draws, canceled_result,
}
use crypto_ledger_sandbox.Tests.Runs
use crypto_ledger_sandbox.Tests.Witnesses.{
  sample_columns, order_success, cancel_success, order_amount, funded-IsSound, reserved-IsSound,
}
use crypto_ledger_sandbox.Tests.Deliveries.{
  funding_success, seeded_room, seeded-IsSound, seeded-IsBacked,
}

abbrev empty_db : Db
empty_db = record {
  users = [];
  assets = [];
  wallets = [];
  transactions = [];
  entries = [];
  orders = [];
  events = [];
}

abbrev seed_draws : DevelopmentAsset → SeedDraws
seed_draws x = record { asset_id = x.precision; wallet_id = x.precision }

abbrev seed_redraws : DevelopmentAsset → SeedDraws
seed_redraws x = record { asset_id = 100; wallet_id = 200 }

seeded_db : Db
unfolding seed seed_assets seed_asset asset_or_created treasury_or_created insert_asset
    insert_wallet asset_allowed wallet_allowed find? any? upper
seeded_db = (run (seed sample_platform "development" seed_draws development_assets) empty_db).1

abbrev created : List String
created = "USDT asset" ∷ "USDT treasury" ∷ "BTC asset" ∷ "BTC treasury" ∷ []

seed_success :
    seed sample_platform "development" seed_draws development_assets empty_db
    ≡ ok (created, seeded_db)
unfolding seeded_db seed seed_assets seed_asset asset_or_created treasury_or_created insert_asset
    insert_wallet asset_allowed wallet_allowed find? any? upper
seed_success = refl

seed_idempotent_example :
    seed sample_platform "development" seed_redraws development_assets seeded_db
    ≡ ok ([], seeded_db)
seed_idempotent_example =
    seed_idempotent sample_platform "development" seed_draws seed_redraws development_assets
      empty_db seeded_db created seed_success

empty_db-HasBooks : HasBooks empty_db
unfolding find? total
empty_db-HasBooks = record {
  sound = record { ids = tt; money = tt; order_ids = tt; reserved = tt };
  backed = record { locked = λ user_id asset_id. refl };
}

seed-HasBooks_example : HasBooks seeded_db
seed-HasBooks_example =
    seed-HasBooks sample_platform sample_columns seed_draws "development" development_assets
      empty_db seeded_db created ((refl, omega arith), ((refl, omega arith), tt)) seed_success
      empty_db-HasBooks

pub seeded-HasBooks : HasBooks seeded
seeded-HasBooks = record { sound = seeded-IsSound; backed = seeded-IsBacked }

create_order_reservation-holds_example :
    ((placed_result.replayed ≡ true) × (balances Runs.reserved ≡ balances Runs.funded))
    ⊎ ((placed_result.replayed ≡ false)
        × IsHold 7 1
            (amount_of order_call.side order_call.price order_call.quantity)
            Runs.funded
            Runs.reserved)
create_order_reservation-holds_example =
    create_order_reservation-holds sample_platform order_draws order_call Runs.funded Runs.reserved
      placed_result sample_columns funded-IsSound order_amount order_success

cancel_order_reservation-frees_example :
    ((canceled_result.replayed ≡ true) × (balances Runs.released ≡ balances Runs.reserved))
    ⊎ ((canceled_result.replayed ≡ false) × IsFree 7 1 (pos (20 * one)) Runs.reserved Runs.released)
cancel_order_reservation-frees_example =
    cancel_order_reservation-frees sample_platform cancel_draws 7 21 Runs.reserved Runs.released
      canceled_result sample_columns reserved-IsSound cancel_success

post_sandbox_funding-deposits_example :
    ((funded_result.replayed ≡ true) × (balances Runs.funded ≡ balances seeded))
    ⊎ ((funded_result.replayed ≡ false)
        × (balances Runs.funded ≡ changed 7 1 (deposited (pos (100 * one))) (balances seeded)))
post_sandbox_funding-deposits_example =
    post_sandbox_funding-deposits sample_platform funding_draws funding_call seeded Runs.funded
      funded_result sample_columns seeded-IsSound (refl, omega arith) seeded_room funding_success

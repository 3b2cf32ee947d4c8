-- ===== src/Tests/Interleavings.antt =====
-- Sessions that race: two fundings with one key, two orders with one key, two registrations.
use crypto_ledger_sandbox.Prelude.{
  true, false, ◌⊎◌, upper, some, none, ◌*◌, pos, ltb_ℤ, [], ◌∷◌, ◌≡◌, refl, find?, arith,
}
use crypto_ledger_sandbox.Decimal.{one, mul}
use crypto_ledger_sandbox.Models.{Wallet, locked, user}
use crypto_ledger_sandbox.Db.{insufficient_available_balance, Error, ok, err, run}
use crypto_ledger_sandbox.Ledger.{is_user_wallet, Funding, fund_from_treasury, post_sandbox_funding}
use crypto_ledger_sandbox.Orders.{Reservation, reserve_funds}
use crypto_ledger_sandbox.Orders.Outcomes.{IsAdmitted}
use crypto_ledger_sandbox.Orders.Waited.{reserve_funds-raced}
use crypto_ledger_sandbox.Api.Schemas.{RegisterRequest}
use crypto_ledger_sandbox.Api.AuthRoutes.{register_unless, register}
use crypto_ledger_sandbox.Api.Raced.{register_unless-serial}
use crypto_ledger_sandbox.Accounts.{net, unexplained}
use crypto_ledger_sandbox.Accounts.Supply.{supply}
use crypto_ledger_sandbox.Seed.Books.{HasBooks}
use crypto_ledger_sandbox.History.{Reach, cancels}
use crypto_ledger_sandbox.History.Moves.{Moves, Turns-Moves}
use crypto_ledger_sandbox.Accounts.Balances.{view}
use crypto_ledger_sandbox.History.Phases.{read_funding, read_order}
use crypto_ledger_sandbox.History.Serial.{fund_from_treasury-refused}
use crypto_ledger_sandbox.History.Turns.{
  World, idle, Turns, begin, next, reads_funding, posts_funding, reads_order, posts_order, calls,
  AreSolventTurns,
}
use crypto_ledger_sandbox.History.Interleaved.{
  Turns-Reach, Turns-HasBooks, Turns-supply, Turns-unexplained,
}
use crypto_ledger_sandbox.History.Net.{Turns-net}
use crypto_ledger_sandbox.Tests.Sample.{
  sample_platform, seeded, usdt, funding_call, funding_draws, retry_funding_draws, funded_result,
  btc, order_call, retry_draws, placed_result, order_draws, cancel_draws,
}
use crypto_ledger_sandbox.Tests.Tokens.{sample_library}
use crypto_ledger_sandbox.Tests.Runs
use crypto_ledger_sandbox.Tests.Witnesses.{sample_columns, order_amount, order_success}
use crypto_ledger_sandbox.Tests.Deliveries.{seeded_room, funding_success}
use crypto_ledger_sandbox.Tests.Histories.{seeded-HasBooks}

abbrev sooner : Funding
sooner = record { call = funding_call; draws = funding_draws; asset = usdt }

abbrev slower : Funding
slower = record { call = funding_call; draws = retry_funding_draws; asset = usdt }

abbrev ordering : Reservation
ordering = record {
  call = order_call;
  draws = order_draws;
  base_asset = btc;
  quote_asset = usdt;
  reserve_asset = usdt;
  reserved_amount = pos (20 * one);
}

-- The sooner session has posted, an order has been placed and canceled, and the slower one waits.
abbrev raced : World
raced = record { db = Runs.released; fundings = slower ∷ []; orders = []; registrations = [] }

sample_turns : Turns sample_platform sample_library (idle seeded) raced
unfolding Runs.released read_funding read_order
sample_turns =
    next
      (next
        (next
          (next
            (next (next begin (reads_funding sooner seeded refl refl))
              (reads_funding slower seeded refl refl))
            (posts_funding sooner (slower ∷ []) [] refl refl))
          (reads_order ordering Runs.funded refl refl))
        (posts_order ordering [] [] refl refl))
      (calls (cancels cancel_draws 7 21 refl) refl refl refl)

sample_solvent : AreSolventTurns sample_turns
unfolding sample_turns
sample_solvent = ((((((tt, tt), tt), ((refl, omega arith), seeded_room)), tt), order_amount), tt)

Turns-Moves_example : Moves (view seeded) (view raced.db)
Turns-Moves_example =
    Turns-Moves sample_platform sample_library sample_columns seeded-HasBooks sample_turns
      sample_solvent

Turns-Reach_example : Reach sample_platform sample_library seeded raced.db
Turns-Reach_example = Turns-Reach sample_turns

Turns-HasBooks_example : HasBooks raced.db
Turns-HasBooks_example =
    Turns-HasBooks sample_platform sample_library sample_columns seeded-HasBooks sample_turns
      sample_solvent

Turns-supply_example : supply 1 raced.db ≡ supply 1 seeded
Turns-supply_example =
    Turns-supply sample_platform sample_library sample_columns 1 seeded-HasBooks sample_turns
      sample_solvent

Turns-unexplained_example : unexplained locked 10 raced.db ≡ unexplained locked 10 seeded
Turns-unexplained_example =
    Turns-unexplained sample_platform sample_library sample_columns locked 10 seeded-HasBooks
      sample_turns sample_solvent

Turns-net_example : net 11 raced.db ≡ net 11 seeded
Turns-net_example = Turns-net 11 sample_turns

-- The slower session is refused, although a repeated call is a replay.
fund_from_treasury-refused_example :
    ((e : Error) × (run (fund_from_treasury sample_platform slower) Runs.funded
        ≡ (err e, Runs.funded)))
    × (post_sandbox_funding sample_platform retry_funding_draws funding_call Runs.funded
        ≡ ok (record funded_result { replayed = true }, Runs.funded))
fund_from_treasury-refused_example =
    fund_from_treasury-refused sample_platform funding_draws retry_funding_draws funding_call usdt
      seeded Runs.funded funded_result refl funding_success

-- The wallet of the order, once the order is placed.
abbrev alice_wallet : Wallet
alice_wallet = record {
  id = 10;
  user_id = some 7;
  asset_id = 1;
  owner_type = user;
  system_account = none;
  available_balance = pos (80 * one);
  locked_balance = pos (20 * one);
}

-- The same order call, which has waited for the wallet.
abbrev waited : Reservation
waited = record {
  call = order_call;
  draws = retry_draws;
  base_asset = btc;
  quote_asset = usdt;
  reserve_asset = usdt;
  reserved_amount = pos (20 * one);
}

alice_wallet_found :
    find? (is_user_wallet waited.call.user_id waited.reserve_asset.id) Runs.reserved.wallets
    ≡ some alice_wallet
unfolding Runs.reserved
alice_wallet_found = refl

waited-IsAdmitted : IsAdmitted waited.draws waited.call Runs.reserved waited
unfolding Runs.reserved find? upper mul
waited-IsAdmitted = record {
  base = refl;
  quote = refl;
  distinct = refl;
  positive = refl;
  shape = refl;
}

reserve_funds-raced_example :
    ((ltb_ℤ alice_wallet.available_balance waited.reserved_amount ≡ false)
      × (reserve_funds sample_platform waited Runs.reserved
          ≡ ok (record placed_result { replayed = true }, Runs.reserved)))
    ⊎ ((ltb_ℤ alice_wallet.available_balance waited.reserved_amount ≡ true)
        × (reserve_funds sample_platform waited Runs.reserved ≡ err insufficient_available_balance))
reserve_funds-raced_example =
    reserve_funds-raced sample_platform order_draws Runs.funded Runs.reserved placed_result waited
      alice_wallet refl refl order_success waited-IsAdmitted alice_wallet_found

abbrev alice_again : RegisterRequest
alice_again = record { email = "A@example.com"; password = "a long password" }

register_unless-serial_example :
    register_unless sample_platform sample_library 1 10
      (record { user_id = 8; salt = 3 })
      alice_again
      none
      seeded
    ≡ register sample_platform sample_library 1 10
        (record { user_id = 8; salt = 3 })
        alice_again
        seeded
register_unless-serial_example =
    register_unless-serial sample_platform sample_library 1 10 (record { user_id = 8; salt = 3 })
      alice_again seeded

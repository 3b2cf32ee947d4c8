-- ===== src/Tests/Requests.antt =====
-- The theorems on the routes, applied to the sample's requests.
use crypto_ledger_sandbox.Prelude.{
  ℕ, ◌*◌, ◌/◌, ◌≡◌, refl, subst, ◌==◌, ◌⊎◌, true, false, none, some, String, List, ◌∷◌, map,
  text_length, pos, negsuc, find?, any?, lower, all_codes, arith,
}
use crypto_ledger_sandbox.Decimal.{Decimal, one}
use crypto_ledger_sandbox.Models.{buy, canceled, User, Order, Asset}
use crypto_ledger_sandbox.Db.Laws.{same_value}
use crypto_ledger_sandbox.Orders.{is_own_order}
use crypto_ledger_sandbox.Db.{Db, user_allowed, insert_user}
use crypto_ledger_sandbox.Api.Answers.{respond}
use crypto_ledger_sandbox.Api.Schemas.{
  is_amount, is_asset_code, has_length, FundingRequest, FundingResponse, is_funding_request,
  OrderCreateRequest, OrderResponse, is_order_create_request, RegisterRequest, LoginRequest,
  TokenResponse,
}
use crypto_ledger_sandbox.Api.OrderRoutes.{create_order, cancel_order, build_order_response}
use crypto_ledger_sandbox.Api.WalletRoutes.{fund_sandbox_wallet, list_wallet_balances}
use crypto_ledger_sandbox.Api.AuthRoutes.{
  RegisterDraws, new_user, token_response, register, login, has_email,
}
use crypto_ledger_sandbox.Api.Security.{get_current_active_user, create_access_token}
use crypto_ledger_sandbox.Api.Repeats.{
  HoldsRequests, create_order_idempotent, fund_sandbox_wallet_idempotent,
}
use crypto_ledger_sandbox.Api.Changes.{
  create_order-changes, cancel_order-changes, fund_sandbox_wallet-changes,
}
use crypto_ledger_sandbox.Api.SignIn.{
  get_current_active_user-expired, register-opens, register-login, login-responds,
}
use crypto_ledger_sandbox.Api.OwnRows.{Row}
use crypto_ledger_sandbox.Api.Listing.{exact_balance, IsListing, list_wallet_balances_lem}
use crypto_ledger_sandbox.Tests.Sorting.{shorter_first, shorter_first-Rearranged}
use crypto_ledger_sandbox.Tests.Sample.{
  sample_platform, store_column, seeded, alice, usdt, btc, order_draws, retry_draws, cancel_draws,
  funding_draws, retry_funding_draws, placed_result,
}
use crypto_ledger_sandbox.Tests.Tokens.{sample_library, sample_library-IsLawful}
use crypto_ledger_sandbox.Tests.Runs.{funded, reserved}
use crypto_ledger_sandbox.Tests.Witnesses.{order_success, funded-IsSound}
use crypto_ledger_sandbox.Tests.Deliveries.{funding_success}

held_column : (a : Decimal) → is_amount a ≡ true → store_column a ≡ some a
held_column (pos n) h = ground arith
held_column (negsuc n) h = absurd (ground arith)

sample_requests : HoldsRequests sample_platform
sample_requests = record { exact = held_column }

abbrev order_payload : OrderCreateRequest
order_payload = record {
  base_asset_code = "BTC";
  quote_asset_code = "USDT";
  side = buy;
  price = pos (20000 * one);
  quantity = pos (one / 1000);
}

order_payload_valid : is_order_create_request order_payload ≡ true
unfolding is_order_create_request is_asset_code has_length text_length all_codes
order_payload_valid = refl

abbrev order_body : OrderResponse
order_body = build_order_response placed_result.order btc usdt usdt false

order_answered :
    create_order sample_platform order_draws order_payload "order-key-1" alice funded
    ≡ (respond 201 order_body, reserved)
unfolding create_order
order_answered = rw order_success refl

create_order_idempotent_example :
    create_order sample_platform retry_draws order_payload "order-key-1" alice reserved
    ≡ (respond 200 (record order_body { replayed = true }), reserved)
create_order_idempotent_example =
    create_order_idempotent sample_platform sample_requests order_draws retry_draws order_payload
      "order-key-1" alice funded reserved 201 order_body order_payload_valid order_answered

abbrev funding_payload : FundingRequest
funding_payload = record { asset_code = "usdt"; amount = pos (100 * one) }

funding_payload_valid : is_funding_request funding_payload ≡ true
unfolding is_funding_request is_asset_code has_length text_length all_codes
funding_payload_valid = refl

abbrev funding_body : FundingResponse
funding_body = record {
  transaction_id = 11;
  reference = "FND-A";
  asset_code = "USDT";
  amount = pos (100 * one);
  replayed = false;
}

funding_answered :
    fund_sandbox_wallet sample_platform "development" funding_draws funding_payload "fund-key-1"
      alice seeded
    ≡ (respond 201 funding_body, funded)
unfolding fund_sandbox_wallet
funding_answered = rw funding_success refl

fund_sandbox_wallet_idempotent_example :
    fund_sandbox_wallet sample_platform "development" retry_funding_draws funding_payload
      "fund-key-1" alice funded
    ≡ (respond 200 (record funding_body { replayed = true }), funded)
fund_sandbox_wallet_idempotent_example =
    fund_sandbox_wallet_idempotent sample_platform sample_requests "development" funding_draws
      retry_funding_draws funding_payload "fund-key-1" alice seeded funded 201 funding_body
      funding_payload_valid funding_answered

abbrev development : String
development = "development"

create_order-changes_example :
    ((create_order sample_platform order_draws order_payload "order-key-1" alice funded).1 ≡ funded)
    ⊎ ((body : OrderResponse) × ((create_order sample_platform order_draws order_payload
            "order-key-1" alice funded).0
          ≡ respond 201 body)
        × (body.id ≡ 21)
        × (body.replayed ≡ false))
create_order-changes_example =
    create_order-changes sample_platform order_draws order_payload "order-key-1" alice funded

reserved_assets :
    (o : Order)
    → find? (is_own_order 7 21) reserved.orders ≡ some o
    → (base_asset quote_asset : Asset) × (find? (λ a. a.id == o.base_asset_id) reserved.assets
        ≡ some base_asset)
      × (find? (λ a. a.id == o.quote_asset_id) reserved.assets ≡ some quote_asset)
unfolding reserved find?
reserved_assets o h =
    subst
      (λ (p : Order).
        (base_asset quote_asset : Asset) × (find? (λ a. a.id == p.base_asset_id) reserved.assets
          ≡ some base_asset)
        × (find? (λ a. a.id == p.quote_asset_id) reserved.assets ≡ some quote_asset))
      (same_value refl h) (btc, usdt, refl, refl)

cancel_order-changes_example :
    ((cancel_order sample_platform cancel_draws 21 alice reserved).1 ≡ reserved)
    ⊎ ((body : OrderResponse) × ((cancel_order sample_platform cancel_draws 21 alice reserved).0
          ≡ respond 200 body)
        × (body.id ≡ 21)
        × (body.status ≡ canceled)
        × (body.replayed ≡ false))
cancel_order-changes_example =
    cancel_order-changes sample_platform cancel_draws 21 alice reserved reserved_assets

fund_sandbox_wallet-changes_example :
    ((fund_sandbox_wallet sample_platform "development" funding_draws funding_payload "fund-key-1"
        alice seeded).1
      ≡ seeded)
    ⊎ ((body : FundingResponse) × ((fund_sandbox_wallet sample_platform "development" funding_draws
            funding_payload "fund-key-1" alice seeded).0
          ≡ respond 201 body)
        × (development ≡ "development")
        × (body.transaction_id ≡ 11)
        × (body.replayed ≡ false))
fund_sandbox_wallet-changes_example =
    fund_sandbox_wallet-changes sample_platform "development" funding_draws funding_payload
      "fund-key-1" alice seeded

get_current_active_user-expired_example :
    get_current_active_user sample_library 75
      (some (create_access_token sample_library 1 10 "1111111"))
      seeded
    ≡ none
get_current_active_user-expired_example =
    get_current_active_user-expired sample_platform sample_library 1 10 75 seeded "1111111"
      sample_library-IsLawful (omega arith)

abbrev bob_draws : RegisterDraws
bob_draws = record { user_id = 8; salt = 3 }

abbrev bob_payload : RegisterRequest
bob_payload = record { email = "Bob@Example.com"; password = "a long password" }

abbrev bob : User
bob = new_user sample_platform sample_library 1 bob_draws bob_payload

abbrev with_bob : Db
with_bob = record seeded { users = bob ∷ seeded.users }

abbrev bob_token : ℕ → TokenResponse
bob_token now = token_response sample_platform sample_library 1 now 8

bob_registered :
    register sample_platform sample_library 1 10 bob_draws bob_payload seeded
    ≡ (respond 201 (bob_token 10), with_bob)
unfolding register insert_user user_allowed find? any? lower
bob_registered = refl

register-opens_example :
    get_current_active_user sample_library 69 (some (bob_token 10).access_token) with_bob ≡ some bob
register-opens_example =
    register-opens sample_platform sample_library 1 10 69 bob_draws bob_payload seeded with_bob
      sample_library-IsLawful 201 (bob_token 10) bob_registered (omega arith) (omega arith)

abbrev bob_login : LoginRequest
bob_login = record { email = "BOB@example.com"; password = "a long password" }

same_lower : lower bob_login.email ≡ lower bob_payload.email
unfolding lower
same_lower = refl

register-login_example :
    login sample_platform sample_library 1 90 bob_login with_bob
    ≡ (respond 200 (bob_token 90), with_bob)
register-login_example =
    register-login sample_platform sample_library 1 10 90 bob_draws bob_payload seeded with_bob
      sample_library-IsLawful 201 (bob_token 10) bob_registered bob_login same_lower refl

bob_logs_in :
    login sample_platform sample_library 1 90 bob_login with_bob
    ≡ (respond 200 (bob_token 90), with_bob)
unfolding login find? lower
bob_logs_in = refl

login-responds_example :
    (u : User) × (find? (has_email (lower bob_login.email)) with_bob.users ≡ some u)
    × (u.is_active ≡ true)
    × (sample_library.verify_password bob_login.password u.hashed_password ≡ true)
    × (bob_token 90 ≡ token_response sample_platform sample_library 1 90 u.id)
    × (with_bob ≡ with_bob)
login-responds_example =
    login-responds sample_platform sample_library 1 90 bob_login with_bob with_bob 200
      (bob_token 90) bob_logs_in

list_wallet_balances_example :
    (rows : List Row) × (list_wallet_balances shorter_first alice funded
      ≡ (respond 200 (record { balances = map exact_balance rows }), funded))
    × IsListing 7 funded.assets funded.wallets rows
list_wallet_balances_example =
    list_wallet_balances_lem shorter_first alice funded shorter_first-Rearranged funded-IsSound

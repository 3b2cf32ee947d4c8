-- ===== src/Api/WalletRoutes.antt =====
-- app/api/routes/wallets.py and app/api/routes/balances.py.
use crypto_ledger_sandbox.Prelude.{
  Bool, not, ◌&&◌, Option, none, some, List, [], ◌∷◌, map, String, ◌==◌, str_eq, if◌then◌else◌,
  find?,
}
use crypto_ledger_sandbox.Decimal.{add}
use crypto_ledger_sandbox.Models.{Uuid, User, Asset, Wallet, user, owner_type_eq}
use crypto_ledger_sandbox.Db.{
  Platform, Error, Result, ok, err, run, uuid_matches, asset_not_found, treasury_not_initialized,
  insufficient_treasury_balance, idempotency_conflict,
}
use crypto_ledger_sandbox.Ledger.{FundingResult, FundingCall, FundingDraws, post_sandbox_funding}
use crypto_ledger_sandbox.Api.Answers.{Answer, respond, http_exception, unhandled, Route}
use crypto_ledger_sandbox.Api.Schemas.{
  FundingRequest, FundingResponse, WalletBalanceResponse, WalletBalancesResponse,
}

abbrev pub funding_call : User → FundingRequest → String → FundingCall
funding_call current_user payload idempotency_key = record {
  user_id = current_user.id;
  asset_code = payload.asset_code;
  amount = payload.amount;
  idempotency_key = idempotency_key;
}

-- The `except` clauses.
abbrev pub funding_error : Error → Answer FundingResponse
funding_error asset_not_found = http_exception 404 "Requested asset was not found."
funding_error treasury_not_initialized = http_exception 503 "Sandbox treasury is not initialized."
funding_error insufficient_treasury_balance =
    http_exception 503 "Sandbox treasury has insufficient balance."
funding_error idempotency_conflict =
    http_exception 409 "Idempotency key was already used with different data."
funding_error e = unhandled e

abbrev pub funded_answer : FundingRequest → Result FundingResult → Answer FundingResponse
funded_answer payload (ok result) = respond (if result.replayed then 200 else 201) (record {
  transaction_id = result.transaction.id;
  reference = result.transaction.reference;
  asset_code = result.asset.code;
  amount = payload.amount;
  replayed = result.replayed;
})
funded_answer payload (err e) = funding_error e

-- `environment` is the setting ENVIRONMENT.
unfoldable pub fund_sandbox_wallet :
    Platform → String → FundingDraws → FundingRequest → String → User → Route FundingResponse
fund_sandbox_wallet platform environment draws payload idempotency_key current_user db =
    if not (str_eq environment "development")
    then (http_exception 403 "Sandbox funding is available only in development.", db)
    else (let (result, db') =
          run
            (post_sandbox_funding platform draws
              (funding_call current_user payload idempotency_key))
            db in
        (funded_answer payload result, db'))

-- The WHERE of the balances.
abbrev pub is_wallet_of : Uuid → Wallet → Bool
is_wallet_of user_id w = owner_type_eq w.owner_type user && uuid_matches w.user_id (some user_id)

-- The row of the join: the wallet with the asset that has its key.
abbrev pub joined_row : Wallet → Option Asset → List (Wallet × Asset) → List (Wallet × Asset)
joined_row w none rows = rows
joined_row w (some a) rows = (w, a) ∷ rows

unfoldable pub wallet_rows : Uuid → List Asset → List Wallet → List (Wallet × Asset)
wallet_rows user_id assets [] = []
wallet_rows user_id assets (w ∷ wallets) =
    let rest = wallet_rows user_id assets wallets in
    if is_wallet_of user_id w
    then joined_row w (find? (λ a. a.id == w.asset_id) assets) rest
    else rest

abbrev pub balance_response : Wallet × Asset → WalletBalanceResponse
balance_response row = record {
  asset_code = row.1.code;
  available_balance = row.0.available_balance;
  locked_balance = row.0.locked_balance;
  total_balance = add row.0.available_balance row.0.locked_balance;
}

-- `order_by_code` is the database's ORDER BY code.
unfoldable pub list_wallet_balances :
    (List (Wallet × Asset) → List (Wallet × Asset)) → User → Route WalletBalancesResponse
unfolding wallet_rows
list_wallet_balances order_by_code current_user db = (
  respond 200 (record {
    balances =
        map balance_response (order_by_code (wallet_rows current_user.id db.assets db.wallets));
  }),
  db,
)

-- ===== src/Api/Repeats.antt =====
-- POST requests made again: app/api/routes/orders.py and app/api/routes/wallets.py.
use crypto_ledger_sandbox.Prelude.{
  Bool, true, ◌&&◌, String, ◌≡◌, refl, ap, ◌∙◌, ◌⊎◌, inl, inr, Bool-cases, str_eq, some, ℕ, arith,
}
use crypto_ledger_sandbox.Decimal.{Decimal}
use crypto_ledger_sandbox.Models.{User}
use crypto_ledger_sandbox.Db.{Db, Platform, Error, Result, ok, err}
use crypto_ledger_sandbox.Orders.{OrderReservationResult, OrderDraws, create_order_reservation}
use crypto_ledger_sandbox.Orders.Replay.{create_order_reservation_idempotent}
use crypto_ledger_sandbox.Ledger.{FundingResult, FundingDraws, post_sandbox_funding}
use crypto_ledger_sandbox.Ledger.Replay.{post_sandbox_funding_idempotent}
use crypto_ledger_sandbox.Api.Answers.{Answer, respond, http_exception, unhandled}
use crypto_ledger_sandbox.Api.Schemas.{
  is_amount, OrderCreateRequest, OrderResponse, is_order_create_request, FundingRequest,
  FundingResponse, is_funding_request, is_asset_code,
}
use crypto_ledger_sandbox.Api.OrderRoutes.{
  order_call, create_order, create_order_error, created_answer,
}
use crypto_ledger_sandbox.Api.WalletRoutes.{
  funding_call, fund_sandbox_wallet, funding_error, funded_answer,
}

-- A documented property of NUMERIC(38, 18): what the fields of a request admit is stored as it is.
pub record HoldsRequests (platform : Platform) : Type 0 where
  pub exact : (a : Decimal) → is_amount a ≡ true → platform.store_numeric a ≡ some a

-- What a service call that a route makes comes to.
pub Result-cases :
    {A : Type 0} (r : Result A) → ((a : A) × (r ≡ ok a)) ⊎ ((e : Error) × (r ≡ err e))
Result-cases (ok a) = inl (a, refl)
Result-cases (err e) = inr (e, refl)

pub create_order_error-raises :
    (e : Error) (status : ℕ) (body : OrderResponse) → create_order_error e ≡ respond status body → ⊥
create_order_error-raises e status body h = ground arith

pub funding_error-raises :
    (e : Error) (status : ℕ) (body : FundingResponse) → funding_error e ≡ respond status body → ⊥
funding_error-raises e status body h = ground arith

pub answered :
    {A : Type 0} {a b : Answer A} {d e : Db}
    → ◌≡◌ {A = Answer A × Db} (a, d) (b, e)
    → (a ≡ b) × (d ≡ e)
answered h = (ap (λ p. p.0) h, ap (λ p. p.1) h)

module _ (platform : Platform) (draws : OrderDraws) (payload : OrderCreateRequest) (key : String)
    (current_user : User) (db db' : Db) where
  -- A response comes from a call that succeeds.
  pub create_order-responds :
      (status : ℕ) (body : OrderResponse)
      → create_order platform draws payload key current_user db ≡ (respond status body, db')
      → (r : OrderReservationResult) × (create_order_reservation platform draws
            (order_call current_user payload key)
            db
          ≡ ok (r, db'))
        × (created_answer (ok r) ≡ respond status body)
  unfolding create_order
  create_order-responds status body h =
      elim (Result-cases
        (create_order_reservation platform draws (order_call current_user payload key) db)) [
          | inl ((r, d), e) ↦
              let (same_answer, same_db) = answered (rw e at h) in
              (r, e ∙ ap (λ d. ok (r, d)) same_db, same_answer)
          | inr (x, e) ↦ absurd (create_order_error-raises x status body (answered (rw e at h)).0)
        ]

response-replayed :
    (r : OrderReservationResult) (status : ℕ) (body : OrderResponse)
    → created_answer (ok r) ≡ respond status body
    → created_answer (ok (record r { replayed = true }))
      ≡ respond 200 (record body { replayed = true })
response-replayed r status body h =
    ap (λ (b : OrderResponse). respond 200 (record b { replayed = true })) (same_body h)
  where
    body_of : Answer OrderResponse → OrderResponse
    body_of (respond s b) = b
    body_of (http_exception s d) = body
    body_of (unhandled e) = body

    same_body : {a b : Answer OrderResponse} → a ≡ b → body_of a ≡ body_of b
    same_body p = ap body_of p

order_amounts :
    (payload : OrderCreateRequest)
    → is_order_create_request payload ≡ true
    → (is_amount payload.price ≡ true) × (is_amount payload.quantity ≡ true)
unfolding is_order_create_request
order_amounts payload h =
    four (is_asset_code payload.base_asset_code) (is_asset_code payload.quote_asset_code)
      (is_amount payload.price) (is_amount payload.quantity) h
  where
    four : (a b c d : Bool) → (a && b && c && d) ≡ true → (c ≡ true) × (d ≡ true)
    four a b c d k = ground arith

module _ (platform : Platform) (columns : HoldsRequests platform) (draws draws' : OrderDraws)
    (payload : OrderCreateRequest) (key : String) (current_user : User) (db db' : Db) where
  -- If the columns hold the amounts that a request admits exactly, and the route `create_order`
  -- has answered a valid request with a response, then the same request with the same key,
  -- whatever it draws, is answered 200 with the same body marked as a replay, and changes
  -- nothing.
  pub create_order_idempotent :
      (status : ℕ) (body : OrderResponse)
      → is_order_create_request payload ≡ true
      → create_order platform draws payload key current_user db ≡ (respond status body, db')
      → create_order platform draws' payload key current_user db'
        ≡ (respond 200 (record body { replayed = true }), db')
  unfolding create_order
  create_order_idempotent status body valid h =
      let (r, success, answer) =
        create_order-responds platform draws payload key current_user db db' status body h in
      let (price, quantity) = order_amounts payload valid in
      let again =
        create_order_reservation_idempotent platform draws draws'
          (order_call current_user payload key) db db' r (columns.exact payload.price price)
          (columns.exact payload.quantity quantity) success in
      rw again (ap (λ a. (a, db')) (response-replayed r status body answer))

module _ (platform : Platform) (environment : String) (draws : FundingDraws)
    (payload : FundingRequest) (key : String) (current_user : User) (db db' : Db) where
  -- A response comes from a call that succeeds, in development.
  pub fund_sandbox_wallet-responds :
      (status : ℕ) (body : FundingResponse)
      → fund_sandbox_wallet platform environment draws payload key current_user db
        ≡ (respond status body, db')
      → (r : FundingResult) × (str_eq environment "development" ≡ true)
        × (post_sandbox_funding platform draws (funding_call current_user payload key) db
            ≡ ok (r, db'))
        × (funded_answer payload (ok r) ≡ respond status body)
  unfolding fund_sandbox_wallet
  fund_sandbox_wallet-responds status body h =
      elim (Bool-cases (str_eq environment "development")) [
        | inr other ↦ absurd (refused (answered (rw other at h)).0)
        | inl development ↦
            elim (Result-cases
              (post_sandbox_funding platform draws (funding_call current_user payload key) db)) [
                | inl ((r, d), e) ↦
                    let (same_answer, same_db) = answered (rw (development, e) at h) in
                    (r, development, e ∙ ap (λ d. ok (r, d)) same_db, same_answer)
                | inr (x, e) ↦
                    absurd
                      (funding_error-raises x status body (answered (rw (development, e) at h)).0)
              ]
      ]
    where
      refused :
          {detail : String} {c : ℕ}
          → ◌≡◌ {A = Answer FundingResponse} (http_exception c detail) (respond status body)
          → ⊥
      refused q = cc

funding_replayed :
    (payload : FundingRequest) (r : FundingResult) (status : ℕ) (body : FundingResponse)
    → funded_answer payload (ok r) ≡ respond status body
    → funded_answer payload (ok (record r { replayed = true }))
      ≡ respond 200 (record body { replayed = true })
funding_replayed payload r status body h =
    ap (λ (b : FundingResponse). respond 200 (record b { replayed = true })) (ap body_of h)
  where
    body_of : Answer FundingResponse → FundingResponse
    body_of (respond s b) = b
    body_of (http_exception s d) = body
    body_of (unhandled e) = body

module _ (platform : Platform) (columns : HoldsRequests platform) (environment : String)
    (draws draws' : FundingDraws) (payload : FundingRequest) (key : String) (current_user : User)
    (db db' : Db) where
  funding_amount : is_funding_request payload ≡ true → is_amount payload.amount ≡ true
  unfolding is_funding_request
  funding_amount h = second (is_asset_code payload.asset_code) (is_amount payload.amount) h
    where
      second : (a b : Bool) → (a && b) ≡ true → b ≡ true
      second a b k = ground arith

  -- If the columns hold the amounts that a request admits exactly, and the route
  -- `fund_sandbox_wallet` has answered a valid request with a response, then the same request
  -- with the same key, whatever it draws, is answered 200 with the same body marked as a replay,
  -- and changes nothing.
  pub fund_sandbox_wallet_idempotent :
      (status : ℕ) (body : FundingResponse)
      → is_funding_request payload ≡ true
      → fund_sandbox_wallet platform environment draws payload key current_user db
        ≡ (respond status body, db')
      → fund_sandbox_wallet platform environment draws' payload key current_user db'
        ≡ (respond 200 (record body { replayed = true }), db')
  unfolding fund_sandbox_wallet
  fund_sandbox_wallet_idempotent status body valid h =
      let (r, development, success, answer) =
        fund_sandbox_wallet-responds platform environment draws payload key current_user db db'
          status body h in
      let again =
        post_sandbox_funding_idempotent platform draws draws'
          (funding_call current_user payload key) db db' r
          (columns.exact payload.amount (funding_amount valid)) success in
      rw (development, again) (ap (λ a. (a, db')) (funding_replayed payload r status body answer))

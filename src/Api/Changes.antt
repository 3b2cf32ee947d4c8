-- ===== src/Api/Changes.antt =====
-- Which answers of the routes go with a change of the tables.
use crypto_ledger_sandbox.Prelude.{
  false, String, ◌≡◌, refl, ap, ◌∙◌, ◌⊎◌, inl, inr, Bool-cases, str_eq, if◌then◌else◌, some, ◌==◌,
  find?, find?-test, eq_iff, arith,
}
use crypto_ledger_sandbox.Models.{Uuid, User, Asset, Order, canceled}
use crypto_ledger_sandbox.Db.{Db, Platform}
use crypto_ledger_sandbox.Orders.{
  OrderReservationResult, OrderDraws, Reservation, CancelDraws, OrderCancellationResult,
  is_own_order, cancel_row, create_order_reservation, cancel_order_reservation,
}
use crypto_ledger_sandbox.Orders.Outcomes.{create_order_reservation-outcome}
use crypto_ledger_sandbox.Orders.CancelOutcomes.{cancel_order_reservation-outcome}
use crypto_ledger_sandbox.Orders.Placed.{place_order-placed}
use crypto_ledger_sandbox.Orders.Released.{release_funds-released}
use crypto_ledger_sandbox.Ledger.{Funding, FundingResult, FundingDraws, post_sandbox_funding}
use crypto_ledger_sandbox.Ledger.Outcomes.{post_sandbox_funding-outcome}
use crypto_ledger_sandbox.Ledger.Posted.{post_transfer-transferred}
use crypto_ledger_sandbox.Api.Answers.{respond}
use crypto_ledger_sandbox.Api.Schemas.{
  OrderCreateRequest, OrderResponse, FundingRequest, FundingResponse,
}
use crypto_ledger_sandbox.Api.OrderRoutes.{
  order_call, create_order, cancel_order, build_order_response,
}
use crypto_ledger_sandbox.Api.WalletRoutes.{funding_call, fund_sandbox_wallet}
use crypto_ledger_sandbox.Api.Repeats.{Result-cases}

module _ (platform : Platform) (draws : OrderDraws) (payload : OrderCreateRequest) (key : String)
    (current_user : User) (db : Db) where
  -- The route `create_order` either leaves the database as it was, or answers 201 with the new
  -- order's identifier and not as a replay: every error of it changes nothing.
  pub create_order-changes :
      ((create_order platform draws payload key current_user db).1 ≡ db)
      ⊎ ((body : OrderResponse) × ((create_order platform draws payload key current_user db).0
            ≡ respond 201 body)
          × (body.id ≡ draws.order_id)
          × (body.replayed ≡ false))
  unfolding create_order
  create_order-changes =
      elim (Result-cases
        (create_order_reservation platform draws (order_call current_user payload key) db)) [
          | inr (e, h) ↦ rw h (inl refl)
          | inl ((r, d), h) ↦
              let (x, admitted, outcome) =
                create_order_reservation-outcome platform draws
                  (order_call current_user payload key) db d r h in
              elim outcome [
                | inl (_, same) ↦ rw h (inl same)
                | inr (wallet, _, k) ↦
                    let (v, _, _, _, answer) = place_order-placed platform x wallet db d r k in
                    let fresh : r.replayed ≡ false =
                      ap (λ (s : OrderReservationResult). s.replayed) answer in
                    rw h (
                      inr (
                        build_order_response r.order r.base_asset r.quote_asset r.reserve_asset
                            r.replayed,
                        ap
                            (λ b. respond (if b then 200 else 201) (
                              build_order_response r.order r.base_asset r.quote_asset
                                r.reserve_asset r.replayed))
                            fresh,
                        ap (λ (s : OrderReservationResult). s.order.id) answer
                            ∙ ap (λ (y : Reservation). y.draws.order_id) admitted.shape,
                        fresh,
                      ))
              ]
        ]

own_id :
    (user_id order_id : Uuid) (db : Db) (o : Order)
    → find? (is_own_order user_id order_id) db.orders ≡ some o
    → o.id ≡ order_id
own_id user_id order_id db o h =
    let test = find?-test (is_own_order user_id order_id) db.orders h in ground arith

module _ (platform : Platform) (draws : CancelDraws) (order_id : Uuid) (current_user : User)
    (db : Db)
    (assets_there : (o : Order)
      → find? (is_own_order current_user.id order_id) db.orders ≡ some o
      → (base_asset quote_asset : Asset) × (find? (λ a. a.id == o.base_asset_id) db.assets
          ≡ some base_asset)
        × (find? (λ a. a.id == o.quote_asset_id) db.assets ≡ some quote_asset)) where
  -- If the assets of the caller's order are stored, the route `cancel_order` either leaves the
  -- database as it was, or answers 200 with the order's identifier, as canceled and not as a
  -- replay: every error of it changes nothing.
  pub cancel_order-changes :
      ((cancel_order platform draws order_id current_user db).1 ≡ db)
      ⊎ ((body : OrderResponse) × ((cancel_order platform draws order_id current_user db).0
            ≡ respond 200 body)
          × (body.id ≡ order_id)
          × (body.status ≡ canceled)
          × (body.replayed ≡ false))
  unfolding cancel_order
  cancel_order-changes =
      elim (Result-cases (cancel_order_reservation platform draws current_user.id order_id db)) [
        | inr (e, h) ↦ rw h (inl refl)
        | inl ((r, d), h) ↦
            let (x, here, _, outcome) =
              cancel_order_reservation-outcome platform draws current_user.id order_id db d r h in
            elim outcome [
              | inl (_, same, _) ↦ rw h (inl same)
              | inr (wallet, _, k) ↦
                  let (v, _, state, answer) = release_funds-released platform x wallet db d r k in
                  let (base_asset, quote_asset, base, quote) = assets_there x.order here.order in
                  let own : r.order ≡ cancel_row x.order =
                    ap (λ (s : OrderCancellationResult). s.order) answer in
                  let base' : find? (λ a. a.id == r.order.base_asset_id) d.assets
                      ≡ some base_asset =
                    ap (λ (o : Order). find? (λ a. a.id == o.base_asset_id) d.assets) own
                    ∙ ap (λ (e : Db). find? (λ a. a.id == x.order.base_asset_id) e.assets) state
                    ∙ base in
                  let quote' : find? (λ a. a.id == r.order.quote_asset_id) d.assets
                      ≡ some quote_asset =
                    ap (λ (o : Order). find? (λ a. a.id == o.quote_asset_id) d.assets) own
                    ∙ ap (λ (e : Db). find? (λ a. a.id == x.order.quote_asset_id) e.assets) state
                    ∙ quote in
                  rw (h, base', quote')
                    (inr (
                      build_order_response r.order base_asset quote_asset r.reserve_asset
                          r.replayed,
                      refl,
                      ap (λ (o : Order). o.id) own
                          ∙ own_id current_user.id order_id db x.order here.order,
                      ap (λ (o : Order). o.status) own,
                      ap (λ (s : OrderCancellationResult). s.replayed) answer,
                    ))
            ]
      ]

module _ (platform : Platform) (environment : String) (draws : FundingDraws)
    (payload : FundingRequest) (key : String) (current_user : User) (db : Db) where
  -- The route `fund_sandbox_wallet` either leaves the database as it was, or answers 201 with
  -- the new transaction's identifier and not as a replay, which happens in development only:
  -- every error of it changes nothing.
  pub fund_sandbox_wallet-changes :
      ((fund_sandbox_wallet platform environment draws payload key current_user db).1 ≡ db)
      ⊎ ((body : FundingResponse) × ((fund_sandbox_wallet platform environment draws payload key
              current_user db).0
            ≡ respond 201 body)
          × (environment ≡ "development")
          × (body.transaction_id ≡ draws.transaction_id)
          × (body.replayed ≡ false))
  unfolding fund_sandbox_wallet
  fund_sandbox_wallet-changes = elim (Bool-cases (str_eq environment "development")) [
    | inr other ↦ rw other (inl refl)
    | inl development ↦
        elim (Result-cases
          (post_sandbox_funding platform draws (funding_call current_user payload key) db)) [
            | inr (e, h) ↦ rw (development, h) (inl refl)
            | inl ((r, d), h) ↦
                let (x, shape, _, _, outcome) =
                  post_sandbox_funding-outcome platform draws
                    (funding_call current_user payload key) db d r h in
                elim outcome [
                  | inl (_, same) ↦ rw (development, h) (inl same)
                  | inr (treasury_wallet, user_wallet, db₁, _, k) ↦
                      let (v, _, _, answer) =
                        post_transfer-transferred platform x treasury_wallet user_wallet db₁ d r
                          k in
                      let fresh : r.replayed ≡ false =
                        ap (λ (s : FundingResult). s.replayed) answer in
                      rw (development, h)
                        (inr (
                          record {
                            transaction_id = r.transaction.id;
                            reference = r.transaction.reference;
                            asset_code = r.asset.code;
                            amount = payload.amount;
                            replayed = r.replayed;
                          },
                          ap
                              (λ b. respond (if b then 200 else 201) (record {
                                transaction_id = r.transaction.id;
                                reference = r.transaction.reference;
                                asset_code = r.asset.code;
                                amount = payload.amount;
                                replayed = r.replayed;
                              }))
                              fresh,
                          (eq_iff environment "development").0 development,
                          ap (λ (s : FundingResult). s.transaction.id) answer
                              ∙ ap (λ (y : Funding). y.draws.transaction_id) shape,
                          fresh,
                        ))
                ]
          ]
  ]

-- ===== src/History/Assets.antt =====
-- The assets along a history.
use crypto_ledger_sandbox.Prelude.{Option, none, some, ◌≡◌, refl, sym, ap, ◌∙◌, inl, inr, find?}
use crypto_ledger_sandbox.Models.{Uuid, Wallet}
use crypto_ledger_sandbox.Db.{Db, Platform, ok, insert_wallet}
use crypto_ledger_sandbox.Db.Laws.{ok-state, >>=-ok, insert_wallet-ok}
use crypto_ledger_sandbox.Ledger.{
  Funding, FundingCall, FundingDraws, FundingResult, is_user_wallet, opened_wallet,
  wallet_or_opened, post_sandbox_funding,
}
use crypto_ledger_sandbox.Ledger.Outcomes.{post_sandbox_funding-outcome}
use crypto_ledger_sandbox.Ledger.Posted.{post_transfer-transferred}
use crypto_ledger_sandbox.Orders.{
  OrderCall, OrderDraws, OrderReservationResult, CancelDraws, OrderCancellationResult,
  create_order_reservation, cancel_order_reservation,
}
use crypto_ledger_sandbox.Orders.Outcomes.{create_order_reservation-outcome}
use crypto_ledger_sandbox.Orders.Placed.{place_order-placed}
use crypto_ledger_sandbox.Orders.CancelOutcomes.{cancel_order_reservation-outcome}
use crypto_ledger_sandbox.Orders.Released.{release_funds-released}
use crypto_ledger_sandbox.Api.Security.{Library}
use crypto_ledger_sandbox.History.{Step}
use crypto_ledger_sandbox.History.Calls.{Step-holds}

-- The rows that opening a wallet leaves alone.
pub opened_assets :
    (platform : Platform) (x : Funding) (db : Db) (o : Option Wallet) (w : Wallet) (db₁ : Db)
    → wallet_or_opened platform x o db ≡ ok (w, db₁)
    → (db₁.assets ≡ db.assets) × (db₁.transactions ≡ db.transactions)
unfolding wallet_or_opened
opened_assets platform x db (some v) w db₁ h = (
  ap (λ (d : Db). d.assets) (sym (ok-state h)),
  ap (λ (d : Db). d.transactions) (sym (ok-state h)),
)
opened_assets platform x db none w db₁ h =
    let (_, d, h₁, h₂) = >>=-ok (insert_wallet platform (opened_wallet x)) _ db h in
    let (_, _, _, _, _, state) = insert_wallet-ok platform (opened_wallet x) db h₁ in
    let same = sym (ok-state h₂) ∙ state in
    (ap (λ (d : Db). d.assets) same, ap (λ (d : Db). d.transactions) same)

module _ (platform : Platform) (db db' : Db) where
  funded_assets :
      (draws : FundingDraws) (call : FundingCall) (r : FundingResult)
      → post_sandbox_funding platform draws call db ≡ ok (r, db')
      → db'.assets ≡ db.assets
  funded_assets draws call r h =
      let (x, _, _, _, outcome) = post_sandbox_funding-outcome platform draws call db db' r h in
      elim outcome [
        | inl (_, same) ↦ ap (λ (d : Db). d.assets) same
        | inr (treasury_wallet, user_wallet, db₁, paid, k) ↦
            let (_, _, state, _) =
              post_transfer-transferred platform x treasury_wallet user_wallet db₁ db' r k in
            ap (λ (d : Db). d.assets) state
            ∙ (opened_assets platform x db
                (find? (is_user_wallet x.call.user_id x.asset.id) db.wallets) user_wallet db₁
                paid.wallet).0
      ]

  reserved_assets :
      (draws : OrderDraws) (call : OrderCall) (r : OrderReservationResult)
      → create_order_reservation platform draws call db ≡ ok (r, db')
      → db'.assets ≡ db.assets
  reserved_assets draws call r h =
      let (x, _, outcome) = create_order_reservation-outcome platform draws call db db' r h in
      elim outcome [
        | inl (_, same) ↦ ap (λ (d : Db). d.assets) same
        | inr (wallet, _, k) ↦
            let (_, _, _, state, _) = place_order-placed platform x wallet db db' r k in
            ap (λ (d : Db). d.assets) state
      ]

  canceled_assets :
      (draws : CancelDraws) (user_id order_id : Uuid) (r : OrderCancellationResult)
      → cancel_order_reservation platform draws user_id order_id db ≡ ok (r, db')
      → db'.assets ≡ db.assets
  canceled_assets draws user_id order_id r h =
      let (x, _, _, outcome) =
        cancel_order_reservation-outcome platform draws user_id order_id db db' r h in
      elim outcome [
        | inl (_, same, _) ↦ ap (λ (d : Db). d.assets) same
        | inr (wallet, _, k) ↦
            let (_, _, state, _) = release_funds-released platform x wallet db db' r k in
            ap (λ (d : Db). d.assets) state
      ]

-- A call leaves the assets as they are.
pub Step-assets :
    {platform : Platform} {library : Library} {db db' : Db}
    → Step platform library db db'
    → db'.assets ≡ db.assets
Step-assets {platform} {library} {db} =
    Step-holds platform library (λ d. d.assets ≡ db.assets) db (λ _ _. refl)
      (λ draws call r d. funded_assets platform db d draws call r)
      (λ draws call r d. reserved_assets platform db d draws call r)
      (λ draws user_id order_id r d. canceled_assets platform db d draws user_id order_id r)

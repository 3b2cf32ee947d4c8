-- ===== src/Orders/CancelOutcomes.antt =====
-- The two ways in which `cancel_order_reservation` succeeds.
use crypto_ledger_sandbox.Prelude.{
  Bool-cases, true, false, not, Option, none, some, ◌≡◌, refl, sym, ◌⊎◌, inl, inr, ltb_ℤ, ◌==◌,
  find?, arith,
}
use crypto_ledger_sandbox.Models.{Uuid, Wallet, status_eq, canceled, opened}
use crypto_ledger_sandbox.Db.{
  Db, Platform, Session, ok, ◌>>=◌, order_not_found, order_reservation_state, order_not_cancelable,
}
use crypto_ledger_sandbox.Db.Laws.{or_raise-bind, raise_if-bind, ok-state, ok-value}
use crypto_ledger_sandbox.Ledger.{is_user_wallet}
use crypto_ledger_sandbox.Orders.{
  OrderCancellationResult, CancelDraws, Release, is_own_order, reserve_asset_id, holding,
  cancel_open, release_funds, cancel_order_reservation, cancellation_result,
}

-- The caller's order and the asset that it holds.
pub record IsFound (user_id order_id : Uuid) (db : Db) (x : Release) : Type 0 where
  pub order : find? (is_own_order user_id order_id) db.orders ≡ some x.order
  pub asset : find? (λ a. a.id == reserve_asset_id x.order) db.assets ≡ some x.reserve_asset

-- The order is open, and the wallet holds what it has reserved.
pub record IsReleasing (user_id : Uuid) (db : Db) (x : Release) (wallet : Wallet) : Type 0 where
  pub opened : x.order.status ≡ opened
  pub wallet_found : find? (is_user_wallet user_id x.reserve_asset.id) db.wallets ≡ some wallet
  pub held : ltb_ℤ wallet.locked_balance x.order.reserved_amount ≡ false

module _ (platform : Platform) (x : Release) (db db' : Db) (r : OrderCancellationResult) where
  holding-bind :
      (found : Option Wallet) (f : Wallet → Session OrderCancellationResult)
      → (holding x found >>= f) db ≡ ok (r, db')
      → (wallet : Wallet) × (found ≡ some wallet)
        × (ltb_ℤ wallet.locked_balance x.order.reserved_amount ≡ false)
        × (f wallet db ≡ ok (r, db'))
  holding-bind none f h = cc
  holding-bind (some wallet) f h =
      elim (Bool-cases (ltb_ℤ wallet.locked_balance x.order.reserved_amount)) [
        | inl short ↦ absurd (ground arith)
        | inr enough ↦ (wallet, refl, enough, ground arith)
      ]

  release-outcome :
      (user_id : Uuid)
      → x.order.status ≡ opened
      → (do
        found ← λ (d : Db). ok (find? (is_user_wallet user_id x.reserve_asset.id) d.wallets, d)
        wallet ← holding x found
        release_funds platform x wallet)
          db
        ≡ ok (r, db')
      → (wallet : Wallet) × IsReleasing user_id db x wallet
        × (release_funds platform x wallet db ≡ ok (r, db'))
  release-outcome user_id is_open h =
      let (wallet, found, enough, k) =
        holding-bind (find? (is_user_wallet user_id x.reserve_asset.id) db.wallets)
          (release_funds platform x) h in
      (wallet, record { opened = is_open; wallet_found = found; held = enough }, k)

  cancel_open-outcome :
      (user_id : Uuid)
      → cancel_open platform x user_id db ≡ ok (r, db')
      → ((x.order.status ≡ canceled) × (db' ≡ db) × (r ≡ cancellation_result x x.order true))
        ⊎ ((wallet : Wallet) × IsReleasing user_id db x wallet
            × (release_funds platform x wallet db ≡ ok (r, db')))
  unfolding cancel_open
  cancel_open-outcome user_id h = elim (Bool-cases (status_eq x.order.status canceled)) [
    | inl done ↦ inl (ground arith, sym (ok-state (rw done at h)), sym (ok-value (rw done at h)))
    | inr alive ↦
        let (passed, k) =
          raise_if-bind (not (status_eq x.order.status opened)) order_not_cancelable _ db
            (rw alive at h) in
        inr (release-outcome user_id (ground arith) k)
  ]

-- If `cancel_order_reservation` succeeds, the caller's order and its reserved asset are found,
-- and either the order is canceled, it is answered as a replay and nothing changes, or it is
-- open, the locked balance of the user's wallet covers what it has reserved, and the funds are
-- released.
pub cancel_order_reservation-outcome :
    (platform : Platform) (draws : CancelDraws) (user_id order_id : Uuid) (db db' : Db)
    (r : OrderCancellationResult)
    → cancel_order_reservation platform draws user_id order_id db ≡ ok (r, db')
    → (x : Release) × IsFound user_id order_id db x
      × (x.draws ≡ draws)
      × (((x.order.status ≡ canceled) × (db' ≡ db) × (r ≡ cancellation_result x x.order true))
          ⊎ ((wallet : Wallet) × IsReleasing user_id db x wallet
              × (release_funds platform x wallet db ≡ ok (r, db'))))
unfolding cancel_order_reservation
cancel_order_reservation-outcome platform draws user_id order_id db db' r h =
    let (order, o, h₁) =
      or_raise-bind (find? (is_own_order user_id order_id) db.orders) order_not_found _ db h in
    let (asset, a, h₂) =
      or_raise-bind (find? (λ a. a.id == reserve_asset_id order) db.assets) order_reservation_state
        _ db h₁ in
    let x : Release = record { draws = draws; order = order; reserve_asset = asset } in
    (x, record { order = o; asset = a }, refl, cancel_open-outcome platform x db db' r user_id h₂)

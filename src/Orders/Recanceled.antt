-- ===== src/Orders/Recanceled.antt =====
-- A cancellation made again.
use crypto_ledger_sandbox.Prelude.{
  true, some, ◌==◌, ==_refl, ◌≡◌, refl, sym, ap, ◌∙◌, inl, inr, ◌⊎◌, find?, find?-update, update,
}
use crypto_ledger_sandbox.Models.{Uuid, Asset, Wallet, Order, canceled}
use crypto_ledger_sandbox.Db.{Db, Platform, ok}
use crypto_ledger_sandbox.Orders.{
  OrderCancellationResult, CancelDraws, Release, is_own_order, reserve_asset_id, cancel_row,
  cancel_open, cancellation_result, release_funds, cancel_order_reservation,
}
use crypto_ledger_sandbox.Orders.CancelOutcomes.{
  IsFound, IsReleasing, cancel_order_reservation-outcome,
}
use crypto_ledger_sandbox.Orders.Released.{release_funds-released}

module _ (platform : Platform) (draws : CancelDraws) (user_id order_id : Uuid) (db : Db) where
  -- A canceled order is answered as it is.
  pub canceled-answer :
      (o : Order) (a : Asset)
      → find? (is_own_order user_id order_id) db.orders ≡ some o
      → find? (λ a. a.id == reserve_asset_id o) db.assets ≡ some a
      → o.status ≡ canceled
      → cancel_order_reservation platform draws user_id order_id db
        ≡ ok (record { order = o; reserve_asset = a; replayed = true }, db)
  unfolding cancel_order_reservation cancel_open
  canceled-answer o a found asset done = rw (found, asset, done) refl

module _ (platform : Platform) (draws draws' : CancelDraws) (user_id order_id : Uuid) (db db' : Db)
    (r : OrderCancellationResult) where
  row_after :
      (x : Release)
      → find? (is_own_order user_id order_id) db.orders ≡ some x.order
      → find? (is_own_order user_id order_id) (update (λ o. o.id) x.order.id cancel_row db.orders)
        ≡ some (cancel_row x.order)
  row_after x found =
      find?-update (is_own_order user_id order_id) (λ o. o.id) x.order.id cancel_row db.orders
        (λ o. refl)
      ∙ rw (found, ==_refl x.order.id) refl

  again :
      (x : Release)
      → IsFound user_id order_id db x
      → (((x.order.status ≡ canceled) × (db' ≡ db) × (r ≡ cancellation_result x x.order true))
          ⊎ ((wallet : Wallet) × IsReleasing user_id db x wallet
              × (release_funds platform x wallet db ≡ ok (r, db'))))
      → cancel_order_reservation platform draws' user_id order_id db'
        ≡ ok (record r { replayed = true }, db')
  again x here (inl (done, same, answer)) =
      rw (same, answer)
        (canceled-answer platform draws' user_id order_id db x.order x.reserve_asset here.order
          here.asset done)
  again x here (inr (wallet, ready, h)) =
      let (v, _, state, answer) = release_funds-released platform x wallet db db' r h in
      let orders =
        ap (λ (d : Db). find? (is_own_order user_id order_id) d.orders) state
        ∙ row_after x here.order in
      let assets =
        ap (λ (d : Db). find? (λ a. a.id == reserve_asset_id (cancel_row x.order)) d.assets) state
        ∙ here.asset in
      canceled-answer platform draws' user_id order_id db' (cancel_row x.order) x.reserve_asset
        orders assets refl
      ∙ ap (λ (s : OrderCancellationResult). ok (record s { replayed = true }, db')) (sym answer)

  -- If `cancel_order_reservation` has succeeded, the same cancellation made on the database it
  -- left, with any draws, succeeds with the same answer marked as a replay and changes nothing:
  -- the funds are released once.
  pub cancel_order_reservation_idempotent :
      cancel_order_reservation platform draws user_id order_id db ≡ ok (r, db')
      → cancel_order_reservation platform draws' user_id order_id db'
        ≡ ok (record r { replayed = true }, db')
  cancel_order_reservation_idempotent h =
      let (x, here, _, outcome) =
        cancel_order_reservation-outcome platform draws user_id order_id db db' r h in
      again x here outcome

-- ===== src/Accounts/Backing.antt =====
-- The reservations of app/services/orders.py, and what the open orders hold.
use crypto_ledger_sandbox.Prelude.{
  Bool-cases, true, false, ◌≡◌, refl, sym, ap, subst, ◌∙◌, inl, inr, ◌⊎◌, pos, ◌+ℤ◌, int_laws,
  if◌then◌else◌, find?, total,
}
use crypto_ledger_sandbox.Decimal.{IsMoney}
use crypto_ledger_sandbox.Models.{Uuid, Wallet, OrderSide, buy, sell, locked, side_eq, Asset}
use crypto_ledger_sandbox.Db.{Db, Platform, ok}
use crypto_ledger_sandbox.Ledger.{is_user_wallet}
use crypto_ledger_sandbox.Orders.{
  Reservation, OrderCall, OrderDraws, OrderReservationResult, amount_of, reserve_asset_of,
  reserve_asset_id, create_order_reservation,
}
use crypto_ledger_sandbox.Orders.Placed.{
  Stored, IsStored, IsNew, placed_order, placed, place_order-placed,
}
use crypto_ledger_sandbox.Orders.Outcomes.{IsPlacing, IsAdmitted, create_order_reservation-outcome}
use crypto_ledger_sandbox.Accounts.{held_by, value_or_zero, ExactColumns, IsSound, IsBacked}
use crypto_ledger_sandbox.Accounts.Backed.{is_owner, locked-update, owner_found, held_at}
use crypto_ledger_sandbox.Accounts.Reserving.{money, placed_values}

reserve_asset_of-id :
    (side : OrderSide) (base_asset quote_asset : Asset)
    → (reserve_asset_of side base_asset quote_asset).id
      ≡ (if side_eq side buy then quote_asset.id else base_asset.id)
reserve_asset_of-id buy base_asset quote_asset = refl
reserve_asset_of-id sell base_asset quote_asset = refl

-- The asset that the service reserves is the one that the order holds.
reserved_asset :
    (draws : OrderDraws) (call : OrderCall) (db : Db) (x : Reservation) (v : Stored)
    → IsAdmitted draws call db x
    → x.reserve_asset.id ≡ reserve_asset_id (placed_order x v)
reserved_asset draws call db x v a =
    subst (λ (y : Reservation). y.reserve_asset.id ≡ reserve_asset_id (placed_order y v))
      (sym a.shape) (reserve_asset_of-id call.side x.base_asset x.quote_asset)

module _ (platform : Platform) (columns : ExactColumns platform) (draws : OrderDraws)
    (call : OrderCall) (db : Db) (sound : IsSound db) (backed : IsBacked db) (x : Reservation)
    (admitted : IsAdmitted draws call db x) (r_money : IsMoney x.reserved_amount) (wallet : Wallet)
    (ready : IsPlacing platform db x wallet) (v : Stored) (stored : IsStored platform x wallet v)
    (fresh : IsNew platform x wallet v db) where
  placed-cases :
      (u a : Uuid)
      → (is_owner x.call.user_id x.reserve_asset.id u a ≡ true)
        ⊎ (is_owner x.call.user_id x.reserve_asset.id u a ≡ false)
      → (if is_owner x.call.user_id x.reserve_asset.id u a
          then v.locked_balance
          else value_or_zero locked (find? (is_user_wallet u a) db.wallets))
        ≡ (if is_owner x.call.user_id x.reserve_asset.id u a then v.amount else pos 0)
          +ℤ total (held_by u a) db.orders
  placed-cases u a (inl owner) =
      let (_, l, m) =
        placed_values platform columns x r_money wallet v
          (money platform columns x r_money db sound wallet ready v stored fresh) ready.covered
          stored in
      let before : wallet.locked_balance ≡ total (held_by u a) db.orders =
        subst (λ o. value_or_zero locked o ≡ total (held_by u a) db.orders)
          (owner_found x.call.user_id x.reserve_asset.id db wallet v.available_balance
            v.locked_balance sound.ids ready.wallet_found u a owner)
          (backed.locked u a) in
      rw (owner, l, m, before) (omega int_laws)
  placed-cases u a (inr other) = rw (other, backed.locked u a) (omega int_laws)

  placed-locked :
      (u a : Uuid)
      → value_or_zero locked (find? (is_user_wallet u a) (placed platform x wallet v db).wallets)
        ≡ total (held_by u a) (placed platform x wallet v db).orders
  unfolding total
  placed-locked u a =
      let user_id = x.call.user_id in
      let asset_id = x.reserve_asset.id in
      locked-update user_id asset_id db wallet v.available_balance v.locked_balance sound.ids
        ready.wallet_found u a
      ∙ placed-cases u a (Bool-cases (is_owner user_id asset_id u a))
      ∙ sym (
          ap (λ t. t +ℤ total (held_by u a) db.orders)
            (held_at (placed_order x v) asset_id u a (reserved_asset draws call db x v admitted)
              refl))

-- If the columns hold money exactly, the books are sound, the reserved amount is money, and
-- every user's locked balance in an asset is the sum of what the user's open orders hold of it,
-- then this is so after a successful `create_order_reservation`.
pub create_order_reservation-IsBacked :
    (platform : Platform) (draws : OrderDraws) (call : OrderCall) (db db' : Db)
    (r : OrderReservationResult)
    → ExactColumns platform
    → IsSound db
    → IsMoney (amount_of call.side call.price call.quantity)
    → IsBacked db
    → create_order_reservation platform draws call db ≡ ok (r, db')
    → IsBacked db'
create_order_reservation-IsBacked platform draws call db db' r columns sound amount_money backed
      success =
    let (x, admitted, outcome) =
      create_order_reservation-outcome platform draws call db db' r success in
    let x_money : IsMoney x.reserved_amount =
      subst (λ (y : Reservation). IsMoney y.reserved_amount) (sym admitted.shape) amount_money in
    elim outcome [
      | inl (_, same) ↦ subst IsBacked (sym same) backed
      | inr (wallet, ready, h) ↦
          let (v, stored, fresh, state, _) = place_order-placed platform x wallet db db' r h in
          subst IsBacked (sym state) (record {
            locked =
                placed-locked platform columns draws call db sound backed x admitted x_money wallet
                  ready v stored fresh;
          })
    ]

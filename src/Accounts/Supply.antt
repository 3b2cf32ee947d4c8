-- ===== src/Accounts/Supply.antt =====
-- How much of an asset the wallets hold together.
use crypto_ledger_sandbox.Prelude.{
  Bool, some, ◌≡◌, sym, ap, subst, ◌∙◌, inl, inr, ◌==◌, if◌then◌else◌, pos, ◌+ℤ◌, ◌-ℤ◌, int_laws,
  find?, total, total-update, Unique, update,
}
use crypto_ledger_sandbox.Decimal.{Decimal, IsMoney}
use crypto_ledger_sandbox.Models.{Uuid, Wallet}
use crypto_ledger_sandbox.Db.{Db, Platform, ok}
use crypto_ledger_sandbox.Ledger.{is_user_wallet}
use crypto_ledger_sandbox.Orders.{
  Reservation, OrderCall, OrderDraws, OrderReservationResult, CancelDraws, OrderCancellationResult,
  amount_of, create_order_reservation, cancel_order_reservation,
}
use crypto_ledger_sandbox.Orders.Outcomes.{create_order_reservation-outcome}
use crypto_ledger_sandbox.Orders.Placed.{place_order-placed}
use crypto_ledger_sandbox.Orders.CancelOutcomes.{cancel_order_reservation-outcome}
use crypto_ledger_sandbox.Orders.Released.{release_funds-released}
use crypto_ledger_sandbox.Accounts.{ExactColumns, IsSound}
use crypto_ledger_sandbox.Accounts.Backed.{with_balances}
use crypto_ledger_sandbox.Accounts.Reserving.{placed_values, money}
use crypto_ledger_sandbox.Accounts.Releasing.{freed_values}

abbrev pub holding_of : Uuid → Wallet → Decimal
holding_of asset_id w =
    if w.asset_id == asset_id then w.available_balance +ℤ w.locked_balance else pos 0

-- The available and the locked balances of all wallets in the asset.
unfoldable pub supply : Uuid → Db → Decimal
supply asset_id db = total (holding_of asset_id) db.wallets

pub unmoved : (s t w : Decimal) → s +ℤ w ≡ t +ℤ w → s ≡ t
unmoved s t w h = grind (int_laws, h)

-- A change that leaves the sum of a wallet's balances.
same-supply :
    (p : Wallet → Bool) (a : Uuid) (db db' : Db) (wallet : Wallet) (y z : Decimal)
    → Unique (λ w. w.id) db.wallets
    → find? p db.wallets ≡ some wallet
    → y +ℤ z ≡ wallet.available_balance +ℤ wallet.locked_balance
    → db'.wallets ≡ update (λ w. w.id) wallet.id (with_balances y z) db.wallets
    → supply a db' ≡ supply a db
unfolding supply
same-supply p a db db' wallet y z ids found sum ws =
    let moved =
      total-update p (λ w. w.id) (holding_of a) (with_balances y z) db.wallets ids found in
    rw ws (
      unmoved _ _ (holding_of a wallet) (
        moved
        ∙ ap (λ h. total (holding_of a) db.wallets +ℤ (if wallet.asset_id == a then h else pos 0))
            sum))

reserved_sum : (a l r : Decimal) → (a -ℤ r) +ℤ (l +ℤ r) ≡ a +ℤ l
reserved_sum a l r = omega int_laws

freed_sum : (a l r : Decimal) → (a +ℤ r) +ℤ (l -ℤ r) ≡ a +ℤ l
freed_sum a l r = omega int_laws

same_sum : (y z a l p q : Decimal) → y ≡ p → z ≡ q → p +ℤ q ≡ a +ℤ l → y +ℤ z ≡ a +ℤ l
same_sum y z a l p q e f h = rw (e, f) h

-- A reservation.
pub create_order_reservation-supply :
    (platform : Platform) (draws : OrderDraws) (call : OrderCall) (db db' : Db)
    (r : OrderReservationResult) (a : Uuid)
    → ExactColumns platform
    → IsSound db
    → IsMoney (amount_of call.side call.price call.quantity)
    → create_order_reservation platform draws call db ≡ ok (r, db')
    → supply a db' ≡ supply a db
create_order_reservation-supply platform draws call db db' r a columns sound amount_money success =
    let (x, admitted, outcome) =
      create_order_reservation-outcome platform draws call db db' r success in
    let x_money : IsMoney x.reserved_amount =
      subst (λ (y : Reservation). IsMoney y.reserved_amount) (sym admitted.shape) amount_money in
    elim outcome [
      | inl (_, same) ↦ ap (supply a) same
      | inr (wallet, ready, h) ↦
          let (v, stored, fresh, state, _) = place_order-placed platform x wallet db db' r h in
          let (y, z, _) =
            placed_values platform columns x x_money wallet v
              (money platform columns x x_money db sound wallet ready v stored fresh) ready.covered
              stored in
          same-supply (is_user_wallet x.call.user_id x.reserve_asset.id) a db db' wallet
            v.available_balance v.locked_balance sound.ids ready.wallet_found
            (same_sum _ _ _ _ _ _ y z
              (reserved_sum wallet.available_balance wallet.locked_balance x.reserved_amount))
            (ap (λ (d : Db). d.wallets) state)
    ]

-- A cancellation.
pub cancel_order_reservation-supply :
    (platform : Platform) (draws : CancelDraws) (user_id order_id : Uuid) (db db' : Db)
    (r : OrderCancellationResult) (a : Uuid)
    → ExactColumns platform
    → IsSound db
    → cancel_order_reservation platform draws user_id order_id db ≡ ok (r, db')
    → supply a db' ≡ supply a db
cancel_order_reservation-supply platform draws user_id order_id db db' r a columns sound success =
    let (x, here, _, outcome) =
      cancel_order_reservation-outcome platform draws user_id order_id db db' r success in
    elim outcome [
      | inl (_, same, _) ↦ ap (supply a) same
      | inr (wallet, ready, h) ↦
          let (v, freed, state, _) = release_funds-released platform x wallet db db' r h in
          let (y, z, _) =
            freed_values platform columns user_id order_id x db sound here wallet ready v freed in
          same-supply (is_user_wallet user_id x.reserve_asset.id) a db db' wallet
            v.available_balance v.locked_balance sound.ids ready.wallet_found
            (same_sum _ _ _ _ _ _ y z
              (freed_sum wallet.available_balance wallet.locked_balance x.order.reserved_amount))
            (ap (λ (d : Db). d.wallets) state)
    ]

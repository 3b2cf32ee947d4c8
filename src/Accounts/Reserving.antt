-- ===== src/Accounts/Reserving.antt =====
-- `create_order_reservation` and the books.
use crypto_ledger_sandbox.Prelude.{
  false, ◌≡◌, refl, ==_refl, sym, ap, subst, ◌∙◌, inl, inr, ◌+ℤ◌, ◌-ℤ◌, ltb_ℤ, int_laws, All-find?,
  All-update, update-Unique,
}
use crypto_ledger_sandbox.Decimal.{Decimal, IsMoney}
use crypto_ledger_sandbox.Decimal.Exact.{add-exact, sub-exact, IsMoney-left, IsMoney-moved}
use crypto_ledger_sandbox.Models.{Uuid, Wallet, BalanceBucket, available, locked}
use crypto_ledger_sandbox.Db.{Db, Platform, ok}
use crypto_ledger_sandbox.Db.Laws.{same_value}
use crypto_ledger_sandbox.Ledger.{is_user_wallet}
use crypto_ledger_sandbox.Orders.{
  Reservation, OrderDraws, OrderCall, OrderReservationResult, amount_of, reserve_debit,
  reserve_credit, create_order_reservation,
}
use crypto_ledger_sandbox.Orders.Placed.{Stored, IsStored, IsNew, placed, place_order-placed}
use crypto_ledger_sandbox.Orders.Outcomes.{IsPlacing, create_order_reservation-outcome}
use crypto_ledger_sandbox.Accounts.{
  unexplained, bucket_value, posting, ExactColumns, IsSound, HasMoney,
}
use crypto_ledger_sandbox.Accounts.Explained.{not_short, explained-move}

moved_sum : (a l r : Decimal) → a +ℤ l ≡ (a -ℤ r) +ℤ (l +ℤ r)
moved_sum a l r = omega int_laws

module _ (platform : Platform) (columns : ExactColumns platform) (x : Reservation)
    (r_money : IsMoney x.reserved_amount) where
  -- What a placed order makes of the wallet's balances.
  pub placed_values :
      (wallet : Wallet) (v : Stored)
      → HasMoney wallet
      → ltb_ℤ wallet.available_balance x.reserved_amount ≡ false
      → IsStored platform x wallet v
      → (v.available_balance ≡ wallet.available_balance -ℤ x.reserved_amount)
        × (v.locked_balance ≡ wallet.locked_balance +ℤ x.reserved_amount)
        × (v.amount ≡ x.reserved_amount)
  placed_values wallet v m covered s =
      let a = wallet.available_balance in
      let l = wallet.locked_balance in
      let r = x.reserved_amount in
      let left = IsMoney-left a r m.0 r_money (not_short a r covered) in
      let sum = IsMoney-moved a l r m.0 m.1 m.2 r_money (not_short a r covered) in
      (
        same_value s.available_balance
            (ap platform.store_numeric (sub-exact a r left) ∙ columns.exact _ left),
        same_value s.locked_balance
            (ap platform.store_numeric (add-exact l r sum) ∙ columns.exact _ sum),
        same_value s.amount (columns.exact r r_money),
      )

  module _ (db : Db) (sound : IsSound db) (wallet : Wallet) (ready : IsPlacing platform db x wallet)
      (v : Stored) (stored : IsStored platform x wallet v)
      (fresh : IsNew platform x wallet v db) where
    pub money : HasMoney wallet
    money =
        All-find? HasMoney (is_user_wallet x.call.user_id x.reserve_asset.id) db.wallets sound.money
          ready.wallet_found

    placed_said :
        (b : BalanceBucket)
        → bucket_value b (record wallet {
          available_balance = v.available_balance;
          locked_balance = v.locked_balance;
        })
          ≡ bucket_value b wallet
            +ℤ posting b wallet.id (record (reserve_credit x wallet) { amount = v.amount })
            +ℤ posting b wallet.id (record (reserve_debit x wallet) { amount = v.amount })
    placed_said available =
        let (a, l, m) = placed_values wallet v money ready.covered stored in
        rw (==_refl wallet.id, a, m) (omega int_laws)
    placed_said locked =
        let (a, l, m) = placed_values wallet v money ready.covered stored in
        rw (==_refl wallet.id, l, m) (omega int_laws)

    pub placed-explained :
        (b : BalanceBucket) (k : Uuid)
        → unexplained b k (placed platform x wallet v db) ≡ unexplained b k db
    placed-explained b k =
        explained-move (is_user_wallet x.call.user_id x.reserve_asset.id) db wallet sound.ids
          ready.wallet_found
          (λ w. record w {
            available_balance = v.available_balance;
            locked_balance = v.locked_balance;
          })
          (λ w. refl) (record (reserve_credit x wallet) { amount = v.amount })
          (record (reserve_debit x wallet) { amount = v.amount }) (placed platform x wallet v db)
          refl refl b k refl refl (placed_said b)

    placed-HasMoney : HasMoney (record wallet {
      available_balance = v.available_balance;
      locked_balance = v.locked_balance;
    })
    placed-HasMoney =
        let (a, l, _) = placed_values wallet v money ready.covered stored in
        let le = not_short wallet.available_balance x.reserved_amount ready.covered in
        rw (a, l)
          (
            IsMoney-left _ _ money.0 r_money le,
            IsMoney-moved _ _ _ money.0 money.1 money.2 r_money le,
            subst IsMoney (moved_sum _ _ _) money.2,
          )

    pub placed-IsSound : IsSound (placed platform x wallet v db)
    placed-IsSound = record {
      ids =
          update-Unique (λ w. w.id) wallet.id
            (λ w. record w {
              available_balance = v.available_balance;
              locked_balance = v.locked_balance;
            })
            db.wallets (λ w. refl) sound.ids;
      money =
          All-update HasMoney (λ w. w.id) wallet.id
            (λ w. record w {
              available_balance = v.available_balance;
              locked_balance = v.locked_balance;
            })
            db.wallets (λ w _. placed-HasMoney) sound.money;
      order_ids = (fresh.0, sound.order_ids);
      reserved = (
        (
          subst IsMoney (sym (placed_values wallet v money ready.covered stored).2) r_money,
          fresh.1,
        ),
        sound.reserved,
      );
    }

module _ (platform : Platform) (draws : OrderDraws) (call : OrderCall) (db db' : Db)
    (r : OrderReservationResult) (columns : ExactColumns platform) (sound : IsSound db)
    (amount_money : IsMoney (amount_of call.side call.price call.quantity))
    (success : create_order_reservation platform draws call db ≡ ok (r, db')) where
  -- If the columns hold money exactly, the books are sound and the reserved amount is money,
  -- then after a successful `create_order_reservation` the books are sound, and for every wallet
  -- the part of its available and of its locked balance that no ledger entry explains is what it
  -- was before.
  pub create_order_reservation-keeps_books :
      IsSound db' × ((b : BalanceBucket) (k : Uuid) → unexplained b k db' ≡ unexplained b k db)
  create_order_reservation-keeps_books =
      let (x, admitted, outcome) =
        create_order_reservation-outcome platform draws call db db' r success in
      let x_money : IsMoney x.reserved_amount =
        subst (λ (y : Reservation). IsMoney y.reserved_amount) (sym admitted.shape) amount_money in
      elim outcome [
        | inl (old, same) ↦ (subst IsSound (sym same) sound, λ b k. ap (unexplained b k) same)
        | inr (wallet, ready, h) ↦
            let (v, stored, fresh, state, answer) =
              place_order-placed platform x wallet db db' r h in
            (
              subst IsSound (sym state)
                  (placed-IsSound platform columns x x_money db sound wallet ready v stored fresh),
              λ b k.
                  ap (unexplained b k) state
                  ∙ placed-explained platform columns x x_money db sound wallet ready v stored fresh
                      b k,
            )
      ]

-- ===== src/Accounts/Releasing.antt =====
-- `cancel_order_reservation` and the books.
use crypto_ledger_sandbox.Prelude.{
  ==_refl, ◌≡◌, refl, sym, ap, subst, ◌∙◌, inl, inr, ◌+ℤ◌, ◌-ℤ◌, int_laws, All-find?, All-update,
  update-Unique,
}
use crypto_ledger_sandbox.Decimal.{Decimal, IsMoney}
use crypto_ledger_sandbox.Decimal.Exact.{add-exact, sub-exact, IsMoney-left, IsMoney-moved}
use crypto_ledger_sandbox.Models.{Uuid, Wallet, BalanceBucket, available, locked}
use crypto_ledger_sandbox.Db.{Db, Platform, ok}
use crypto_ledger_sandbox.Db.Laws.{same_value}
use crypto_ledger_sandbox.Ledger.{is_user_wallet}
use crypto_ledger_sandbox.Orders.{
  Release, CancelDraws, OrderCancellationResult, is_own_order, release_debit, release_credit,
  cancel_row, cancel_order_reservation,
}
use crypto_ledger_sandbox.Orders.Released.{Freed, IsFreed, released, release_funds-released}
use crypto_ledger_sandbox.Orders.CancelOutcomes.{
  IsReleasing, IsFound, cancel_order_reservation-outcome,
}
use crypto_ledger_sandbox.Accounts.{
  unexplained, bucket_value, posting, ExactColumns, IsSound, IsReserved, HasMoney,
}
use crypto_ledger_sandbox.Accounts.Explained.{not_short, explained-move}
use crypto_ledger_sandbox.Accounts.Backed.{with_balances}

+ℤ_swap : (a l : Decimal) → a +ℤ l ≡ l +ℤ a
+ℤ_swap a l = omega int_laws

released_sum : (a l r : Decimal) → a +ℤ l ≡ (a +ℤ r) +ℤ (l -ℤ r)
released_sum a l r = omega int_laws

swapped : (a l : Decimal) → IsMoney (a +ℤ l) → IsMoney (l +ℤ a)
swapped a l h = subst IsMoney (+ℤ_swap a l) h

module _ (platform : Platform) (columns : ExactColumns platform) (user_id order_id : Uuid)
    (x : Release) (db : Db) (sound : IsSound db) (here : IsFound user_id order_id db x) where
  r-IsMoney : IsMoney x.order.reserved_amount
  r-IsMoney =
      (All-find? IsReserved (is_own_order user_id order_id) db.orders sound.reserved here.order).0

  module _ (wallet : Wallet) (ready : IsReleasing user_id db x wallet) (v : Freed)
      (freed : IsFreed platform x wallet v) where
    money : HasMoney wallet
    money =
        All-find? HasMoney (is_user_wallet user_id x.reserve_asset.id) db.wallets sound.money
          ready.wallet_found

    -- What a release makes of the wallet's balances.
    pub freed_values :
        (v.available_balance ≡ wallet.available_balance +ℤ x.order.reserved_amount)
        × (v.locked_balance ≡ wallet.locked_balance -ℤ x.order.reserved_amount)
        × (v.amount ≡ x.order.reserved_amount)
    freed_values =
        let a = wallet.available_balance in
        let l = wallet.locked_balance in
        let r = x.order.reserved_amount in
        let le = not_short l r ready.held in
        let left = IsMoney-left l r money.1 r-IsMoney le in
        let sum = IsMoney-moved l a r money.1 money.0 (swapped a l money.2) r-IsMoney le in
        (
          same_value freed.available_balance
              (ap platform.store_numeric (add-exact a r sum) ∙ columns.exact _ sum),
          same_value freed.locked_balance
              (ap platform.store_numeric (sub-exact l r left) ∙ columns.exact _ left),
          same_value freed.amount (columns.exact r r-IsMoney),
        )

    released_said :
        (b : BalanceBucket)
        → bucket_value b (with_balances v.available_balance v.locked_balance wallet)
          ≡ bucket_value b wallet
            +ℤ posting b wallet.id (record (release_credit x wallet) { amount = v.amount })
            +ℤ posting b wallet.id (record (release_debit x wallet) { amount = v.amount })
    released_said available =
        let (a, l, m) = freed_values in rw (==_refl wallet.id, a, m) (omega int_laws)
    released_said locked =
        let (a, l, m) = freed_values in rw (==_refl wallet.id, l, m) (omega int_laws)

    pub released-explained :
        (b : BalanceBucket) (k : Uuid)
        → unexplained b k (released platform x wallet v db) ≡ unexplained b k db
    released-explained b k =
        explained-move (is_user_wallet user_id x.reserve_asset.id) db wallet sound.ids
          ready.wallet_found (with_balances v.available_balance v.locked_balance) (λ w. refl)
          (record (release_credit x wallet) { amount = v.amount })
          (record (release_debit x wallet) { amount = v.amount }) (released platform x wallet v db)
          refl refl b k refl refl (released_said b)

    released-HasMoney : HasMoney (with_balances v.available_balance v.locked_balance wallet)
    released-HasMoney =
        let (a, l, _) = freed_values in
        let le = not_short wallet.locked_balance x.order.reserved_amount ready.held in
        rw (a, l)
          (
            IsMoney-moved _ _ _ money.1 money.0 (swapped _ _ money.2) r-IsMoney le,
            IsMoney-left _ _ money.1 r-IsMoney le,
            subst IsMoney (released_sum _ _ _) money.2,
          )

    pub released-IsSound : IsSound (released platform x wallet v db)
    released-IsSound = record {
      ids =
          update-Unique (λ w. w.id) wallet.id (with_balances v.available_balance v.locked_balance)
            db.wallets (λ w. refl) sound.ids;
      money =
          All-update HasMoney (λ w. w.id) wallet.id
            (with_balances v.available_balance v.locked_balance) db.wallets
            (λ w _. released-HasMoney) sound.money;
      order_ids =
          update-Unique (λ o. o.id) x.order.id cancel_row db.orders (λ o. refl) sound.order_ids;
      reserved =
          All-update IsReserved (λ o. o.id) x.order.id cancel_row db.orders (λ o h. h)
            sound.reserved;
    }

module _ (platform : Platform) (draws : CancelDraws) (user_id order_id : Uuid) (db db' : Db)
    (r : OrderCancellationResult) (columns : ExactColumns platform) (sound : IsSound db)
    (success : cancel_order_reservation platform draws user_id order_id db ≡ ok (r, db')) where
  -- If the columns hold money exactly and the books are sound, then after a successful
  -- `cancel_order_reservation` the books are sound, and for every wallet the part of its
  -- available and of its locked balance that no ledger entry explains is what it was before.
  pub cancel_order_reservation-keeps_books :
      IsSound db' × ((b : BalanceBucket) (k : Uuid) → unexplained b k db' ≡ unexplained b k db)
  cancel_order_reservation-keeps_books =
      let (x, here, _, outcome) =
        cancel_order_reservation-outcome platform draws user_id order_id db db' r success in
      elim outcome [
        | inl (_, same, _) ↦ (subst IsSound (sym same) sound, λ b k. ap (unexplained b k) same)
        | inr (wallet, ready, h) ↦
            let (v, freed, state, answer) = release_funds-released platform x wallet db db' r h in
            (
              subst IsSound (sym state) (
                  released-IsSound platform columns user_id order_id x db sound here wallet ready v
                    freed),
              λ b k.
                  ap (unexplained b k) state
                  ∙ released-explained platform columns user_id order_id x db sound here wallet
                      ready v freed b k,
            )
      ]

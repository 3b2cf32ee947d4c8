-- ===== src/Accounts/Unlocking.antt =====
-- The cancellations of app/services/orders.py, and what the open orders hold.
use crypto_ledger_sandbox.Prelude.{
  ◌==◌, ==_iff, Bool-cases, true, false, ◌≡◌, sym, ap, subst, ◌∙◌, inl, inr, ◌⊎◌, pos, ◌+ℤ◌, ◌-ℤ◌,
  int_laws, if◌then◌else◌, find?, find?-test, total, total-update, update, arith,
}
use crypto_ledger_sandbox.Decimal.{Decimal}
use crypto_ledger_sandbox.Models.{Uuid, Wallet, Order, opened, locked}
use crypto_ledger_sandbox.Db.{Db, Platform, ok}
use crypto_ledger_sandbox.Ledger.{is_user_wallet}
use crypto_ledger_sandbox.Orders.{
  Release, CancelDraws, OrderCancellationResult, is_own_order, reserve_asset_id, cancel_row,
  cancel_order_reservation,
}
use crypto_ledger_sandbox.Orders.Released.{Freed, IsFreed, released, release_funds-released}
use crypto_ledger_sandbox.Orders.CancelOutcomes.{
  IsReleasing, IsFound, cancel_order_reservation-outcome,
}
use crypto_ledger_sandbox.Accounts.{held_by, value_or_zero, ExactColumns, IsSound, IsBacked}
use crypto_ledger_sandbox.Accounts.Backed.{is_owner, locked-update, owner_found, held_at}
use crypto_ledger_sandbox.Accounts.Releasing.{freed_values}

held_canceled : (u a : Uuid) (o : Order) → held_by u a (cancel_row o) ≡ pos 0
held_canceled u a o = ground arith

left_over : (t t' h l r : Decimal) → t' +ℤ h ≡ t +ℤ pos 0 → h ≡ r → l ≡ t → l -ℤ r ≡ t'
left_over t t' h l r e f g = grind (int_laws, e, f, g)

nothing_left : (t t' h l : Decimal) → t' +ℤ h ≡ t +ℤ pos 0 → h ≡ pos 0 → l ≡ t → l ≡ t'
nothing_left t t' h l e f g = grind (int_laws, e, f, g)

module _ (user_id order_id : Uuid) (db : Db) (x : Release)
    (here : IsFound user_id order_id db x) where
  pub own_user : x.order.user_id ≡ user_id
  own_user =
      let test = find?-test (is_own_order user_id order_id) db.orders here.order in ground arith

  pub own_asset : x.reserve_asset.id ≡ reserve_asset_id x.order
  own_asset =
      (==_iff x.reserve_asset.id (reserve_asset_id x.order)).0
        (find?-test (λ a. a.id == reserve_asset_id x.order) db.assets here.asset)

  module _ (is_open : x.order.status ≡ opened) where
    pub held_own :
        (u a : Uuid)
        → held_by u a x.order
          ≡ (if is_owner user_id x.reserve_asset.id u a then x.order.reserved_amount else pos 0)
    held_own u a =
        subst
          (λ v.
            held_by u a x.order
            ≡ (if is_owner v x.reserve_asset.id u a then x.order.reserved_amount else pos 0))
          own_user (held_at x.order x.reserve_asset.id u a own_asset is_open)

module _ (platform : Platform) (columns : ExactColumns platform) (user_id order_id : Uuid) (db : Db)
    (sound : IsSound db) (backed : IsBacked db) (x : Release) (here : IsFound user_id order_id db x)
    (wallet : Wallet) (ready : IsReleasing user_id db x wallet) (v : Freed)
    (freed : IsFreed platform x wallet v) where
  orders_after :
      (u a : Uuid)
      → total (held_by u a) (update (λ o. o.id) x.order.id cancel_row db.orders)
          +ℤ held_by u a x.order
        ≡ total (held_by u a) db.orders +ℤ pos 0
  orders_after u a =
      total-update (is_own_order user_id order_id) (λ o. o.id) (held_by u a) cancel_row db.orders
        sound.order_ids here.order
      ∙ ap (λ h. total (held_by u a) db.orders +ℤ h) (held_canceled u a x.order)

  released-cases :
      (u a : Uuid)
      → (is_owner user_id x.reserve_asset.id u a ≡ true)
        ⊎ (is_owner user_id x.reserve_asset.id u a ≡ false)
      → (if is_owner user_id x.reserve_asset.id u a
          then v.locked_balance
          else value_or_zero locked (find? (is_user_wallet u a) db.wallets))
        ≡ total (held_by u a) (update (λ o. o.id) x.order.id cancel_row db.orders)
  released-cases u a (inl owner) =
      let (_, l, m) =
        freed_values platform columns user_id order_id x db sound here wallet ready v freed in
      let before : wallet.locked_balance ≡ total (held_by u a) db.orders =
        subst (λ o. value_or_zero locked o ≡ total (held_by u a) db.orders)
          (owner_found user_id x.reserve_asset.id db wallet v.available_balance v.locked_balance
            sound.ids ready.wallet_found u a owner)
          (backed.locked u a) in
      let held : held_by u a x.order ≡ x.order.reserved_amount =
        held_own user_id order_id db x here ready.opened u a ∙ rw owner in
      rw owner (l ∙ left_over _ _ _ _ _ (orders_after u a) held before)
  released-cases u a (inr other) =
      let held : held_by u a x.order ≡ pos 0 =
        held_own user_id order_id db x here ready.opened u a ∙ rw other in
      rw other (nothing_left _ _ _ _ (orders_after u a) held (backed.locked u a))

  released-IsBacked : IsBacked (released platform x wallet v db)
  released-IsBacked = record {
    locked = λ u a.
        locked-update user_id x.reserve_asset.id db wallet v.available_balance v.locked_balance
          sound.ids ready.wallet_found u a
        ∙ released-cases u a (Bool-cases (is_owner user_id x.reserve_asset.id u a));
  }

-- If the columns hold money exactly, the books are sound, and every user's locked balance in an
-- asset is the sum of what the user's open orders hold of it, then this is so after a successful
-- `cancel_order_reservation`.
pub cancel_order_reservation-IsBacked :
    (platform : Platform) (draws : CancelDraws) (user_id order_id : Uuid) (db db' : Db)
    (r : OrderCancellationResult)
    → ExactColumns platform
    → IsSound db
    → IsBacked db
    → cancel_order_reservation platform draws user_id order_id db ≡ ok (r, db')
    → IsBacked db'
cancel_order_reservation-IsBacked platform draws user_id order_id db db' r columns sound backed
      success =
    let (x, here, _, outcome) =
      cancel_order_reservation-outcome platform draws user_id order_id db db' r success in
    elim outcome [
      | inl (_, same, _) ↦ subst IsBacked (sym same) backed
      | inr (wallet, ready, h) ↦
          let (v, freed, state, _) = release_funds-released platform x wallet db db' r h in
          subst IsBacked (sym state) (
            released-IsBacked platform columns user_id order_id db sound backed x here wallet ready
              v freed)
    ]

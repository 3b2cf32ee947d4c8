-- ===== src/Accounts/Cancelable.antt =====
-- The tests of `cancel_order_reservation` on an open order, in backed books.
use crypto_ledger_sandbox.Prelude.{
  Bool-cases, true, false, ◌==◌, ◌&&◌, ==_refl, Option-cases, ◌≡◌, refl, sym, ap, subst, ◌∙◌, inl,
  inr, pos, ◌≤ℤ◌, ltb_ℤ, find?, total, total-covers, All-find?, All-weaken, arith,
}
use crypto_ledger_sandbox.Decimal.{Decimal}
use crypto_ledger_sandbox.Models.{Uuid, Wallet, Order, opened, locked, status_eq}
use crypto_ledger_sandbox.Db.{Db, Platform}
use crypto_ledger_sandbox.Ledger.{is_user_wallet}
use crypto_ledger_sandbox.Orders.{
  Release, is_own_order, reserve_asset_id, cancel_open, release_funds, cancel_order_reservation,
}
use crypto_ledger_sandbox.Orders.CancelOutcomes.{IsFound, IsReleasing}
use crypto_ledger_sandbox.Accounts.{held_by, value_or_zero, IsSound, IsReserved, IsBacked}
use crypto_ledger_sandbox.Accounts.Unlocking.{held_own}

held_positive : (u a : Uuid) (o : Order) → IsReserved o → pos 0 ≤ℤ held_by u a o
held_positive u a o h =
    elim (Bool-cases (o.user_id == u && (reserve_asset_id o == a && status_eq o.status opened))) [
      | inl here ↦ rw here (ground (arith, h.1))
      | inr other ↦ rw other (omega arith)
    ]

covers : (r t : Decimal) → r ≤ℤ t → ltb_ℤ t r ≡ false
covers r t h = ground arith

enough : (r l t : Decimal) → r ≤ℤ t → l ≡ t → ltb_ℤ l r ≡ false
enough r l t h e = subst (λ s. ltb_ℤ s r ≡ false) (sym e) (covers r t h)

too_little : (r t : Decimal) → r ≤ℤ t → pos 0 ≡ t → ltb_ℤ (pos 0) r ≡ true → ⊥
too_little r t h e k = let not_less = enough r (pos 0) t h e in cc

module _ (user_id order_id : Uuid) (db : Db) (sound : IsSound db) (backed : IsBacked db)
    (x : Release) (here : IsFound user_id order_id db x) (is_open : x.order.status ≡ opened) where
  held_value : held_by user_id x.reserve_asset.id x.order ≡ x.order.reserved_amount
  held_value =
      held_own user_id order_id db x here is_open user_id x.reserve_asset.id
      ∙ rw (==_refl user_id, ==_refl x.reserve_asset.id) refl

  covered : x.order.reserved_amount ≤ℤ total (held_by user_id x.reserve_asset.id) db.orders
  covered =
      subst (λ h. h ≤ℤ total (held_by user_id x.reserve_asset.id) db.orders) held_value
        (total-covers (is_own_order user_id order_id) (held_by user_id x.reserve_asset.id) db.orders
          (All-weaken (held_positive user_id x.reserve_asset.id) db.orders sound.reserved)
          here.order)

  -- The wallet is there, and it holds what the order has reserved.
  pub releasable : (wallet : Wallet) × IsReleasing user_id db x wallet
  releasable =
      let locked_total = backed.locked user_id x.reserve_asset.id in
      elim (Option-cases (find? (is_user_wallet user_id x.reserve_asset.id) db.wallets)) [
        | inl missing ↦ absurd (
            too_little _ _ covered (ap (value_or_zero locked) (sym missing) ∙ locked_total)
              (All-find? IsReserved (is_own_order user_id order_id) db.orders sound.reserved
                here.order).1)
        | inr (wallet, found) ↦ (
          wallet,
          record {
            opened = is_open;
            wallet_found = found;
            held = enough _ _ _ covered (ap (value_or_zero locked) (sym found) ∙ locked_total);
          },
        )
      ]

  -- In sound books whose locked balances are backed by the open orders, if the caller's order
  -- and its reserved asset are found and the order is open, then the caller has a wallet in that
  -- asset whose locked balance covers the order, and `cancel_order_reservation` does what the
  -- release of the funds from that wallet does: no test refuses it.
  pub cancel_order_reservation-releases :
      (platform : Platform)
      → (wallet : Wallet) × IsReleasing user_id db x wallet
        × (cancel_order_reservation platform x.draws user_id order_id db
            ≡ release_funds platform x wallet db)
  unfolding cancel_order_reservation cancel_open
  cancel_order_reservation-releases platform =
      let (wallet, ready) = releasable in
      (wallet, ready, rw (here.order, here.asset, is_open, ready.wallet_found, ready.held) refl)

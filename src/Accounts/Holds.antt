-- ===== src/Accounts/Holds.antt =====
-- The services of app/services/orders.py as moves of the abstract ledger.
use crypto_ledger_sandbox.Prelude.{true, false, ◌≡◌, refl, sym, ap, subst, inl, inr, ◌⊎◌, ◌≤ℤ◌}
use crypto_ledger_sandbox.Decimal.{IsMoney}
use crypto_ledger_sandbox.Models.{Uuid, available, locked}
use crypto_ledger_sandbox.Db.{Db, Platform, ok}
use crypto_ledger_sandbox.Orders.{
  Reservation, OrderCall, OrderDraws, OrderReservationResult, CancelDraws, OrderCancellationResult,
  amount_of, create_order_reservation, cancel_order_reservation,
}
use crypto_ledger_sandbox.Orders.Outcomes.{create_order_reservation-outcome}
use crypto_ledger_sandbox.Orders.Placed.{place_order-placed}
use crypto_ledger_sandbox.Orders.CancelOutcomes.{cancel_order_reservation-outcome}
use crypto_ledger_sandbox.Orders.Released.{release_funds-released}
use crypto_ledger_sandbox.Accounts.{ExactColumns, IsSound}
use crypto_ledger_sandbox.Accounts.Backed.{with_balances}
use crypto_ledger_sandbox.Accounts.Explained.{not_short}
use crypto_ledger_sandbox.Accounts.Reserving.{placed_values, money}
use crypto_ledger_sandbox.Accounts.Releasing.{freed_values}
use crypto_ledger_sandbox.Accounts.Balances.{
  balances, held, freed, IsHold, IsFree, update-changed, holds_so, frees_so, found_balance, said,
  same_call,
}

-- If the columns hold money exactly, the books are sound and the reserved amount is money, a
-- successful `create_order_reservation` either answers a replay and leaves every user's
-- balances, or answers no replay, the amount was available to the caller in the asset that it
-- answers, and the amount goes from the available to the locked balance of the caller in that
-- asset and no other balance of a user changes.
pub create_order_reservation-holds :
    (platform : Platform) (draws : OrderDraws) (call : OrderCall) (db db' : Db)
    (r : OrderReservationResult)
    → ExactColumns platform
    → IsSound db
    → IsMoney (amount_of call.side call.price call.quantity)
    → create_order_reservation platform draws call db ≡ ok (r, db')
    → ((r.replayed ≡ true) × (balances db' ≡ balances db))
      ⊎ ((r.replayed ≡ false)
          × IsHold call.user_id r.reserve_asset.id
              (amount_of call.side call.price call.quantity)
              db
              db')
create_order_reservation-holds platform draws call db db' r columns sound amount_money success =
    let (x, admitted, outcome) =
      create_order_reservation-outcome platform draws call db db' r success in
    let x_money : IsMoney x.reserved_amount =
      subst (λ (y : Reservation). IsMoney y.reserved_amount) (sym admitted.shape) amount_money in
    elim outcome [
      | inl (replay, same) ↦
          inl (ap (λ (q : OrderReservationResult). q.replayed) replay.answer, ap balances same)
      | inr (wallet, ready, h) ↦
          let (v, stored, fresh, state, answer) = place_order-placed platform x wallet db db' r h in
          let (y, z, _) =
            placed_values platform columns x x_money wallet v
              (money platform columns x x_money db sound wallet ready v stored fresh) ready.covered
              stored in
          inr (
            ap (λ (q : OrderReservationResult). q.replayed) answer,
            same_call (λ u a n. IsHold u a n db db')
                (ap (λ (q : Reservation). q.call.user_id) admitted.shape)
                (sym (ap (λ (q : OrderReservationResult). q.reserve_asset.id) answer))
                (ap (λ (q : Reservation). q.reserved_amount) admitted.shape)
                (
                  subst (λ n. x.reserved_amount ≤ℤ n)
                      (sym (
                        found_balance x.call.user_id x.reserve_asset.id available db
                          ready.wallet_found))
                      (not_short wallet.available_balance x.reserved_amount ready.covered),
                  update-changed x.call.user_id x.reserve_asset.id db.wallets wallet
                      (with_balances v.available_balance v.locked_balance) (held x.reserved_amount)
                      db' (balances db) sound.ids ready.wallet_found (λ u a w. refl)
                      (holds_so v.available_balance v.locked_balance x.reserved_amount wallet y z)
                      (said db) (ap (λ (d : Db). d.wallets) state),
                ),
          )
    ]

-- If the columns hold money exactly and the books are sound, a successful
-- `cancel_order_reservation` either answers a replay and leaves every user's balances, or
-- answers no replay, the order's amount was locked for the caller in the asset that it answers,
-- and the amount goes from the locked to the available balance of the caller in that asset and
-- no other balance of a user changes.
pub cancel_order_reservation-frees :
    (platform : Platform) (draws : CancelDraws) (user_id order_id : Uuid) (db db' : Db)
    (r : OrderCancellationResult)
    → ExactColumns platform
    → IsSound db
    → cancel_order_reservation platform draws user_id order_id db ≡ ok (r, db')
    → ((r.replayed ≡ true) × (balances db' ≡ balances db))
      ⊎ ((r.replayed ≡ false) × IsFree user_id r.reserve_asset.id r.order.reserved_amount db db')
cancel_order_reservation-frees platform draws user_id order_id db db' r columns sound success =
    let (x, here, _, outcome) =
      cancel_order_reservation-outcome platform draws user_id order_id db db' r success in
    elim outcome [
      | inl (_, same, answer) ↦
          inl (ap (λ (q : OrderCancellationResult). q.replayed) answer, ap balances same)
      | inr (wallet, ready, h) ↦
          let (v, stored, state, answer) = release_funds-released platform x wallet db db' r h in
          let (y, z, _) =
            freed_values platform columns user_id order_id x db sound here wallet ready v stored in
          inr (
            ap (λ (q : OrderCancellationResult). q.replayed) answer,
            same_call (λ u a n. IsFree u a n db db') refl
                (sym (ap (λ (q : OrderCancellationResult). q.reserve_asset.id) answer))
                (sym (ap (λ (q : OrderCancellationResult). q.order.reserved_amount) answer))
                (
                  subst (λ n. x.order.reserved_amount ≤ℤ n)
                      (sym (found_balance user_id x.reserve_asset.id locked db ready.wallet_found))
                      (not_short wallet.locked_balance x.order.reserved_amount ready.held),
                  update-changed user_id x.reserve_asset.id db.wallets wallet
                      (with_balances v.available_balance v.locked_balance)
                      (freed x.order.reserved_amount) db' (balances db) sound.ids ready.wallet_found
                      (λ u a w. refl)
                      (frees_so v.available_balance v.locked_balance x.order.reserved_amount wallet
                        y z)
                      (said db) (ap (λ (d : Db). d.wallets) state),
                ),
          )
    ]

-- ===== src/Accounts/Balanced.antt =====
-- The credits and the debits of the services, transaction by transaction.
use crypto_ledger_sandbox.Prelude.{
  Option, some, none, Bool-cases, ◌==◌, ◌≡◌, refl, sym, ap, ◌∙◌, inl, inr, int_laws, total, ◌∷◌,
}
use crypto_ledger_sandbox.Models.{Uuid, Wallet, LedgerEntry, debit, credit}
use crypto_ledger_sandbox.Db.{Db, Platform, ok, insert_wallet}
use crypto_ledger_sandbox.Db.Laws.{>>=-ok, ok-state, insert_wallet-ok}
use crypto_ledger_sandbox.Ledger.{
  Funding, opened_wallet, FundingCall, FundingDraws, FundingResult, wallet_or_opened,
  post_sandbox_funding,
}
use crypto_ledger_sandbox.Ledger.Posted.{post_transfer-transferred}
use crypto_ledger_sandbox.Ledger.Outcomes.{post_sandbox_funding-outcome}
use crypto_ledger_sandbox.Orders.{
  OrderCall, OrderDraws, OrderReservationResult, CancelDraws, OrderCancellationResult,
  create_order_reservation, cancel_order_reservation,
}
use crypto_ledger_sandbox.Orders.Placed.{place_order-placed}
use crypto_ledger_sandbox.Orders.Released.{release_funds-released}
use crypto_ledger_sandbox.Orders.Outcomes.{create_order_reservation-outcome}
use crypto_ledger_sandbox.Orders.CancelOutcomes.{cancel_order_reservation-outcome}
use crypto_ledger_sandbox.Accounts.{net}

-- A credit and a debit of one amount in one transaction.
pub pair-net :
    (t : Uuid) (c d : LedgerEntry) (db db' : Db)
    → db'.entries ≡ c ∷ d ∷ db.entries
    → c.transaction_id ≡ d.transaction_id
    → c.amount ≡ d.amount
    → c.entry_type ≡ credit
    → d.entry_type ≡ debit
    → net t db' ≡ net t db
unfolding net total
pair-net t c d db db' es same_transaction same_amount credited debited =
    rw (es, same_transaction, same_amount, credited, debited)
      (elim (Bool-cases (d.transaction_id == t)) [
        | inl own ↦ rw own (omega int_laws)
        | inr other ↦ rw other (omega int_laws)
      ])

-- A successful `create_order_reservation` leaves the sum of the credits less the debits of every
-- ledger transaction as it was.
pub create_order_reservation-balanced :
    (platform : Platform) (draws : OrderDraws) (call : OrderCall) (db db' : Db)
    (r : OrderReservationResult) (t : Uuid)
    → create_order_reservation platform draws call db ≡ ok (r, db')
    → net t db' ≡ net t db
create_order_reservation-balanced platform draws call db db' r t h =
    let (x, _, outcome) = create_order_reservation-outcome platform draws call db db' r h in
    elim outcome [
      | inl (_, same) ↦ ap (net t) same
      | inr (wallet, _, k) ↦
          let (v, _, _, state, _) = place_order-placed platform x wallet db db' r k in
          pair-net t _ _ db db' (ap (λ (d : Db). d.entries) state) refl refl refl refl
    ]

-- A successful `cancel_order_reservation` leaves the sum of the credits less the debits of every
-- ledger transaction as it was.
pub cancel_order_reservation-balanced :
    (platform : Platform) (draws : CancelDraws) (user_id order_id : Uuid) (db db' : Db)
    (r : OrderCancellationResult) (t : Uuid)
    → cancel_order_reservation platform draws user_id order_id db ≡ ok (r, db')
    → net t db' ≡ net t db
cancel_order_reservation-balanced platform draws user_id order_id db db' r t h =
    let (x, _, _, outcome) =
      cancel_order_reservation-outcome platform draws user_id order_id db db' r h in
    elim outcome [
      | inl (_, same, _) ↦ ap (net t) same
      | inr (wallet, _, k) ↦
          let (v, _, state, _) = release_funds-released platform x wallet db db' r k in
          pair-net t _ _ db db' (ap (λ (d : Db). d.entries) state) refl refl refl refl
    ]

opened-net :
    (platform : Platform) (x : Funding) (found : Option Wallet) (w : Wallet) (db db₁ : Db)
    (t : Uuid)
    → wallet_or_opened platform x found db ≡ ok (w, db₁)
    → net t db₁ ≡ net t db
unfolding wallet_or_opened net
opened-net platform x (some v) w db db₁ t h = sym (ap (λ (d : Db). net t d) (ok-state h))
opened-net platform x none w db db₁ t h =
    let (_, d, h₁, h₂) = >>=-ok (insert_wallet platform (opened_wallet x)) _ db h in
    let (_, _, _, _, _, state) = insert_wallet-ok platform (opened_wallet x) db h₁ in
    sym (ap (net t) (ok-state h₂)) ∙ ap (net t) state

-- A successful `post_sandbox_funding` leaves the sum of the credits less the debits of every
-- ledger transaction as it was.
pub post_sandbox_funding-balanced :
    (platform : Platform) (draws : FundingDraws) (call : FundingCall) (db db' : Db)
    (r : FundingResult) (t : Uuid)
    → post_sandbox_funding platform draws call db ≡ ok (r, db')
    → net t db' ≡ net t db
post_sandbox_funding-balanced platform draws call db db' r t h =
    let (x, _, _, _, outcome) = post_sandbox_funding-outcome platform draws call db db' r h in
    elim outcome [
      | inl (_, same) ↦ ap (net t) same
      | inr (treasury_wallet, user_wallet, db₁, paid, k) ↦
          let (v, _, state, _) =
            post_transfer-transferred platform x treasury_wallet user_wallet db₁ db' r k in
          pair-net t _ _ db₁ db' (ap (λ (d : Db). d.entries) state) refl refl refl refl
          ∙ opened-net platform x _ user_wallet db db₁ t paid.wallet
    ]

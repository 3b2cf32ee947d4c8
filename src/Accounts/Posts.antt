-- ===== src/Accounts/Posts.antt =====
-- What the services post to the ledger: transactions and the amounts of their entries.
use crypto_ledger_sandbox.Prelude.{
  true, false, Option, none, some, ◌∷◌, ◌≡◌, sym, ap, subst, ◌∙◌, inl, inr, ◌⊎◌, pos, ltb_ℤ, leb_ℤ,
  All-find?, arith,
}
use crypto_ledger_sandbox.Decimal.{Decimal, IsMoney}
use crypto_ledger_sandbox.Models.{
  Uuid, Wallet, LedgerTransactionType, funding, order_reserve, order_release,
}
use crypto_ledger_sandbox.Db.{Db, Platform, ok, insert_wallet}
use crypto_ledger_sandbox.Db.Laws.{same_value, ok-state, >>=-ok, insert_wallet-ok}
use crypto_ledger_sandbox.Ledger.{
  Funding, FundingCall, FundingDraws, FundingResult, opened_wallet, wallet_or_opened,
  post_sandbox_funding,
}
use crypto_ledger_sandbox.Ledger.Posted.{post_transfer-transferred}
use crypto_ledger_sandbox.Ledger.Outcomes.{post_sandbox_funding-outcome}
use crypto_ledger_sandbox.Orders.{
  Reservation, OrderCall, OrderDraws, OrderReservationResult, CancelDraws, OrderCancellationResult,
  is_own_order, amount_of, create_order_reservation, cancel_order_reservation,
}
use crypto_ledger_sandbox.Orders.Outcomes.{create_order_reservation-outcome}
use crypto_ledger_sandbox.Orders.Placed.{place_order-placed}
use crypto_ledger_sandbox.Orders.CancelOutcomes.{cancel_order_reservation-outcome}
use crypto_ledger_sandbox.Orders.Released.{release_funds-released}
use crypto_ledger_sandbox.Accounts.{ExactColumns, IsSound, IsReserved}
use crypto_ledger_sandbox.Accounts.Balances.{kinds_of, amounts_of}

-- One transaction of the kind, and two entries of one positive amount.
pub record IsPosted (kind : LedgerTransactionType) (r : Decimal) (db db' : Db) : Type 0 where
  pub positive : ltb_ℤ (pos 0) r ≡ true
  pub kinds : kinds_of db' ≡ kind ∷ kinds_of db
  pub amounts : amounts_of db' ≡ r ∷ r ∷ amounts_of db

IsPosted-of :
    (kind : LedgerTransactionType) {r r' : Decimal} (db db' : Db)
    → r ≡ r'
    → IsPosted kind r db db'
    → IsPosted kind r' db db'
IsPosted-of kind db db' e h = subst (λ r. IsPosted kind r db db') e h

above_zero : (a : Decimal) → leb_ℤ a (pos 0) ≡ false → ltb_ℤ (pos 0) a ≡ true
above_zero a h = ground arith

-- The opening of a wallet posts nothing.
opened_posts :
    (platform : Platform) (x : Funding) (db : Db) (o : Option Wallet) (w : Wallet) (db₁ : Db)
    → wallet_or_opened platform x o db ≡ ok (w, db₁)
    → (kinds_of db₁ ≡ kinds_of db) × (amounts_of db₁ ≡ amounts_of db)
unfolding wallet_or_opened
opened_posts platform x db (some v) w db₁ h =
    (ap kinds_of (sym (ok-state h)), ap amounts_of (sym (ok-state h)))
opened_posts platform x db none w db₁ h =
    let (_, d, h₁, h₂) = >>=-ok (insert_wallet platform (opened_wallet x)) _ db h in
    let (_, _, _, _, _, state) = insert_wallet-ok platform (opened_wallet x) db h₁ in
    let same = sym (ok-state h₂) ∙ state in (ap kinds_of same, ap amounts_of same)

module _ (platform : Platform) (columns : ExactColumns platform) (db db' : Db) where
  pub post_sandbox_funding-posts :
      (draws : FundingDraws) (call : FundingCall) (r : FundingResult)
      → IsMoney call.amount
      → post_sandbox_funding platform draws call db ≡ ok (r, db')
      → ((r.replayed ≡ true) × (db' ≡ db))
        ⊎ ((r.replayed ≡ false) × IsPosted funding call.amount db db')
  post_sandbox_funding-posts draws call r amount_money success =
      let (x, shape, positive, _, outcome) =
        post_sandbox_funding-outcome platform draws call db db' r success in
      let same : x.call.amount ≡ call.amount = ap (λ (y : Funding). y.call.amount) shape in
      elim outcome [
        | inl (replay, unchanged) ↦
            inl (ap (λ (q : FundingResult). q.replayed) replay.answer, unchanged)
        | inr (treasury_wallet, user_wallet, db₁, paid, h) ↦
            let (v, moved, state, answer) =
              post_transfer-transferred platform x treasury_wallet user_wallet db₁ db' r h in
            let (k, a) = opened_posts platform x db _ user_wallet db₁ paid.wallet in
            let m : v.amount ≡ call.amount =
              same_value moved.amount
                (ap platform.store_numeric same ∙ columns.exact call.amount amount_money) in
            inr (
              ap (λ (q : FundingResult). q.replayed) answer,
              record {
                positive = above_zero call.amount positive;
                kinds = ap kinds_of state ∙ ap (λ ks. funding ∷ ks) k;
                amounts =
                    ap amounts_of state
                    ∙ ap (λ n. n ∷ n ∷ amounts_of db₁) m
                    ∙ ap (λ ns. call.amount ∷ call.amount ∷ ns) a;
              },
            )
      ]

  pub create_order_reservation-posts :
      (draws : OrderDraws) (call : OrderCall) (r : OrderReservationResult)
      → IsMoney (amount_of call.side call.price call.quantity)
      → create_order_reservation platform draws call db ≡ ok (r, db')
      → ((r.replayed ≡ true) × (db' ≡ db))
        ⊎ ((r.replayed ≡ false)
            × IsPosted order_reserve (amount_of call.side call.price call.quantity) db db')
  create_order_reservation-posts draws call r amount_money success =
      let (x, admitted, outcome) =
        create_order_reservation-outcome platform draws call db db' r success in
      let same = ap (λ (q : Reservation). q.reserved_amount) admitted.shape in
      elim outcome [
        | inl (replay, unchanged) ↦
            inl (ap (λ (q : OrderReservationResult). q.replayed) replay.answer, unchanged)
        | inr (wallet, ready, h) ↦
            let (v, stored, fresh, state, answer) =
              place_order-placed platform x wallet db db' r h in
            let m =
              same_value stored.amount
                (ap platform.store_numeric same ∙ columns.exact _ amount_money) in
            inr (
              ap (λ (q : OrderReservationResult). q.replayed) answer,
              IsPosted-of order_reserve db db' m (record {
                positive = fresh.1;
                kinds = ap kinds_of state;
                amounts = ap amounts_of state;
              }),
            )
      ]

  pub cancel_order_reservation-posts :
      (draws : CancelDraws) (user_id order_id : Uuid) (r : OrderCancellationResult)
      → IsSound db
      → cancel_order_reservation platform draws user_id order_id db ≡ ok (r, db')
      → ((r.replayed ≡ true) × (db' ≡ db))
        ⊎ ((r.replayed ≡ false) × IsPosted order_release r.order.reserved_amount db db')
  cancel_order_reservation-posts draws user_id order_id r sound success =
      let (x, here, _, outcome) =
        cancel_order_reservation-outcome platform draws user_id order_id db db' r success in
      let (amount_money, positive) =
        All-find? IsReserved (is_own_order user_id order_id) db.orders sound.reserved here.order in
      elim outcome [
        | inl (_, unchanged, answer) ↦
            inl (ap (λ (q : OrderCancellationResult). q.replayed) answer, unchanged)
        | inr (wallet, ready, h) ↦
            let (v, stored, state, answer) = release_funds-released platform x wallet db db' r h in
            let m = same_value stored.amount (columns.exact _ amount_money) in
            inr (
              ap (λ (q : OrderCancellationResult). q.replayed) answer,
              IsPosted-of order_release db db'
                  (sym (ap (λ (q : OrderCancellationResult). q.order.reserved_amount) answer))
                  (record {
                    positive = positive;
                    kinds = ap kinds_of state;
                    amounts = ap amounts_of state ∙ ap (λ n. n ∷ n ∷ amounts_of db) m;
                  }),
            )
      ]

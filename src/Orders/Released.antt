-- ===== src/Orders/Released.antt =====
-- What `release_funds` leaves behind when it commits.
use crypto_ledger_sandbox.Prelude.{false, some, ◌∷◌, ◌≡◌, update, ◌∙◌, ap, sym}
use crypto_ledger_sandbox.Decimal.{Decimal, add, sub}
use crypto_ledger_sandbox.Models.{Wallet}
use crypto_ledger_sandbox.Db.{
  Db, Platform, ok, insert_transaction, insert_entry, insert_event, set_balances,
}
use crypto_ledger_sandbox.Db.Laws.{
  ok-value, ok-state, same_value, >>=-ok, insert_transaction-ok, set_balances-ok, insert_entry-ok,
  insert_event-ok,
}
use crypto_ledger_sandbox.Outbox.{new_event, enqueue_outbox_event}
use crypto_ledger_sandbox.Orders.{
  OrderCancellationResult, Release, release_transaction, release_debit, release_credit, cancel_row,
  canceled_event, cancellation_result, release_funds,
}

-- The balances and the amount as the columns hold them.
pub record Freed : Type 0 where
  pub available_balance : Decimal
  pub locked_balance : Decimal
  pub amount : Decimal

module _ (platform : Platform) (x : Release) (wallet : Wallet) where
  abbrev pub released : Freed → Db → Db
  released v db = record db {
    transactions = release_transaction platform x ∷ db.transactions;
    orders = update (λ o. o.id) x.order.id cancel_row db.orders;
    wallets =
        update (λ w. w.id) wallet.id
          (λ w. record w {
            available_balance = v.available_balance;
            locked_balance = v.locked_balance;
          })
          db.wallets;
    entries =
        record (release_credit x wallet) { amount = v.amount }
        ∷ record (release_debit x wallet) { amount = v.amount }
        ∷ db.entries;
    events = new_event platform x.draws.event (canceled_event platform x) ∷ db.events;
  }

  pub record IsFreed (v : Freed) : Type 0 where
    pub available_balance :
        platform.store_numeric (add wallet.available_balance x.order.reserved_amount)
        ≡ some v.available_balance
    pub locked_balance :
        platform.store_numeric (sub wallet.locked_balance x.order.reserved_amount)
        ≡ some v.locked_balance
    pub amount : platform.store_numeric x.order.reserved_amount ≡ some v.amount

  pub release_funds-released :
      (db db' : Db) (r : OrderCancellationResult)
      → release_funds platform x wallet db ≡ ok (r, db')
      → (v : Freed) × IsFreed v
        × (db' ≡ released v db)
        × (r ≡ cancellation_result x (cancel_row x.order) false)
  unfolding release_funds enqueue_outbox_event
  release_funds-released db db' r h =
      let (_, d₁, h₁, k₁) = >>=-ok (insert_transaction (release_transaction platform x)) _ db h in
      let (_, d₂, h₂, k₂) =
        >>=-ok
          (set_balances platform wallet.id (add wallet.available_balance x.order.reserved_amount)
            (sub wallet.locked_balance x.order.reserved_amount))
          _ d₁ k₁ in
      let d₃ : Db = record d₂ { orders = update (λ o. o.id) x.order.id cancel_row d₂.orders } in
      let (_, d₄, h₄, k₄) = >>=-ok (insert_entry platform (release_debit x wallet)) _ d₃ k₂ in
      let (_, d₅, h₅, k₅) = >>=-ok (insert_entry platform (release_credit x wallet)) _ d₄ k₄ in
      let (_, d₆, h₆, k₆) =
        >>=-ok (enqueue_outbox_event platform x.draws.event (canceled_event platform x)) _ d₅ k₅ in
      let (_, d₇, h₇, k₇) =
        >>=-ok (insert_event (new_event platform x.draws.event (canceled_event platform x))) _ d₅
          h₆ in
      let (_, s₁) = insert_transaction-ok _ db h₁ in
      let (y, z, sy, sz, _, s₂) = set_balances-ok platform _ _ _ d₁ h₂ in
      let (a, sa, _, s₄) = insert_entry-ok platform _ d₃ h₄ in
      let (c, sc, _, s₅) = insert_entry-ok platform _ d₄ h₅ in
      let (_, s₇) = insert_event-ok _ d₅ h₇ in
      let t₂ =
        s₂
        ∙ ap
            (λ (d : Db). record d {
              wallets =
                  update (λ w. w.id) wallet.id
                    (λ w. record w { available_balance = y; locked_balance = z }) d.wallets;
            })
            s₁ in
      let t₄ =
        s₄
        ∙ ap
            (λ (d : Db). record d {
              orders = update (λ o. o.id) x.order.id cancel_row d.orders;
              entries = record (release_debit x wallet) { amount = a } ∷ d.entries;
            })
            t₂ in
      let t₅ =
        s₅
        ∙ ap
            (λ t. record d₄ {
              entries = record (release_credit x wallet) { amount = t } ∷ d₄.entries;
            })
            (same_value sc sa)
        ∙ ap
            (λ (d : Db). record d {
              entries = record (release_credit x wallet) { amount = a } ∷ d.entries;
            })
            t₄ in
      let t₇ =
        s₇
        ∙ ap
            (λ (d : Db). record d {
              events = new_event platform x.draws.event (canceled_event platform x) ∷ d.events;
            })
            t₅ in
      (
        record { available_balance = y; locked_balance = z; amount = a },
        record { available_balance = sy; locked_balance = sz; amount = sa },
        sym (ok-state k₆) ∙ sym (ok-state k₇) ∙ t₇,
        sym (ok-value k₆),
      )

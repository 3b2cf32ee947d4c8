-- ===== src/Orders/Placed.antt =====
-- What `place_order` leaves behind when it commits.
use crypto_ledger_sandbox.Prelude.{
  true, pos, ltb_ℤ, arith, any?, subst, ◌==◌, false, some, ◌∷◌, ◌≡◌, update, ◌∙◌, ap, sym,
}
use crypto_ledger_sandbox.Decimal.{Decimal, add, sub}
use crypto_ledger_sandbox.Models.{Wallet, Order}
use crypto_ledger_sandbox.Db.{
  Db, Platform, ok, insert_transaction, insert_entry, insert_order, insert_event, set_balances,
  order_allowed,
}
use crypto_ledger_sandbox.Db.Laws.{
  ok-value, ok-state, same_value, >>=-ok, insert_transaction-ok, insert_order-ok, set_balances-ok,
  insert_entry-ok, insert_event-ok,
}
use crypto_ledger_sandbox.Outbox.{new_event, enqueue_outbox_event}
use crypto_ledger_sandbox.Orders.{
  OrderReservationResult, Reservation, reserve_transaction, new_order, reserve_debit,
  reserve_credit, created_event, reservation_result, place_order,
}

-- The balances, the amount and the order's numbers as the columns hold them.
pub record Stored : Type 0 where
  pub available_balance : Decimal
  pub locked_balance : Decimal
  pub amount : Decimal
  pub price : Decimal
  pub quantity : Decimal

abbrev pub placed_order : Reservation → Stored → Order
placed_order x v = record (new_order x) {
  price = v.price;
  quantity = v.quantity;
  remaining_quantity = v.quantity;
  reserved_amount = v.amount;
}

-- An order that the constraints allow has an identifier of its own and a positive amount.
order_allowed-new :
    (o : Order) (db : Db)
    → order_allowed o db ≡ true
    → (any? (λ p. p.id == o.id) db.orders ≡ false) × (ltb_ℤ (pos 0) o.reserved_amount ≡ true)
unfolding order_allowed
order_allowed-new o db h = (ground arith, ground arith)

module _ (platform : Platform) (x : Reservation) (wallet : Wallet) where
  abbrev pub placed : Stored → Db → Db
  placed v db = record db {
    transactions = reserve_transaction platform x ∷ db.transactions;
    orders = placed_order x v ∷ db.orders;
    wallets =
        update (λ w. w.id) wallet.id
          (λ w. record w {
            available_balance = v.available_balance;
            locked_balance = v.locked_balance;
          })
          db.wallets;
    entries =
        record (reserve_credit x wallet) { amount = v.amount }
        ∷ record (reserve_debit x wallet) { amount = v.amount }
        ∷ db.entries;
    events = new_event platform x.draws.event (created_event platform x) ∷ db.events;
  }

  pub record IsStored (v : Stored) : Type 0 where
    pub available_balance :
        platform.store_numeric (sub wallet.available_balance x.reserved_amount)
        ≡ some v.available_balance
    pub locked_balance :
        platform.store_numeric (add wallet.locked_balance x.reserved_amount) ≡ some v.locked_balance
    pub amount : platform.store_numeric x.reserved_amount ≡ some v.amount
    pub price : platform.store_numeric x.call.price ≡ some v.price
    pub quantity : platform.store_numeric x.call.quantity ≡ some v.quantity

  -- The order's identifier is new, and its amount is positive.
  abbrev pub IsNew : Stored → Db → Type 0
  IsNew v db =
      (any? (λ p. p.id == x.draws.order_id) db.orders ≡ false) × (ltb_ℤ (pos 0) v.amount ≡ true)

  stored_row :
      (row : Order) (db : Db) (v : Stored)
      → row ≡ placed_order x v
      → order_allowed row db ≡ true
      → IsNew v db
  stored_row row db v same allowed =
      order_allowed-new (placed_order x v) db (subst (λ o. order_allowed o db ≡ true) same allowed)

  pub place_order-placed :
      (db db' : Db) (r : OrderReservationResult)
      → place_order platform x wallet db ≡ ok (r, db')
      → (v : Stored) × IsStored v
        × IsNew v db
        × (db' ≡ placed v db)
        × (r ≡ reservation_result x (placed_order x v) false)
  unfolding place_order enqueue_outbox_event
  place_order-placed db db' r h =
      let (_, d₁, h₁, k₁) = >>=-ok (insert_transaction (reserve_transaction platform x)) _ db h in
      let (row, d₂, h₂, k₂) = >>=-ok (insert_order platform (new_order x)) _ d₁ k₁ in
      let (_, d₃, h₃, k₃) =
        >>=-ok
          (set_balances platform wallet.id (sub wallet.available_balance x.reserved_amount)
            (add wallet.locked_balance x.reserved_amount))
          _ d₂ k₂ in
      let (_, d₄, h₄, k₄) = >>=-ok (insert_entry platform (reserve_debit x wallet)) _ d₃ k₃ in
      let (_, d₅, h₅, k₅) = >>=-ok (insert_entry platform (reserve_credit x wallet)) _ d₄ k₄ in
      let (_, d₆, h₆, k₆) =
        >>=-ok (enqueue_outbox_event platform x.draws.event (created_event platform x)) _ d₅ k₅ in
      let (_, d₇, h₇, k₇) =
        >>=-ok (insert_event (new_event platform x.draws.event (created_event platform x))) _ d₅
          h₆ in
      let (_, s₁) = insert_transaction-ok _ db h₁ in
      let (p, q, m, a, sp, sq, sm, sa, e, allowed, s₂) = insert_order-ok platform _ d₁ h₂ in
      let (y, z, sy, sz, _, s₃) = set_balances-ok platform _ _ _ d₂ h₃ in
      let (b, sb, _, s₄) = insert_entry-ok platform _ d₃ h₄ in
      let (c, sc, _, s₅) = insert_entry-ok platform _ d₄ h₅ in
      let (_, s₇) = insert_event-ok _ d₅ h₇ in
      let v : Stored = record {
        available_balance = y;
        locked_balance = z;
        amount = a;
        price = p;
        quantity = q;
      } in
      let same_row : row ≡ placed_order x v =
        e ∙ ap (λ t. record (placed_order x v) { remaining_quantity = t }) (same_value sm sq) in
      let t₂ =
        s₂
        ∙ ap (λ o. record d₁ { orders = o ∷ d₁.orders }) same_row
        ∙ ap (λ (d : Db). record d { orders = placed_order x v ∷ d.orders }) s₁ in
      let t₃ =
        s₃
        ∙ ap
            (λ (d : Db). record d {
              wallets =
                  update (λ w. w.id) wallet.id
                    (λ w. record w { available_balance = y; locked_balance = z }) d.wallets;
            })
            t₂ in
      let t₄ =
        s₄
        ∙ ap
            (λ t. record d₃ {
              entries = record (reserve_debit x wallet) { amount = t } ∷ d₃.entries;
            })
            (same_value sb sa)
        ∙ ap
            (λ (d : Db). record d {
              entries = record (reserve_debit x wallet) { amount = a } ∷ d.entries;
            })
            t₃ in
      let t₅ =
        s₅
        ∙ ap
            (λ t. record d₄ {
              entries = record (reserve_credit x wallet) { amount = t } ∷ d₄.entries;
            })
            (same_value sc sa)
        ∙ ap
            (λ (d : Db). record d {
              entries = record (reserve_credit x wallet) { amount = a } ∷ d.entries;
            })
            t₄ in
      let t₇ =
        s₇
        ∙ ap
            (λ (d : Db). record d {
              events = new_event platform x.draws.event (created_event platform x) ∷ d.events;
            })
            t₅ in
      (
        v,
        record {
          available_balance = sy;
          locked_balance = sz;
          amount = sa;
          price = sp;
          quantity = sq;
        },
        (
          ap (λ (d : Db). any? (λ p. p.id == x.draws.order_id) d.orders) (sym s₁)
              ∙ (stored_row row d₁ v same_row allowed).0,
          (stored_row row d₁ v same_row allowed).1,
        ),
        sym (ok-state k₆) ∙ sym (ok-state k₇) ∙ t₇,
        sym (ok-value k₆) ∙ ap (λ o. reservation_result x o false) same_row,
      )

-- ===== src/Db/Laws.antt =====
-- What a session that succeeded has done, step by step.
use crypto_ledger_sandbox.Prelude.{
  Bool, true, false, Option, none, some, ◌∷◌, ◌≡◌, refl, ap, arith, update, pos, leb_ℤ,
}
use crypto_ledger_sandbox.Decimal.{Decimal}
use crypto_ledger_sandbox.Models.{Uuid, Wallet, LedgerTransaction, LedgerEntry, Order, OutboxEvent}
use crypto_ledger_sandbox.Db.{
  Db, Platform, Error, data_error, Result, ok, err, Session, or_raise, raise_if, ◌>>=◌, write_if,
  non_negative, wallet_allowed, transaction_allowed, entry_allowed, order_allowed, event_allowed,
  insert_wallet, insert_transaction, insert_entry, insert_order, insert_event, set_balances,
  set_available,
}

module _ {A : Type 0} where
  pub ok-value : {a b : A} {d e : Db} → ◌≡◌ {A = Result (A × Db)} (ok (a, d)) (ok (b, e)) → a ≡ b
  ok-value h = cc

  pub ok-state : {a b : A} {d e : Db} → ◌≡◌ {A = Result (A × Db)} (ok (a, d)) (ok (b, e)) → d ≡ e
  ok-state h = cc

  -- A column's conversion answers one value.
  pub same_value : {o : Option A} {a b : A} → o ≡ some a → o ≡ some b → a ≡ b
  same_value h k = cc

  bound-ok :
      {B : Type 0} (r : Result (A × Db)) (f : A → Session B) {b : B} {db' : Db}
      → ◌≡◌ {A = Result (B × Db)} (elim r [ ok (a, db₁) ↦ f a db₁ | err e ↦ err e ]) (ok (b, db'))
      → (a : A) × (db₁ : Db) × (r ≡ ok (a, db₁)) × (f a db₁ ≡ ok (b, db'))
  bound-ok (ok (a, db₁)) f h = (a, db₁, refl, h)
  bound-ok (err e) f h = cc

  pub >>=-ok :
      {B : Type 0} (m : Session A) (f : A → Session B) (db : Db) {b : B} {db' : Db}
      → (m >>= f) db ≡ ok (b, db')
      → (a : A) × (db₁ : Db) × (m db ≡ ok (a, db₁)) × (f a db₁ ≡ ok (b, db'))
  >>=-ok m f db h = bound-ok (m db) f h

module _ {A B : Type 0} where
  -- A value that must be there, and what follows it.
  pub or_raise-bind :
      (o : Option A) (e : Error) (f : A → Session B) (db : Db) {b : B} {db' : Db}
      → (or_raise o e >>= f) db ≡ ok (b, db')
      → (x : A) × (o ≡ some x) × (f x db ≡ ok (b, db'))
  or_raise-bind none e f db h = cc
  or_raise-bind (some x) e f db h = (x, refl, h)

module _ {A B : Type 0} where
  -- A value that is there.
  pub or_raise-some :
      {o : Option A} {x : A} (e : Error) (f : A → Session B) (db : Db)
      → o ≡ some x
      → (or_raise o e >>= f) db ≡ f x db
  or_raise-some {o} e f db h = rw h

module _ {B : Type 0} where
  -- A test that fails.
  pub raise_if-false :
      {t : Bool} (e : Error) (f : Unit {0} → Session B) (db : Db)
      → t ≡ false
      → (raise_if t e >>= f) db ≡ f tt db
  raise_if-false e f db h = rw h

module _ {B : Type 0} where
  -- A test that must fail, and what follows it.
  pub raise_if-bind :
      (t : Bool) (e : Error) (f : Unit {0} → Session B) (db : Db) {b : B} {db' : Db}
      → (raise_if t e >>= f) db ≡ ok (b, db')
      → (t ≡ false) × (f tt db ≡ ok (b, db'))
  raise_if-bind true e f db h = cc
  raise_if-bind false e f db h = (refl, h)

-- A step that succeeds is followed by the rest.
pub continued :
    {A B : Type 0} (m : Session A) (f : A → Session B) (db : Db) {a : A} {db₁ : Db}
    → m db ≡ ok (a, db₁)
    → (m >>= f) db ≡ f a db₁
continued {A} {B} m f db h =
    ap
      (λ (r : Result (A × Db)). elim r as (λ _. Result (B × Db)) [
        | ok (a, d) ↦ f a d
        | err e ↦ err e
      ])
      h

-- A step that raises ends the rest.
pub stopped :
    {A B : Type 0} (m : Session A) (f : A → Session B) (db : Db) {x : Error}
    → m db ≡ err x
    → (m >>= f) db ≡ err x
stopped {A} {B} m f db h =
    ap
      (λ (r : Result (A × Db)). elim r as (λ _. Result (B × Db)) [
        | ok (a, d) ↦ f a d
        | err e ↦ err e
      ])
      h

pub write_if-ok :
    (b : Bool) (change : Db → Db) (db : Db) {u : Unit {0}} {db' : Db}
    → write_if b change db ≡ ok (u, db')
    → (b ≡ true) × (db' ≡ change db)
write_if-ok true change db h = ground arith
write_if-ok false change db h = cc

pub insert_transaction-ok :
    (t : LedgerTransaction) (db : Db) {u : Unit {0}} {db' : Db}
    → insert_transaction t db ≡ ok (u, db')
    → (transaction_allowed t db ≡ true) × (db' ≡ record db { transactions = t ∷ db.transactions })
unfolding insert_transaction
insert_transaction-ok t db h =
    write_if-ok (transaction_allowed t db) (λ d. record d { transactions = t ∷ d.transactions }) db
      h

pub insert_event-ok :
    (e : OutboxEvent) (db : Db) {u : Unit {0}} {db' : Db}
    → insert_event e db ≡ ok (u, db')
    → (event_allowed e db ≡ true) × (db' ≡ record db { events = e ∷ db.events })
unfolding insert_event
insert_event-ok e db h =
    write_if-ok (event_allowed e db) (λ d. record d { events = e ∷ d.events }) db h

module _ (platform : Platform) where
  pub insert_wallet-ok :
      (w : Wallet) (db : Db) {u : Unit {0}} {db' : Db}
      → insert_wallet platform w db ≡ ok (u, db')
      → (a l : Decimal) × (platform.store_numeric w.available_balance ≡ some a)
        × (platform.store_numeric w.locked_balance ≡ some l)
        × (wallet_allowed (record w { available_balance = a; locked_balance = l }) db ≡ true)
        × (db' ≡ record db {
          wallets = record w { available_balance = a; locked_balance = l } ∷ db.wallets;
        })
  unfolding insert_wallet
  insert_wallet-ok w db h =
      let (a, stored_a, h₁) =
        or_raise-bind (platform.store_numeric w.available_balance) data_error _ db h in
      let (l, stored_l, h₂) =
        or_raise-bind (platform.store_numeric w.locked_balance) data_error _ db h₁ in
      let row : Wallet = record w { available_balance = a; locked_balance = l } in
      let (allowed, state) =
        write_if-ok (wallet_allowed row db) (λ d. record d { wallets = row ∷ d.wallets }) db h₂ in
      (a, l, stored_a, stored_l, allowed, state)

  pub insert_entry-ok :
      (e : LedgerEntry) (db : Db) {u : Unit {0}} {db' : Db}
      → insert_entry platform e db ≡ ok (u, db')
      → (x : Decimal) × (platform.store_numeric e.amount ≡ some x)
        × (entry_allowed (record e { amount = x }) db ≡ true)
        × (db' ≡ record db { entries = record e { amount = x } ∷ db.entries })
  unfolding insert_entry
  insert_entry-ok e db h =
      let (x, stored, h₁) = or_raise-bind (platform.store_numeric e.amount) data_error _ db h in
      let row : LedgerEntry = record e { amount = x } in
      let (allowed, state) =
        write_if-ok (entry_allowed row db) (λ d. record d { entries = row ∷ d.entries }) db h₁ in
      (x, stored, allowed, state)

  pub insert_order-ok :
      (o : Order) (db : Db) {row : Order} {db' : Db}
      → insert_order platform o db ≡ ok (row, db')
      → (price quantity remaining amount : Decimal) × (platform.store_numeric o.price ≡ some price)
        × (platform.store_numeric o.quantity ≡ some quantity)
        × (platform.store_numeric o.remaining_quantity ≡ some remaining)
        × (platform.store_numeric o.reserved_amount ≡ some amount)
        × (row ≡ record o {
          price = price;
          quantity = quantity;
          remaining_quantity = remaining;
          reserved_amount = amount;
        })
        × (order_allowed row db ≡ true)
        × (db' ≡ record db { orders = row ∷ db.orders })
  unfolding insert_order
  insert_order-ok o db h =
      let (p, stored_p, h₁) = or_raise-bind (platform.store_numeric o.price) data_error _ db h in
      let (q, stored_q, h₂) =
        or_raise-bind (platform.store_numeric o.quantity) data_error _ db h₁ in
      let (m, stored_m, h₃) =
        or_raise-bind (platform.store_numeric o.remaining_quantity) data_error _ db h₂ in
      let (a, stored_a, h₄) =
        or_raise-bind (platform.store_numeric o.reserved_amount) data_error _ db h₃ in
      (p, q, m, a, stored_p, stored_q, stored_m, stored_a, ground arith, ground arith, ground arith)

  pub set_balances-ok :
      (k : Uuid) (a l : Decimal) (db : Db) {u : Unit {0}} {db' : Db}
      → set_balances platform k a l db ≡ ok (u, db')
      → (x y : Decimal) × (platform.store_numeric a ≡ some x)
        × (platform.store_numeric l ≡ some y)
        × (non_negative x y ≡ true)
        × (db' ≡ record db {
          wallets =
              update
                (λ w. w.id)
                k
                (λ w. record w { available_balance = x; locked_balance = y })
                db.wallets;
        })
  unfolding set_balances
  set_balances-ok k a l db h =
      let (x, stored_x, h₁) = or_raise-bind (platform.store_numeric a) data_error _ db h in
      let (y, stored_y, h₂) = or_raise-bind (platform.store_numeric l) data_error _ db h₁ in
      let (allowed, state) =
        write_if-ok (non_negative x y)
          (λ d. record d {
            wallets =
                update (λ w. w.id) k (λ w. record w { available_balance = x; locked_balance = y })
                  d.wallets;
          })
          db h₂ in
      (x, y, stored_x, stored_y, allowed, state)

  pub set_available-ok :
      (k : Uuid) (a : Decimal) (db : Db) {u : Unit {0}} {db' : Db}
      → set_available platform k a db ≡ ok (u, db')
      → (x : Decimal) × (platform.store_numeric a ≡ some x)
        × (leb_ℤ (pos 0) x ≡ true)
        × (db' ≡ record db {
          wallets = update (λ w. w.id) k (λ w. record w { available_balance = x }) db.wallets;
        })
  unfolding set_available
  set_available-ok k a db h =
      let (x, stored_x, h₁) = or_raise-bind (platform.store_numeric a) data_error _ db h in
      let (allowed, state) =
        write_if-ok (leb_ℤ (pos 0) x)
          (λ d. record d {
            wallets = update (λ w. w.id) k (λ w. record w { available_balance = x }) d.wallets;
          })
          db h₁ in
      (x, stored_x, allowed, state)

-- ===== src/Orders/Replay.antt =====
-- Idempotency of `create_order_reservation`: what a key answers once an order has it.
use text.Mathlib.TextPositions.{eq_refl}
use crypto_ledger_sandbox.Prelude.{
  Bool-cases, true, false, some, ◌≡◌, refl, sym, subst, ◌∙◌, ap, ◌⊎◌, inl, inr, find?, ◌||◌, pos,
  leb_ℤ, ◌∷◌, ◌+◌, pos_part, neg_part, ==_refl,
}
use crypto_ledger_sandbox.Decimal.{Decimal}
use crypto_ledger_sandbox.Models.{Order, Wallet}
use crypto_ledger_sandbox.Db.{Db, Platform, Session, ok, ◌>>=◌, order_asset_not_found, value_error}
use crypto_ledger_sandbox.Db.Laws.{or_raise-some, raise_if-false, same_value}
use crypto_ledger_sandbox.Ledger.{active_with_code}
use crypto_ledger_sandbox.Orders.{
  OrderReservationResult, OrderCall, OrderDraws, Reservation, reservation_of, amount_of, same_order,
  is_order_of, validated, validate_replay, replayed_or, reserve_funds, active_asset,
  reservation_amount, existing_order_replay, create_order_reservation, reservation_result,
  place_order,
}
use crypto_ledger_sandbox.Orders.Outcomes.{
  IsAdmitted, IsReplay, IsPlacing, create_order_reservation-outcome,
}
use crypto_ledger_sandbox.Orders.Placed.{Stored, IsStored, placed_order, place_order-placed}
use crypto_ledger_sandbox.Orders.Keys.{
  side_eq_refl, key_answer, IsKeyAnswer, key_answer-IsKeyAnswer,
}

module _ (call : OrderCall) (x : Reservation) (rest : Session OrderReservationResult) (db : Db)
    (order : Order) where
  validated-known :
      (validated (some order) x.base_asset x.quote_asset x.call >>= λ replay.
      replayed_or x replay rest)
        db
      ≡ key_answer order x db
  unfolding validated validate_replay
  validated-known = elim (Bool-cases (same_order order x.base_asset x.quote_asset x.call)) [
    | inl same ↦ rw same
    | inr other ↦ rw other
  ]

  pub existing-known :
      find? (is_order_of x.call.user_id x.call.idempotency_key) db.orders ≡ some order
      → (existing_order_replay x.base_asset x.quote_asset x.call >>= λ replay.
            replayed_or x replay rest)
          db
        ≡ key_answer order x db
  unfolding existing_order_replay
  existing-known e =
      subst
        (λ o.
          (validated o x.base_asset x.quote_asset x.call >>= λ replay. replayed_or x replay rest) db
          ≡ key_answer order x db)
        (sym e) validated-known

pub reservation_amount-positive :
    {B : Type 0} (call : OrderCall) (f : Decimal → Session B) (db : Db)
    → (leb_ℤ call.price (pos 0) || leb_ℤ call.quantity (pos 0)) ≡ false
    → (reservation_amount call.side call.price call.quantity >>= f) db
      ≡ f (amount_of call.side call.price call.quantity) db
unfolding reservation_amount
reservation_amount-positive call f db h = rw h

-- A key that an order has: the call replays that order, or conflicts with it.
pub known_key :
    (platform : Platform) (draws : OrderDraws) (call : OrderCall) (db : Db) (x : Reservation)
    (order : Order)
    → IsAdmitted draws call db x
    → find? (is_order_of call.user_id call.idempotency_key) db.orders ≡ some order
    → create_order_reservation platform draws call db ≡ key_answer order x db
unfolding create_order_reservation active_asset
known_key platform draws call db x order a e =
    let y =
      reservation_of draws call x.base_asset x.quote_asset
        (amount_of call.side call.price call.quantity) in
    or_raise-some order_asset_not_found _ db a.base
    ∙ or_raise-some order_asset_not_found _ db a.quote
    ∙ raise_if-false (value_error "Base and quote assets must be different.") _ db a.distinct
    ∙ reservation_amount-positive call _ db a.positive
    ∙ existing-known call y (reserve_funds platform y) db order e
    ∙ ap (λ z. key_answer order z db) (sym a.shape)

module _ (platform : Platform) (draws : OrderDraws) (call : OrderCall) (db db' : Db)
    (r : OrderReservationResult) where
  placed-key :
      (x : Reservation) (v : Stored)
      → find? (is_order_of x.call.user_id x.call.idempotency_key) (placed_order x v ∷ db.orders)
        ≡ some (placed_order x v)
  unfolding find?
  placed-key x v = rw (==_refl x.call.user_id, eq_refl x.call.idempotency_key)

  answered-key :
      (x : Reservation)
      → (IsReplay db x r × (db' ≡ db))
        ⊎ ((wallet : Wallet) × IsPlacing platform db x wallet
            × (place_order platform x wallet db ≡ ok (r, db')))
      → find? (is_order_of x.call.user_id x.call.idempotency_key) db'.orders ≡ some r.order
  answered-key x (inl (old, same)) =
      ap (λ d. find? (is_order_of x.call.user_id x.call.idempotency_key) d.orders) same ∙ old.order
  answered-key x (inr (wallet, ready, h)) =
      let (v, stored, _, state, answer) = place_order-placed platform x wallet db db' r h in
      ap (λ d. find? (is_order_of x.call.user_id x.call.idempotency_key) d.orders) state
      ∙ placed-key x v
      ∙ ap (λ q. some q.order) (sym answer)

  -- After a success the key leads to the order of the answer.
  pub order-recorded :
      create_order_reservation platform draws call db ≡ ok (r, db')
      → find? (is_order_of call.user_id call.idempotency_key) db'.orders ≡ some r.order
  order-recorded h =
      let (x, a, outcome) = create_order_reservation-outcome platform draws call db db' r h in
      subst
        (λ y. find? (is_order_of y.call.user_id y.call.idempotency_key) db'.orders ≡ some r.order)
        a.shape (answered-key x outcome)

pub key_again :
    (platform : Platform) (draws draws' : OrderDraws) (call call' : OrderCall) (db db' : Db)
    (r : OrderReservationResult) (x' : Reservation)
    → create_order_reservation platform draws call db ≡ ok (r, db')
    → call'.user_id ≡ call.user_id
    → call'.idempotency_key ≡ call.idempotency_key
    → IsAdmitted draws' call' db' x'
    → create_order_reservation platform draws' call' db' ≡ key_answer r.order x' db'
key_again platform draws draws' call call' db db' r x' h same_user same_key a =
    known_key platform draws' call' db' x' r.order a
      (rw (same_user, same_key) (order-recorded platform draws call db db' r h))

-- Once a call of `create_order_reservation` has succeeded, a call of the same user with the same
-- key on the database it left, whatever it draws, if its assets are active and distinct and its
-- price and quantity positive, answers the first call's order as a replay and changes nothing,
-- and the base asset, the quote asset, the side, the price and the quantity are all equal to the
-- order's, or raises the conflict, and not all of them are.
pub create_order_reservation-key_reuse :
    (platform : Platform) (draws draws' : OrderDraws) (call call' : OrderCall) (db db' : Db)
    (r : OrderReservationResult) (x' : Reservation)
    → create_order_reservation platform draws call db ≡ ok (r, db')
    → call'.user_id ≡ call.user_id
    → call'.idempotency_key ≡ call.idempotency_key
    → IsAdmitted draws' call' db' x'
    → IsKeyAnswer r.order x' db' (create_order_reservation platform draws' call' db')
create_order_reservation-key_reuse platform draws draws' call call' db db' r x' h same_user same_key
      a =
    subst (IsKeyAnswer r.order x' db')
      (sym (key_again platform draws draws' call call' db db' r x' h same_user same_key a))
      (key_answer-IsKeyAnswer r.order x' db')

module _ (platform : Platform) (draws draws' : OrderDraws) (call : OrderCall) (db db' : Db)
    (r : OrderReservationResult) where
  placed-same :
      (x : Reservation) (wallet : Wallet) (v : Stored)
      → IsStored platform x wallet v
      → platform.store_numeric x.call.price ≡ some x.call.price
      → platform.store_numeric x.call.quantity ≡ some x.call.quantity
      → same_order (placed_order x v) x.base_asset x.quote_asset x.call ≡ true
  placed-same x wallet v s p q = rw (
    same_value s.price p,
    same_value s.quantity q,
    ==_refl x.base_asset.id,
    ==_refl x.quote_asset.id,
    side_eq_refl x.call.side,
    ==_refl (pos_part x.call.price + neg_part x.call.price),
    ==_refl (pos_part x.call.quantity + neg_part x.call.quantity),
  )

  same_answer :
      (y : Reservation)
      → same_order r.order y.base_asset y.quote_asset y.call ≡ true
      → key_answer r.order y db' ≡ ok (reservation_result y r.order true, db')
  same_answer y same = rw same

  again :
      (x : Reservation)
      → platform.store_numeric x.call.price ≡ some x.call.price
      → platform.store_numeric x.call.quantity ≡ some x.call.quantity
      → (IsReplay db x r × (db' ≡ db))
        ⊎ ((wallet : Wallet) × IsPlacing platform db x wallet
            × (place_order platform x wallet db ≡ ok (r, db')))
      → (db'.assets ≡ db.assets)
        × (same_order r.order x.base_asset x.quote_asset x.call ≡ true)
        × (record r { replayed = true } ≡ reservation_result x r.order true)
  again x p q (inl (old, same)) = (
    ap (λ d. d.assets) same,
    old.same,
    ap (λ (s : OrderReservationResult). record s { replayed = true }) old.answer,
  )
  again x p q (inr (wallet, ready, h)) =
      let (v, stored, _, state, answer) = place_order-placed platform x wallet db db' r h in
      (
        ap (λ d. d.assets) state,
        subst (λ s. same_order s.order x.base_asset x.quote_asset x.call ≡ true) (sym answer)
            (placed-same x wallet v stored p q),
        ap (λ (s : OrderReservationResult). record s { replayed = true }) answer
            ∙ ap (λ (o : Order). reservation_result x o true)
                (sym (ap (λ (s : OrderReservationResult). s.order) answer)),
      )

  -- If the columns hold the price and the quantity as they are and `create_order_reservation`
  -- has succeeded, the same call made on the database it left, with any draws, succeeds with the
  -- same answer marked as a replay and changes nothing.
  pub create_order_reservation_idempotent :
      platform.store_numeric call.price ≡ some call.price
      → platform.store_numeric call.quantity ≡ some call.quantity
      → create_order_reservation platform draws call db ≡ ok (r, db')
      → create_order_reservation platform draws' call db' ≡ ok (record r { replayed = true }, db')
  create_order_reservation_idempotent p q h =
      let (x, a, outcome) = create_order_reservation-outcome platform draws call db db' r h in
      let amount = amount_of call.side call.price call.quantity in
      let y = reservation_of draws call x.base_asset x.quote_asset amount in
      let (assets, same, answer) = again y p q (
        subst
          (λ z.
            (IsReplay db z r × (db' ≡ db))
            ⊎ ((wallet : Wallet) × IsPlacing platform db z wallet
                × (place_order platform z wallet db ≡ ok (r, db'))))
          a.shape outcome) in
      let y' = reservation_of draws' call x.base_asset x.quote_asset amount in
      let admitted : IsAdmitted draws' call db' y' = record {
        base = ap (find? (active_with_code call.base_asset_code)) assets ∙ a.base;
        quote = ap (find? (active_with_code call.quote_asset_code)) assets ∙ a.quote;
        distinct = a.distinct;
        positive = a.positive;
        shape = refl;
      } in
      key_again platform draws draws' call call db db' r y' h refl refl admitted
      ∙ same_answer y' same
      ∙ ap (λ (s : OrderReservationResult). ok (s, db')) (sym answer)

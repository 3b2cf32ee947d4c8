-- ===== src/Orders/Keys.antt =====
-- What a call of `create_order_reservation` answers whose key an order has.
use crypto_ledger_sandbox.Prelude.{
  Bool, Bool-cases, true, false, ◌&&◌, ◌≡◌, eqb_ℤ, negsuc, ==_iff, arith, refl, ap, ◌⊎◌, inl, inr,
  if◌then◌else◌, pos, ◌+◌, pos_part, neg_part, ==_refl,
}
use crypto_ledger_sandbox.Decimal.{Decimal}
use crypto_ledger_sandbox.Models.{Order, OrderSide, buy, sell, side_eq}
use crypto_ledger_sandbox.Db.{Db, Result, ok, err, order_idempotency_conflict}
use crypto_ledger_sandbox.Orders.{
  OrderReservationResult, Reservation, same_order, reservation_result,
}

pub side_eq_refl : (s : OrderSide) → side_eq s s ≡ true
side_eq_refl buy = refl
side_eq_refl sell = refl

-- The order has the data of the reservation's call.
pub record HasData (order : Order) (x : Reservation) : Type 0 where
  pub base : order.base_asset_id ≡ x.base_asset.id
  pub quote : order.quote_asset_id ≡ x.quote_asset.id
  pub side : order.side ≡ x.call.side
  pub price : order.price ≡ x.call.price
  pub quantity : order.quantity ≡ x.call.quantity

eqb_ℤ-same : (a b : Decimal) → eqb_ℤ a b ≡ true → a ≡ b
eqb_ℤ-same (pos m) (pos n) h = ap pos (ground arith)
eqb_ℤ-same (pos m) (negsuc n) h = absurd (ground arith)
eqb_ℤ-same (negsuc m) (pos n) h = absurd (ground arith)
eqb_ℤ-same (negsuc m) (negsuc n) h = ap negsuc (ground arith)

pub eqb_ℤ_refl : (a : Decimal) → eqb_ℤ a a ≡ true
eqb_ℤ_refl a = ==_refl (pos_part a + neg_part a)

differs : {b : Bool} → b ≡ true → b ≡ false → ⊥
differs h k = cc

side_eq-same : (s t : OrderSide) → side_eq s t ≡ true → s ≡ t
side_eq-same buy buy h = refl
side_eq-same buy sell h = cc
side_eq-same sell buy h = cc
side_eq-same sell sell h = refl

five :
    (p q r s t : Bool)
    → (p && q && r && s && t) ≡ true
    → (p ≡ true) × (q ≡ true) × (r ≡ true) × (s ≡ true) × (t ≡ true)
five p q r s t h = (ground arith, ground arith, ground arith, ground arith, ground arith)

same_order-HasData :
    (order : Order) (x : Reservation)
    → same_order order x.base_asset x.quote_asset x.call ≡ true
    → HasData order x
same_order-HasData order x h =
    let (base, quote, side, price, quantity) = five _ _ _ _ _ h in
    record {
      base = (==_iff order.base_asset_id x.base_asset.id).0 base;
      quote = (==_iff order.quote_asset_id x.quote_asset.id).0 quote;
      side = side_eq-same order.side x.call.side side;
      price = eqb_ℤ-same order.price x.call.price price;
      quantity = eqb_ℤ-same order.quantity x.call.quantity quantity;
    }

HasData-same_order :
    (order : Order) (x : Reservation)
    → HasData order x
    → same_order order x.base_asset x.quote_asset x.call ≡ true
HasData-same_order order x d =
    rw
      (
        d.base,
        d.quote,
        d.side,
        d.price,
        d.quantity,
        ==_refl x.base_asset.id,
        ==_refl x.quote_asset.id,
        side_eq_refl x.call.side,
        eqb_ℤ_refl x.call.price,
        eqb_ℤ_refl x.call.quantity,
      )
      refl

-- The answer to a call whose key an order has.
abbrev pub key_answer : Order → Reservation → Db → Result (OrderReservationResult × Db)
key_answer order x db =
    if same_order order x.base_asset x.quote_asset x.call
    then ok (reservation_result x order true, db)
    else err order_idempotency_conflict

-- What the call answers if the order has its data, and if not.
abbrev pub IsKeyAnswer : Order → Reservation → Db → Result (OrderReservationResult × Db) → Type 0
IsKeyAnswer order x db answer =
    (HasData order x
      × ((r : OrderReservationResult) × (answer ≡ ok (r, db))
          × (r.order ≡ order)
          × (r.replayed ≡ true)))
    ⊎ ((¬ HasData order x) × (answer ≡ err order_idempotency_conflict))

pub key_answer-IsKeyAnswer :
    (order : Order) (x : Reservation) (db : Db) → IsKeyAnswer order x db (key_answer order x db)
key_answer-IsKeyAnswer order x db =
    elim (Bool-cases (same_order order x.base_asset x.quote_asset x.call)) [
      | inl same ↦ inl (
        same_order-HasData order x same,
        (reservation_result x order true, rw same refl, refl, refl),
      )
      | inr other ↦ inr (λ d. differs (HasData-same_order order x d) other, rw other refl)
    ]

-- ===== src/Orders/Outcomes.antt =====
-- The two ways in which `create_order_reservation` succeeds.
use crypto_ledger_sandbox.Prelude.{
  Bool-cases, true, false, Option, none, some, ◌≡◌, refl, sym, subst, ◌⊎◌, inl, inr, pos, leb_ℤ,
  ltb_ℤ, ◌||◌, ◌==◌, find?, arith, String,
}
use crypto_ledger_sandbox.Decimal.{Decimal}
use crypto_ledger_sandbox.Models.{Asset, Wallet, Order}
use crypto_ledger_sandbox.Db.{
  Db, Platform, Session, ok, pure, ◌>>=◌, order_asset_not_found, value_error,
}
use crypto_ledger_sandbox.Db.Laws.{or_raise-bind, raise_if-bind, ok-state, ok-value}
use crypto_ledger_sandbox.Ledger.{active_with_code, is_user_wallet}
use crypto_ledger_sandbox.Orders.{
  OrderReservationResult, OrderCall, OrderDraws, Reservation, reservation_of, amount_of, same_order,
  is_order_of, active_asset, reservation_amount, existing_order_replay, validated, validate_replay,
  covering, replayed_or, reserve_funds, place_order, create_order_reservation, reservation_result,
}

module _ {B : Type 0} (base_asset quote_asset : Asset) (call : OrderCall)
    (f : Option Order → Session B) (db : Db) {b : B} {db' : Db} where
  validated-bind :
      (o : Option Order)
      → (validated o base_asset quote_asset call >>= f) db ≡ ok (b, db')
      → ((o ≡ none) × (f none db ≡ ok (b, db')))
        ⊎ ((order : Order) × (o ≡ some order)
            × (same_order order base_asset quote_asset call ≡ true)
            × (f (some order) db ≡ ok (b, db')))
  unfolding validated validate_replay
  validated-bind none h = inl (refl, h)
  validated-bind (some order) h = elim (Bool-cases (same_order order base_asset quote_asset call)) [
    | inl same ↦ inr (order, refl, same, ground arith)
    | inr other ↦ absurd (ground arith)
  ]

  replay-bind :
      (existing_order_replay base_asset quote_asset call >>= f) db ≡ ok (b, db')
      → ((find? (is_order_of call.user_id call.idempotency_key) db.orders ≡ none)
          × (f none db ≡ ok (b, db')))
        ⊎ ((order : Order) × (find? (is_order_of call.user_id call.idempotency_key) db.orders
              ≡ some order)
            × (same_order order base_asset quote_asset call ≡ true)
            × (f (some order) db ≡ ok (b, db')))
  unfolding existing_order_replay
  replay-bind h = validated-bind (find? (is_order_of call.user_id call.idempotency_key) db.orders) h

-- What the checks have established: the assets of the call, its positive numbers, and the amount.
pub record IsAdmitted (draws : OrderDraws) (call : OrderCall) (db : Db) (x : Reservation)
    : Type 0 where
  pub base : find? (active_with_code call.base_asset_code) db.assets ≡ some x.base_asset
  pub quote : find? (active_with_code call.quote_asset_code) db.assets ≡ some x.quote_asset
  pub distinct : (x.base_asset.id == x.quote_asset.id) ≡ false
  pub positive : (leb_ℤ call.price (pos 0) || leb_ℤ call.quantity (pos 0)) ≡ false
  pub shape :
      x
      ≡ reservation_of draws call x.base_asset x.quote_asset
          (amount_of call.side call.price call.quantity)

-- The reservation goes to `place_order`: no order has the key, and the wallet covers the amount.
pub record IsPlacing (platform : Platform) (db : Db) (x : Reservation) (wallet : Wallet)
    : Type 0 where
  pub unused : find? (is_order_of x.call.user_id x.call.idempotency_key) db.orders ≡ none
  pub wallet_found :
      find? (is_user_wallet x.call.user_id x.reserve_asset.id) db.wallets ≡ some wallet
  pub covered : ltb_ℤ wallet.available_balance x.reserved_amount ≡ false

-- The call answers an order that has its key and its data.
pub record IsReplay (db : Db) (x : Reservation) (r : OrderReservationResult) : Type 0 where
  pub order : find? (is_order_of x.call.user_id x.call.idempotency_key) db.orders ≡ some r.order
  pub same : same_order r.order x.base_asset x.quote_asset x.call ≡ true
  pub answer : r ≡ reservation_result x r.order true

module _ (platform : Platform) (x : Reservation) (db db' : Db) (r : OrderReservationResult) where
  covering-bind :
      (found : Option Wallet) (f : Wallet → Session OrderReservationResult)
      → (covering x found >>= f) db ≡ ok (r, db')
      → (wallet : Wallet) × (found ≡ some wallet)
        × (ltb_ℤ wallet.available_balance x.reserved_amount ≡ false)
        × (f wallet db ≡ ok (r, db'))
  covering-bind none f h = cc
  covering-bind (some wallet) f h =
      elim (Bool-cases (ltb_ℤ wallet.available_balance x.reserved_amount)) [
        | inl short ↦ absurd (ground arith)
        | inr enough ↦ (wallet, refl, enough, ground arith)
      ]

  replayed_outcome :
      (order : Order)
      → find? (is_order_of x.call.user_id x.call.idempotency_key) db.orders ≡ some order
      → same_order order x.base_asset x.quote_asset x.call ≡ true
      → pure (reservation_result x order true) db ≡ ok (r, db')
      → IsReplay db x r × (db' ≡ db)
  replayed_outcome order old same h = (
    subst (IsReplay db x) (ok-value h) (record { order = old; same = same; answer = refl }),
    sym (ok-state h),
  )

  pub reserve_funds-outcome :
      reserve_funds platform x db ≡ ok (r, db')
      → (IsReplay db x r × (db' ≡ db))
        ⊎ ((wallet : Wallet) × IsPlacing platform db x wallet
            × (place_order platform x wallet db ≡ ok (r, db')))
  unfolding reserve_funds
  reserve_funds-outcome h =
      let (wallet, found, enough, k) =
        covering-bind (find? (is_user_wallet x.call.user_id x.reserve_asset.id) db.wallets) _ h in
      elim (replay-bind x.base_asset x.quote_asset x.call
        (λ replay. replayed_or x replay (place_order platform x wallet)) db k) [
          | inl (unused, rest) ↦
              inr (wallet, record { unused = unused; wallet_found = found; covered = enough }, rest)
          | inr (order, old, same, rest) ↦ inl (replayed_outcome order old same rest)
        ]

pub active_asset-bind :
    {B : Type 0} (asset_code : String) (f : Asset → Session B) (db : Db) {b : B} {db' : Db}
    → (active_asset asset_code >>= f) db ≡ ok (b, db')
    → (asset : Asset) × (find? (active_with_code asset_code) db.assets ≡ some asset)
      × (f asset db ≡ ok (b, db'))
unfolding active_asset
active_asset-bind asset_code f db h =
    or_raise-bind (find? (active_with_code asset_code) db.assets) order_asset_not_found f db h

pub reservation_amount-bind :
    {B : Type 0} (call : OrderCall) (f : Decimal → Session B) (db : Db) {b : B} {db' : Db}
    → (reservation_amount call.side call.price call.quantity >>= f) db ≡ ok (b, db')
    → ((leb_ℤ call.price (pos 0) || leb_ℤ call.quantity (pos 0)) ≡ false)
      × (f (amount_of call.side call.price call.quantity) db ≡ ok (b, db'))
unfolding reservation_amount
reservation_amount-bind call f db h =
    elim (Bool-cases (leb_ℤ call.price (pos 0) || leb_ℤ call.quantity (pos 0))) [
      | inl bad ↦ absurd (ground arith)
      | inr good ↦ (good, ground arith)
    ]

-- If `create_order_reservation` succeeds, its assets are active and distinct and its price and
-- quantity positive, and either the key's order has the call's data, the answer is that order as
-- a replay and nothing changes, or the key is new, the user's wallet in the reserved asset
-- covers the amount, and the order is placed.
pub create_order_reservation-outcome :
    (platform : Platform) (draws : OrderDraws) (call : OrderCall) (db db' : Db)
    (r : OrderReservationResult)
    → create_order_reservation platform draws call db ≡ ok (r, db')
    → (x : Reservation) × IsAdmitted draws call db x
      × ((IsReplay db x r × (db' ≡ db))
          ⊎ ((wallet : Wallet) × IsPlacing platform db x wallet
              × (place_order platform x wallet db ≡ ok (r, db'))))
unfolding create_order_reservation
create_order_reservation-outcome platform draws call db db' r h =
    let (base, b, h₁) = active_asset-bind call.base_asset_code _ db h in
    let (quote, q, h₂) = active_asset-bind call.quote_asset_code _ db h₁ in
    let (distinct, h₃) =
      raise_if-bind (base.id == quote.id) (value_error "Base and quote assets must be different.") _
        db h₂ in
    let (positive, h₄) = reservation_amount-bind call _ db h₃ in
    let x : Reservation =
      reservation_of draws call base quote (amount_of call.side call.price call.quantity) in
    (
      x,
      record { base = b; quote = q; distinct = distinct; positive = positive; shape = refl },
      elim (replay-bind base quote call (λ replay. replayed_or x replay (reserve_funds platform x))
          db h₄) [
            | inl (unused, rest) ↦ reserve_funds-outcome platform x db db' r rest
            | inr (order, old, same, rest) ↦
                inl (replayed_outcome platform x db db' r order old same rest)
          ],
    )

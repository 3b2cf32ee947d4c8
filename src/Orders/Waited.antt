-- ===== src/Orders/Waited.antt =====
-- A reservation that has waited for the lock on the wallet while another placed the order of its key.
use crypto_ledger_sandbox.Prelude.{
  Bool-cases, true, false, some, ◌≡◌, refl, sym, ◌∙◌, ◌⊎◌, inl, inr, if◌then◌else◌, ltb_ℤ, find?,
}
use crypto_ledger_sandbox.Models.{Wallet, Order}
use crypto_ledger_sandbox.Db.{Db, Platform, ok, err, insufficient_available_balance}
use crypto_ledger_sandbox.Ledger.{is_user_wallet}
use crypto_ledger_sandbox.Orders.{
  Reservation, OrderDraws, OrderReservationResult, is_order_of, place_order, reserve_funds,
  create_order_reservation,
}
use crypto_ledger_sandbox.Orders.Outcomes.{IsAdmitted}
use crypto_ledger_sandbox.Orders.Keys.{key_answer}
use crypto_ledger_sandbox.Orders.Replay.{
  existing-known, known_key, order-recorded, create_order_reservation_idempotent,
}

reserve_funds-known :
    (platform : Platform) (x : Reservation) (db : Db) (wallet : Wallet) (order : Order)
    → find? (is_user_wallet x.call.user_id x.reserve_asset.id) db.wallets ≡ some wallet
    → find? (is_order_of x.call.user_id x.call.idempotency_key) db.orders ≡ some order
    → reserve_funds platform x db ≡ (
        if ltb_ℤ wallet.available_balance x.reserved_amount
        then err insufficient_available_balance
        else key_answer order x db)
unfolding reserve_funds
reserve_funds-known platform x db wallet order found known =
    elim (Bool-cases (ltb_ℤ wallet.available_balance x.reserved_amount)) [
      | inl short ↦ rw (found, short) refl
      | inr enough ↦
          rw (found, enough)
            (existing-known x.call x (place_order platform x wallet) db order known)
    ]

module _ (platform : Platform) (draws : OrderDraws) (db db' : Db) (r : OrderReservationResult)
    (x : Reservation) (wallet : Wallet) where
  -- If the columns hold the price and the quantity of a call exactly, the call has succeeded,
  -- and a session with the same call passes the validation and finds its wallet, then from the
  -- lock on, as when it waited for it, the session answers what the call answered, as a replay,
  -- and changes nothing if the wallet still covers the amount that the session wants to reserve,
  -- and raises insufficient balance if it does not.
  pub reserve_funds-raced :
      platform.store_numeric x.call.price ≡ some x.call.price
      → platform.store_numeric x.call.quantity ≡ some x.call.quantity
      → create_order_reservation platform draws x.call db ≡ ok (r, db')
      → IsAdmitted x.draws x.call db' x
      → find? (is_user_wallet x.call.user_id x.reserve_asset.id) db'.wallets ≡ some wallet
      → ((ltb_ℤ wallet.available_balance x.reserved_amount ≡ false)
          × (reserve_funds platform x db' ≡ ok (record r { replayed = true }, db')))
        ⊎ ((ltb_ℤ wallet.available_balance x.reserved_amount ≡ true)
            × (reserve_funds platform x db' ≡ err insufficient_available_balance))
  reserve_funds-raced price quantity placed admitted found =
      let known = order-recorded platform draws x.call db db' r placed in
      let late = reserve_funds-known platform x db' wallet r.order found known in
      elim (Bool-cases (ltb_ℤ wallet.available_balance x.reserved_amount)) [
        | inl short ↦ inr (short, late ∙ rw short refl)
        | inr enough ↦ inl (
          enough,
          late
              ∙ rw enough refl
              ∙ sym (known_key platform x.draws x.call db' x r.order admitted known)
              ∙ create_order_reservation_idempotent platform draws x.draws x.call db db' r price
                  quantity placed,
        )
      ]

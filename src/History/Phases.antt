-- ===== src/History/Phases.antt =====
-- The two phases of a funding and of a reservation in app/services: what it reads before it takes a
-- lock, and what it does from the lock on. Another session may commit between them.
use crypto_ledger_sandbox.Prelude.{
  true, Option, none, some, ◌≡◌, refl, sym, ap, ◌∙◌, ◌⊎◌, inl, inr, pos, leb_ℤ, ◌==◌, find?,
}
use crypto_ledger_sandbox.Models.{Order}
use crypto_ledger_sandbox.Db.{
  Db, Platform, Session, ok, err, value_error, asset_not_found, pure, raise_if, select, or_raise,
  return_or, ◌>>=◌, ◌>>◌,
}
use crypto_ledger_sandbox.Db.Laws.{continued, stopped}
use crypto_ledger_sandbox.Ledger.{
  Funding, FundingCall, FundingDraws, FundingResult, active_with_code, find_funding_replay,
  fund_from_treasury, post_sandbox_funding,
}
use crypto_ledger_sandbox.Orders.{
  OrderCall, OrderDraws, OrderReservationResult, Reservation, reservation_of, reservation_result,
  reservation_amount, active_asset, existing_order_replay, replayed_or, reserve_funds,
  create_order_reservation,
}
use crypto_ledger_sandbox.Api.Repeats.{Result-cases}

abbrev pub answer_or : {A B : Type 0} → Option A → B → A ⊎ B
answer_or none b = inr b
answer_or (some a) b = inl a

-- A replay's answer, or the locals with which the funding goes on.
unfoldable pub read_funding : FundingDraws → FundingCall → Session (FundingResult ⊎ Funding)
read_funding draws call = do
  raise_if (leb_ℤ call.amount (pos 0)) (value_error "Funding amount must be greater than zero.")
  found ← select (λ db. find? (active_with_code call.asset_code) db.assets)
  asset ← or_raise found asset_not_found
  replay ← find_funding_replay call asset
  pure (answer_or replay (record { call = call; draws = draws; asset = asset }))

abbrev pub replay_or : Reservation → Option Order → OrderReservationResult ⊎ Reservation
replay_or x none = inr x
replay_or x (some order) = inl (reservation_result x order true)

-- A replay's answer, or the locals with which the reservation goes on.
unfoldable pub read_order : OrderDraws → OrderCall → Session (OrderReservationResult ⊎ Reservation)
read_order draws call = do
  base_asset ← active_asset call.base_asset_code
  quote_asset ← active_asset call.quote_asset_code
  raise_if (base_asset.id == quote_asset.id)
      (value_error "Base and quote assets must be different.")
  reserved_amount ← reservation_amount call.side call.price call.quantity
  let x : Reservation = reservation_of draws call base_asset quote_asset reserved_amount
  replay ← existing_order_replay base_asset quote_asset call
  pure (replay_or x replay)

abbrev pub go_on : {A B : Type 0} → (B → Session A) → A ⊎ B → Session A
go_on rest (inl a) = pure a
go_on rest (inr b) = rest b

go_on-answer_or :
    {A B : Type 0} (o : Option A) (b : B) (rest : B → Session A) (db : Db)
    → go_on rest (answer_or o b) db ≡ return_or o (rest b) db
go_on-answer_or none b rest db = refl
go_on-answer_or (some a) b rest db = refl

go_on-replay_or :
    (o : Option Order) (x : Reservation) (rest : Reservation → Session OrderReservationResult)
    (db : Db)
    → go_on rest (replay_or x o) db ≡ replayed_or x o (rest x) db
go_on-replay_or none x rest db = refl
go_on-replay_or (some order) x rest db = refl

-- A session is a phase and the rest.
record IsSplit {A B : Type 0} (whole : Session B) (phase : Session A) (rest : A → Session B)
    : Type 0 where
  same : (db : Db) → whole db ≡ (phase >>= rest) db

-- A step that both the phase and the whole begin with.
phased :
    {A B C : Type 0} (m : Session A) {whole : A → Session C} {phase : A → Session B}
    {rest : B → Session C}
    → ((a : A) → IsSplit (whole a) (phase a) rest)
    → IsSplit (m >>= whole) (m >>= phase) rest
phased m {whole} {phase} {rest} h = record {
  same = λ db. elim (Result-cases (m db)) [
    | inl ((a, d), e) ↦
        let begun = continued m phase db e in
        continued m whole db e
        ∙ (h a).same d
        ∙ ap (λ r. elim r [ ok (b, d') ↦ rest b d' | err x ↦ err x ]) (sym begun)
    | inr (x, e) ↦ stopped m whole db e ∙ sym (stopped (m >>= phase) rest db (stopped m phase db e))
  ];
}

-- The phase ends by what it hands on.
handed_on :
    {A B : Type 0} (a : A) {whole : Session B} {rest : A → Session B}
    → ((db : Db) → rest a db ≡ whole db)
    → IsSplit whole (pure a) rest
handed_on a h = record { same = λ db. sym (h db) }

module _ (platform : Platform) where
  funding-IsSplit :
      (draws : FundingDraws) (call : FundingCall)
      → IsSplit
          (post_sandbox_funding platform draws call)
          (read_funding draws call)
          (go_on (fund_from_treasury platform))
  unfolding post_sandbox_funding read_funding
  funding-IsSplit draws call =
      phased
        (raise_if (leb_ℤ call.amount (pos 0))
          (value_error "Funding amount must be greater than zero."))
        (λ _. phased (select (λ db. find? (active_with_code call.asset_code) db.assets)) (λ found.
          phased (or_raise found asset_not_found) (λ asset.
            phased (find_funding_replay call asset) (λ replay.
              let x : Funding = record { call = call; draws = draws; asset = asset } in
              handed_on (answer_or replay x)
                (λ db. go_on-answer_or replay x (fund_from_treasury platform) db)))))

  -- The phases one after the other are the whole funding.
  pub post_sandbox_funding-read_funding :
      (draws : FundingDraws) (call : FundingCall) (db : Db)
      → post_sandbox_funding platform draws call db
        ≡ (read_funding draws call >>= go_on (fund_from_treasury platform)) db
  post_sandbox_funding-read_funding draws call db = (funding-IsSplit draws call).same db

  order-IsSplit :
      (draws : OrderDraws) (call : OrderCall)
      → IsSplit
          (create_order_reservation platform draws call)
          (read_order draws call)
          (go_on (reserve_funds platform))
  unfolding create_order_reservation read_order
  order-IsSplit draws call = phased (active_asset call.base_asset_code) (λ base_asset.
      phased (active_asset call.quote_asset_code) (λ quote_asset.
        phased
          (raise_if (base_asset.id == quote_asset.id)
            (value_error "Base and quote assets must be different."))
          (λ _. phased (reservation_amount call.side call.price call.quantity) (λ reserved_amount.
            phased (existing_order_replay base_asset quote_asset call) (λ replay.
              let x : Reservation =
                reservation_of draws call base_asset quote_asset reserved_amount in
              handed_on (replay_or x replay)
                (λ db. go_on-replay_or replay x (reserve_funds platform) db))))))

  -- The phases one after the other are the whole reservation.
  pub create_order_reservation-read_order :
      (draws : OrderDraws) (call : OrderCall) (db : Db)
      → create_order_reservation platform draws call db
        ≡ (read_order draws call >>= go_on (reserve_funds platform)) db
  create_order_reservation-read_order draws call db = (order-IsSplit draws call).same db

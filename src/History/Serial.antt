-- ===== src/History/Serial.antt =====
-- The second phase of a funding and of a reservation, whatever has been committed since the first.
use crypto_ledger_sandbox.Prelude.{
  true, false, Option, Option-cases, none, some, ◌≡◌, refl, sym, ap, ◌∙◌, inl, inr, pos, leb_ℤ,
  ltb_ℤ, find?, find?-none, arith,
}
use crypto_ledger_sandbox.Models.{Asset, Order, LedgerTransaction}
use crypto_ledger_sandbox.Db.{
  Db, Platform, Session, Error, ok, err, run, rolled_back, value_error, order_asset_not_found,
  treasury_not_initialized, insufficient_treasury_balance, return_or, transaction_allowed,
  insert_transaction,
}
use crypto_ledger_sandbox.Db.Laws.{
  continued, >>=-ok, or_raise-bind, or_raise-some, raise_if-bind, raise_if-false,
  insert_transaction-ok,
}
use crypto_ledger_sandbox.Ledger.{
  Funding, FundingCall, FundingDraws, funding_result, FundingResult, with_key, active_with_code,
  is_treasury, is_user_wallet, replay_of, find_funding_replay, wallet_or_opened,
  funding_transaction, post_transfer, fund_from_treasury, post_sandbox_funding,
}
use crypto_ledger_sandbox.Ledger.Outcomes.{post_sandbox_funding-outcome}
use crypto_ledger_sandbox.Ledger.Posted.{post_transfer-transferred}
use crypto_ledger_sandbox.Ledger.Replay.{post_sandbox_funding_idempotent}
use crypto_ledger_sandbox.Orders.{
  OrderCall, Reservation, reservation_of, amount_of, is_order_of, active_asset, validated,
  existing_order_replay, replayed_or, reserve_funds, create_order_reservation,
}
use crypto_ledger_sandbox.Orders.Outcomes.{
  IsAdmitted, reserve_funds-outcome, create_order_reservation-outcome,
}
use crypto_ledger_sandbox.Orders.Replay.{reservation_amount-positive}
use crypto_ledger_sandbox.Api.Repeats.{Result-cases}
use crypto_ledger_sandbox.History.Assets.{opened_assets}

-- What the first phase of a funding has established.
pub record IsRead (db : Db) (x : Funding) : Type 0 where
  pub positive : leb_ℤ x.call.amount (pos 0) ≡ false
  pub found : find? (active_with_code x.call.asset_code) db.assets ≡ some x.asset

both : {A : Type 0} {o : Option A} {a : A} → o ≡ none → o ≡ some a → ⊥
both h k = cc

clash : true ≡ false → ⊥
clash h = cc

unchanged :
    {A : Type 0} (m : Session A) (db : Db)
    → ((a : A) (db' : Db) → m db ≡ ok (a, db') → db' ≡ db)
    → (run m db).1 ≡ db
unchanged m db h = elim (Result-cases (m db)) [
  | inl ((a, db'), e) ↦ rw e (h a db' e)
  | inr (x, e) ↦ rw e refl
]

module _ (platform : Platform) (x : Funding) (db : Db) where
  fresh_key :
      (d : Db)
      → transaction_allowed (funding_transaction x) d ≡ true
      → find? (with_key x.call.idempotency_key) d.transactions ≡ none
  unfolding transaction_allowed
  fresh_key d h = find?-none (with_key x.call.idempotency_key) d.transactions (ground arith)

  -- A transfer that is posted has a key of its own.
  posted_fresh :
      (r : FundingResult) (db' : Db)
      → fund_from_treasury platform x db ≡ ok (r, db')
      → find? (with_key x.call.idempotency_key) db.transactions ≡ none
  unfolding fund_from_treasury post_transfer
  posted_fresh r db' h =
      let (treasury, _, h₁) =
        or_raise-bind (find? (is_treasury x.asset.id) db.wallets) treasury_not_initialized _ db h in
      let (_, h₂) =
        raise_if-bind (ltb_ℤ treasury.available_balance x.call.amount) insufficient_treasury_balance
          _ db h₁ in
      let existing = find? (is_user_wallet x.call.user_id x.asset.id) db.wallets in
      let (user_wallet, db₁, opened, h₃) =
        >>=-ok (wallet_or_opened platform x existing) (post_transfer platform x treasury) db h₂ in
      let (_, _, inserted, _) = >>=-ok (insert_transaction (funding_transaction x)) _ db₁ h₃ in
      ap (find? (with_key x.call.idempotency_key))
        (sym (opened_assets platform x db existing user_wallet db₁ opened).1)
      ∙ fresh_key db₁ (insert_transaction-ok (funding_transaction x) db₁ inserted).0

  known_refused :
      (t : LedgerTransaction)
      → find? (with_key x.call.idempotency_key) db.transactions ≡ some t
      → (e : Error) × (run (fund_from_treasury platform x) db ≡ (err e, db))
  known_refused t known = elim (Result-cases (fund_from_treasury platform x db)) [
    | inl ((r, db'), h) ↦ absurd (both (posted_fresh r db' h) known)
    | inr (e, h) ↦ (e, rw h refl)
  ]

  fresh_replay :
      find? (with_key x.call.idempotency_key) db.transactions ≡ none
      → find_funding_replay x.call x.asset db ≡ ok (none, db)
  unfolding find_funding_replay replay_of
  fresh_replay unused = ap (λ o. replay_of o x.call x.asset db) unused

  fresh_whole :
      IsRead db x
      → find? (with_key x.call.idempotency_key) db.transactions ≡ none
      → post_sandbox_funding platform x.draws x.call db ≡ fund_from_treasury platform x db
  unfolding post_sandbox_funding
  fresh_whole read unused =
      rw (read.positive, read.found)
        (continued (find_funding_replay x.call x.asset)
          (λ a. return_or a (fund_from_treasury platform x)) db (fresh_replay unused))

  known_whole :
      (t : LedgerTransaction)
      → find? (with_key x.call.idempotency_key) db.transactions ≡ some t
      → (run (post_sandbox_funding platform x.draws x.call) db).1 ≡ db
  known_whole t known = unchanged (post_sandbox_funding platform x.draws x.call) db (λ r db' h.
      let (y, shape, _, _, outcome) =
        post_sandbox_funding-outcome platform x.draws x.call db db' r h in
      elim outcome [
        | inl (_, same) ↦ same
        | inr (_, _, _, paid, _) ↦
            let own : y.call.idempotency_key ≡ x.call.idempotency_key =
              ap (λ (z : Funding). z.call.idempotency_key) shape in
            absurd
              (both (ap (λ k. find? (with_key k) db.transactions) (sym own) ∙ paid.unused) known)
      ])

  -- The tables after the second phase of a funding are those after the whole call.
  pub fund_from_treasury-serial :
      IsRead db x
      → (run (fund_from_treasury platform x) db).1
        ≡ (run (post_sandbox_funding platform x.draws x.call) db).1
  fund_from_treasury-serial read =
      elim (Option-cases (find? (with_key x.call.idempotency_key) db.transactions)) [
        | inl unused ↦ ap (λ r. (rolled_back db r).1) (sym (fresh_whole read unused))
        | inr (t, known) ↦
            let (e, refused) = known_refused t known in
            ap (λ p. p.1) refused ∙ sym (known_whole t known)
      ]

not_replayed :
    (x : Funding) (r : FundingResult) → record r { replayed = true } ≡ funding_result x → ⊥
not_replayed x r h = clash (ap (λ (s : FundingResult). s.replayed) h)

-- If the column holds the amount of a funding exactly and a call with it has succeeded, then a
-- session with the same call that looked for its key before that, with whatever it drew and
-- whatever asset it read, raises from its lock on and is rolled back, so that it changes
-- nothing, where the whole call, made instead, answers a replay and changes nothing.
pub fund_from_treasury-refused :
    (platform : Platform) (draws draws' : FundingDraws) (call : FundingCall) (asset : Asset)
    (db db' : Db) (r : FundingResult)
    → platform.store_numeric call.amount ≡ some call.amount
    → post_sandbox_funding platform draws call db ≡ ok (r, db')
    → ((e : Error) × (run
            (fund_from_treasury platform (record { call = call; draws = draws'; asset = asset }))
            db'
          ≡ (err e, db')))
      × (post_sandbox_funding platform draws' call db' ≡ ok (record r { replayed = true }, db'))
fund_from_treasury-refused platform draws draws' call asset db db' r exact h =
    let again = post_sandbox_funding_idempotent platform draws draws' call db db' r exact h in
    let (y, _, _, _, outcome) =
      post_sandbox_funding-outcome platform draws' call db' db' (record r { replayed = true })
        again in
    elim outcome [
      | inl (old, _) ↦ (
        known_refused platform (record { call = call; draws = draws'; asset = asset }) db'
            r.transaction old.transaction,
        again,
      )
      | inr (treasury_wallet, user_wallet, db₁, _, posted_again) ↦
          let (_, _, _, answer) =
            post_transfer-transferred platform y treasury_wallet user_wallet db₁ db'
              (record r { replayed = true }) posted_again in
          absurd (not_replayed y r answer)
    ]

module _ (platform : Platform) (x : Reservation) (db : Db) where
  fresh_reservation :
      IsAdmitted x.draws x.call db x
      → find? (is_order_of x.call.user_id x.call.idempotency_key) db.orders ≡ none
      → create_order_reservation platform x.draws x.call db ≡ reserve_funds platform x db
  unfolding create_order_reservation active_asset existing_order_replay validated
  fresh_reservation a unused =
      let y =
        reservation_of x.draws x.call x.base_asset x.quote_asset
          (amount_of x.call.side x.call.price x.call.quantity) in
      or_raise-some order_asset_not_found _ db a.base
      ∙ or_raise-some order_asset_not_found _ db a.quote
      ∙ raise_if-false (value_error "Base and quote assets must be different.") _ db a.distinct
      ∙ reservation_amount-positive x.call _ db a.positive
      ∙ continued (existing_order_replay x.base_asset x.quote_asset x.call)
          (λ o. replayed_or y o (reserve_funds platform y)) db
          (ap (λ o. validated o x.base_asset x.quote_asset x.call db) unused)
      ∙ ap (λ z. reserve_funds platform z db) (sym a.shape)

  known_reservation :
      (order : Order)
      → find? (is_order_of x.call.user_id x.call.idempotency_key) db.orders ≡ some order
      → (run (create_order_reservation platform x.draws x.call) db).1 ≡ db
  known_reservation order known =
      unchanged (create_order_reservation platform x.draws x.call) db (λ r db' h.
        let (y, a, outcome) = create_order_reservation-outcome platform x.draws x.call db db' r h in
        elim outcome [
          | inl (_, same) ↦ same
          | inr (_, placing, _) ↦
              let own : y.call ≡ x.call = ap (λ (z : Reservation). z.call) a.shape in
              absurd (
                both
                  (ap (λ (c : OrderCall). find? (is_order_of c.user_id c.idempotency_key) db.orders)
                      (sym own)
                    ∙ placing.unused)
                  known)
        ])

  known_reserve :
      (order : Order)
      → find? (is_order_of x.call.user_id x.call.idempotency_key) db.orders ≡ some order
      → (run (reserve_funds platform x) db).1 ≡ db
  known_reserve order known = unchanged (reserve_funds platform x) db (λ r db' h.
      elim (reserve_funds-outcome platform x db db' r h) [
        | inl (_, same) ↦ same
        | inr (_, placing, _) ↦ absurd (both placing.unused known)
      ])

  -- The tables after the second phase of a reservation are those after the whole call.
  pub reserve_funds-serial :
      IsAdmitted x.draws x.call db x
      → (run (reserve_funds platform x) db).1
        ≡ (run (create_order_reservation platform x.draws x.call) db).1
  reserve_funds-serial a =
      elim (Option-cases (find? (is_order_of x.call.user_id x.call.idempotency_key) db.orders)) [
        | inl unused ↦ ap (λ r. (rolled_back db r).1) (sym (fresh_reservation a unused))
        | inr (order, known) ↦ known_reserve order known ∙ sym (known_reservation order known)
      ]

-- ===== src/Ledger/Replay.antt =====
-- `post_sandbox_funding`, made again.
use text.Mathlib.TextPositions.{eq_refl}
use crypto_ledger_sandbox.Prelude.{
  Bool, true, false, ◌||◌, not, ◌&&◌, Option, none, some, ◌==◌, ==_refl, ◌≡◌, refl, sym, ap, subst,
  ◌∙◌, inl, inr, pos, leb_ℤ, pos_part, neg_part, ◌+◌, find?, any?, find?-test, any?-found,
  any?-update, update, arith, str_eq,
}
use crypto_ledger_sandbox.Models.{
  Uuid, Wallet, Asset, LedgerTransaction, LedgerEntry, funding, posted, transaction_type_eq,
  transaction_status_eq,
}
use crypto_ledger_sandbox.Db.{
  Db, Platform, ok, pure, return_or, idempotency_conflict, insert_wallet, uuid_matches,
}
use crypto_ledger_sandbox.Db.Laws.{
  same_value, ok-value, ok-state, raise_if-false, continued, or_raise-some, >>=-ok,
  insert_wallet-ok,
}
use crypto_ledger_sandbox.Ledger.{
  Funding, FundingCall, FundingDraws, FundingResult, active_with_code, is_user_wallet,
  is_matching_credit, replay_of, find_funding_replay, opened_wallet, wallet_or_opened,
  funding_transaction, fund_from_treasury, post_sandbox_funding,
}
use crypto_ledger_sandbox.Ledger.Outcomes.{IsReplay, post_sandbox_funding-outcome}
use crypto_ledger_sandbox.Ledger.Posted.{Moved, transferred, set_balance, post_transfer-transferred}

-- The wallet of the entry is the user's in the asset.
abbrev is_credited : Uuid → Uuid → Uuid → Wallet → Bool
is_credited k user_id asset_id w =
    w.id == k && uuid_matches w.user_id (some user_id) && w.asset_id == asset_id

user_is_credited :
    (user_id asset_id : Uuid) (w : Wallet)
    → is_user_wallet user_id asset_id w ≡ true
    → is_credited w.id user_id asset_id w ≡ true
user_is_credited user_id asset_id w h = ground arith

module _ (platform : Platform) (x : Funding) (db : Db) where
  opened_found :
      (o : Option Wallet) (w : Wallet) (db₁ : Db)
      → find? (is_user_wallet x.call.user_id x.asset.id) db.wallets ≡ o
      → wallet_or_opened platform x o db ≡ ok (w, db₁)
      → (any? (is_credited w.id x.call.user_id x.asset.id) db₁.wallets ≡ true)
        × (db₁.assets ≡ db.assets)
  unfolding wallet_or_opened any?
  opened_found (some v) w db₁ e h =
      let test =
        user_is_credited x.call.user_id x.asset.id v
          (find?-test (is_user_wallet x.call.user_id x.asset.id) db.wallets e) in
      subst
        (λ u.
          (any? (is_credited u.id x.call.user_id x.asset.id) db₁.wallets ≡ true)
          × (db₁.assets ≡ db.assets))
        (ok-value h)
        (subst
          (λ (d : Db).
            (any? (is_credited v.id x.call.user_id x.asset.id) d.wallets ≡ true)
            × (d.assets ≡ db.assets))
          (ok-state h)
          (
            any?-found (is_user_wallet x.call.user_id x.asset.id)
                (is_credited v.id x.call.user_id x.asset.id) db.wallets e test,
            refl,
          ))
  opened_found none w db₁ e h =
      let (_, d, h₁, h₂) = >>=-ok (insert_wallet platform (opened_wallet x)) _ db h in
      let (_, _, _, _, _, state) = insert_wallet-ok platform (opened_wallet x) db h₁ in
      subst
        (λ u.
          (any? (is_credited u.id x.call.user_id x.asset.id) db₁.wallets ≡ true)
          × (db₁.assets ≡ db.assets))
        (ok-value h₂)
        (subst
          (λ (d : Db).
            (any? (is_credited x.draws.wallet_id x.call.user_id x.asset.id) d.wallets ≡ true)
            × (d.assets ≡ db.assets))
          (sym state ∙ ok-state h₂)
          (rw (==_refl x.draws.wallet_id, ==_refl x.call.user_id, ==_refl x.asset.id) refl, refl))

text_refl : (s : FundingCall) → str_eq s.idempotency_key s.idempotency_key ≡ true
text_refl s = eq_refl s.idempotency_key

module _ (platform : Platform) (x : Funding) (treasury_wallet user_wallet : Wallet) (v : Moved)
    (db : Db) (amount : v.amount ≡ x.call.amount)
    (user_there : any? (is_credited user_wallet.id x.call.user_id x.asset.id) db.wallets
      ≡ true) where
  still_there :
      any?
        (is_credited user_wallet.id x.call.user_id x.asset.id)
        (transferred platform x treasury_wallet user_wallet v db).wallets
      ≡ true
  still_there =
      any?-update (is_credited user_wallet.id x.call.user_id x.asset.id) (λ w. w.id) user_wallet.id
        (set_balance v.user_balance)
        (update (λ w. w.id) treasury_wallet.id (set_balance v.treasury_balance) db.wallets)
        (λ w. refl)
      ∙ any?-update (is_credited user_wallet.id x.call.user_id x.asset.id) (λ w. w.id)
          treasury_wallet.id (set_balance v.treasury_balance) db.wallets (λ w. refl)
      ∙ user_there

  replay_found :
      find_funding_replay x.call x.asset (transferred platform x treasury_wallet user_wallet v db)
      ≡ ok (
        some (record { transaction = funding_transaction x; asset = x.asset; replayed = true }),
        transferred platform x treasury_wallet user_wallet v db,
      )
  unfolding find_funding_replay replay_of find?
  replay_found =
      rw
        (
          text_refl x.call,
          ==_refl x.draws.transaction_id,
          amount,
          ==_refl (pos_part x.call.amount + neg_part x.call.amount),
          still_there,
        )
        refl

-- A replay that is found is the answer.
known_funding :
    (platform : Platform) (draws : FundingDraws) (call : FundingCall) (asset : Asset) (db : Db)
    (r : FundingResult)
    → leb_ℤ call.amount (pos 0) ≡ false
    → find? (active_with_code call.asset_code) db.assets ≡ some asset
    → find_funding_replay call asset db ≡ ok (some r, db)
    → post_sandbox_funding platform draws call db ≡ ok (r, db)
unfolding post_sandbox_funding
known_funding platform draws call asset db r positive found replay =
    rw (positive, found)
      (continued (find_funding_replay call asset)
        (λ a.
          return_or a
            (fund_from_treasury platform (record { call = call; draws = draws; asset = asset })))
        db replay)

replay_answer :
    (t : LedgerTransaction) (call : FundingCall) (asset : Asset) (db : Db) (entry : LedgerEntry)
    → t.transaction_type ≡ funding
    → t.status ≡ posted
    → find? (is_matching_credit t.id call.user_id asset.id call.amount db) db.entries ≡ some entry
    → replay_of (some t) call asset db
      ≡ ok (some (record { transaction = t; asset = asset; replayed = true }), db)
unfolding replay_of
replay_answer t call asset db entry kind status credited =
    raise_if-false
      {t = not (transaction_type_eq t.transaction_type funding)
        || not (transaction_status_eq t.status posted)}
      idempotency_conflict _ db (rw (kind, status) refl)
    ∙ or_raise-some idempotency_conflict
        (λ _. pure (some (record { transaction = t; asset = asset; replayed = true }))) db credited

old_replay :
    (call : FundingCall) (asset : Asset) (db : Db) (r : FundingResult)
    → IsReplay call asset db r
    → find_funding_replay call asset db ≡ ok (some (record r { replayed = true }), db)
unfolding find_funding_replay
old_replay call asset db r old =
    ap (λ o. replay_of o call asset db) old.transaction
    ∙ replay_answer r.transaction call asset db old.entry old.kind old.status old.credited
    ∙ ap (λ (s : FundingResult). ok (some (record s { replayed = true }), db)) (sym old.answer)

module _ (platform : Platform) (draws draws' : FundingDraws) (call : FundingCall) (db db' : Db)
    (r : FundingResult) where
  -- If the column holds the amount as it is and `post_sandbox_funding` has succeeded, the same
  -- call made on the database it left, with any draws, succeeds with the same answer marked as a
  -- replay and changes nothing.
  pub post_sandbox_funding_idempotent :
      platform.store_numeric call.amount ≡ some call.amount
      → post_sandbox_funding platform draws call db ≡ ok (r, db')
      → post_sandbox_funding platform draws' call db' ≡ ok (record r { replayed = true }, db')
  post_sandbox_funding_idempotent exact h =
      let (x, shape, positive, found, outcome) =
        post_sandbox_funding-outcome platform draws call db db' r h in
      elim outcome [
        | inl (old, same) ↦ rw same (
            known_funding platform draws' call x.asset db (record r { replayed = true }) positive
              found (old_replay call x.asset db r old))
        | inr (treasury_wallet, user_wallet, db₁, paid, k) ↦
            let (v, moved, state, answer) =
              post_transfer-transferred platform x treasury_wallet user_wallet db₁ db' r k in
            let own : x.call ≡ call = ap (λ (y : Funding). y.call) shape in
            let (there, assets) = opened_found platform x db _ user_wallet db₁ refl paid.wallet in
            let amount : v.amount ≡ x.call.amount = same_value moved.amount (
              subst (λ (c : FundingCall). platform.store_numeric c.amount ≡ some c.amount) (sym own)
                exact) in
            let replay = replay_found platform x treasury_wallet user_wallet v db₁ amount there in
            known_funding platform draws' call x.asset db' (record r { replayed = true }) positive
              (ap (λ (d : Db). find? (active_with_code call.asset_code) d.assets) state
                ∙ ap (find? (active_with_code call.asset_code)) assets
                ∙ found)
              (ap (λ (c : FundingCall). find_funding_replay c x.asset db') (sym own)
                ∙ ap (find_funding_replay x.call x.asset) state
                ∙ replay
                ∙ ap
                    (λ (d : Db). ok (
                      some (record {
                        transaction = funding_transaction x;
                        asset = x.asset;
                        replayed = true;
                      }),
                      d,
                    ))
                    (sym state)
                ∙ ap (λ (s : FundingResult). ok (some (record s { replayed = true }), db'))
                    (sym answer))
      ]

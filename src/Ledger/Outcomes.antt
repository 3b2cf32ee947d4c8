-- ===== src/Ledger/Outcomes.antt =====
-- The two ways in which `post_sandbox_funding` succeeds.
use crypto_ledger_sandbox.Prelude.{
  true, false, not, ◌||◌, Option, none, some, ◌≡◌, refl, sym, subst, ◌∙◌, ◌⊎◌, inl, inr, pos, ltb_ℤ,
  leb_ℤ, find?, arith,
}
use crypto_ledger_sandbox.Models.{
  Asset, Wallet, LedgerTransaction, LedgerEntry, funding, posted, transaction_type_eq,
  transaction_status_eq,
}
use crypto_ledger_sandbox.Db.{
  Db, Platform, Session, ok, ◌>>=◌, return_or, value_error, asset_not_found,
  treasury_not_initialized, insufficient_treasury_balance, idempotency_conflict,
}
use crypto_ledger_sandbox.Db.Laws.{>>=-ok, or_raise-bind, raise_if-bind, ok-state, ok-value}
use crypto_ledger_sandbox.Ledger.{
  FundingResult, FundingCall, FundingDraws, Funding, with_key, active_with_code, is_treasury,
  is_user_wallet, is_matching_credit, replay_of, find_funding_replay, wallet_or_opened,
  post_transfer, fund_from_treasury, post_sandbox_funding,
}

-- The transaction that a replay answers: the key's, a posted funding that credited the user's
-- wallet in the asset with the amount.
pub record IsReplay (call : FundingCall) (asset : Asset) (db : Db) (r : FundingResult)
    : Type 0 where
  pub transaction : find? (with_key call.idempotency_key) db.transactions ≡ some r.transaction
  pub kind : r.transaction.transaction_type ≡ funding
  pub status : r.transaction.status ≡ posted
  pub entry : LedgerEntry
  pub credited :
      find? (is_matching_credit r.transaction.id call.user_id asset.id call.amount db) db.entries
      ≡ some entry
  pub answer : r ≡ record { transaction = r.transaction; asset = asset; replayed = true }

-- The transfer goes ahead: the key is new, and the treasury covers the amount.
pub record IsFunding (platform : Platform) (db : Db) (x : Funding)
    (treasury_wallet user_wallet : Wallet) (db₁ : Db) : Type 0 where
  pub unused : find? (with_key x.call.idempotency_key) db.transactions ≡ none
  pub treasury : find? (is_treasury x.asset.id) db.wallets ≡ some treasury_wallet
  pub covered : ltb_ℤ treasury_wallet.available_balance x.call.amount ≡ false
  pub wallet :
      wallet_or_opened platform x (find? (is_user_wallet x.call.user_id x.asset.id) db.wallets) db
      ≡ ok (user_wallet, db₁)

module _ (t : LedgerTransaction)
    (kind : (not (transaction_type_eq t.transaction_type funding)
        || not (transaction_status_eq t.status posted))
      ≡ false) where
  funding_kind : t.transaction_type ≡ funding
  funding_kind = ground arith

  posted_status : t.status ≡ posted
  posted_status = ground arith

module _ (call : FundingCall) (asset : Asset) (db db' : Db) (r : FundingResult) where
  replay_of-bind :
      (o : Option LedgerTransaction) (rest : Session FundingResult)
      → find? (with_key call.idempotency_key) db.transactions ≡ o
      → (replay_of o call asset >>= λ replay. return_or replay rest) db ≡ ok (r, db')
      → ((o ≡ none) × (rest db ≡ ok (r, db'))) ⊎ (IsReplay call asset db r × (db' ≡ db))
  unfolding replay_of
  replay_of-bind none rest e h = inl (refl, h)
  replay_of-bind (some t) rest e h =
      let (answer, d, h₁, h₂) =
        >>=-ok (replay_of (some t) call asset) (λ replay. return_or replay rest) db h in
      let (kind, h₃) =
        raise_if-bind
          (not (transaction_type_eq t.transaction_type funding)
            || not (transaction_status_eq t.status posted))
          idempotency_conflict _ db h₁ in
      let (entry, credited, h₄) =
        or_raise-bind
          (find? (is_matching_credit t.id call.user_id asset.id call.amount db) db.entries)
          idempotency_conflict _ db h₃ in
      let h₅ = subst (λ a. return_or a rest d ≡ ok (r, db')) (sym (ok-value h₄)) h₂ in
      inr (
        subst (IsReplay call asset db) (ok-value h₅) (record {
          transaction = e;
          kind = funding_kind t kind;
          status = posted_status t kind;
          entry = entry;
          credited = credited;
          answer = refl;
        }),
        sym (ok-state h₅) ∙ sym (ok-state h₄),
      )

module _ (platform : Platform) (x : Funding) (db db' : Db) (r : FundingResult) where
  fund_from_treasury-outcome :
      find? (with_key x.call.idempotency_key) db.transactions ≡ none
      → fund_from_treasury platform x db ≡ ok (r, db')
      → (treasury_wallet user_wallet : Wallet) × (db₁ : Db) × IsFunding platform db x
          treasury_wallet user_wallet db₁
        × (post_transfer platform x treasury_wallet user_wallet db₁ ≡ ok (r, db'))
  unfolding fund_from_treasury
  fund_from_treasury-outcome unused h =
      let (treasury, found, h₁) =
        or_raise-bind (find? (is_treasury x.asset.id) db.wallets) treasury_not_initialized _ db h in
      let (covered, h₂) =
        raise_if-bind (ltb_ℤ treasury.available_balance x.call.amount) insufficient_treasury_balance
          _ db h₁ in
      let (user_wallet, db₁, wallet, h₃) =
        >>=-ok
          (wallet_or_opened platform x
            (find? (is_user_wallet x.call.user_id x.asset.id) db.wallets))
          (post_transfer platform x treasury) db h₂ in
      (
        treasury,
        user_wallet,
        db₁,
        record { unused = unused; treasury = found; covered = covered; wallet = wallet },
        h₃,
      )

-- If `post_sandbox_funding` succeeds, the amount is positive and the asset active, and either
-- the key's transaction is a posted funding that credited the user's wallet with the amount, the
-- answer is that transaction as a replay and nothing changes, or the key is new, the treasury
-- covers the amount, the user's wallet is found or opened, and the transfer is posted.
pub post_sandbox_funding-outcome :
    (platform : Platform) (draws : FundingDraws) (call : FundingCall) (db db' : Db)
    (r : FundingResult)
    → post_sandbox_funding platform draws call db ≡ ok (r, db')
    → (x : Funding) × (x ≡ record { call = call; draws = draws; asset = x.asset })
      × (leb_ℤ call.amount (pos 0) ≡ false)
      × (find? (active_with_code call.asset_code) db.assets ≡ some x.asset)
      × ((IsReplay call x.asset db r × (db' ≡ db))
          ⊎ ((treasury_wallet user_wallet : Wallet) × (db₁ : Db) × IsFunding platform db x
                treasury_wallet user_wallet db₁
              × (post_transfer platform x treasury_wallet user_wallet db₁ ≡ ok (r, db'))))
unfolding post_sandbox_funding find_funding_replay
post_sandbox_funding-outcome platform draws call db db' r h =
    let (positive, h₁) =
      raise_if-bind (leb_ℤ call.amount (pos 0))
        (value_error "Funding amount must be greater than zero.") _ db h in
    let (asset, found, h₂) =
      or_raise-bind (find? (active_with_code call.asset_code) db.assets) asset_not_found _ db h₁ in
    let x : Funding = record { call = call; draws = draws; asset = asset } in
    (
      x,
      refl,
      positive,
      found,
      elim (replay_of-bind call asset db db' r
          (find? (with_key call.idempotency_key) db.transactions) (fund_from_treasury platform x)
          refl h₂) [
            | inl (unused, rest) ↦ inr (fund_from_treasury-outcome platform x db db' r unused rest)
            | inr replay ↦ inl replay
          ],
    )

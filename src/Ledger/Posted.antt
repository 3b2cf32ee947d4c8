-- ===== src/Ledger/Posted.antt =====
-- What `post_transfer` leaves behind when it commits.
use crypto_ledger_sandbox.Prelude.{some, ◌∷◌, ◌≡◌, update, ◌∙◌, ap, sym}
use crypto_ledger_sandbox.Decimal.{Decimal, add, sub}
use crypto_ledger_sandbox.Models.{Wallet}
use crypto_ledger_sandbox.Db.{Db, Platform, ok, insert_transaction, insert_entry, set_available}
use crypto_ledger_sandbox.Db.Laws.{
  ok-value, ok-state, same_value, >>=-ok, insert_transaction-ok, set_available-ok, insert_entry-ok,
}
use crypto_ledger_sandbox.Ledger.{
  FundingResult, Funding, funding_transaction, treasury_debit, user_credit, funding_result,
  post_transfer,
}

-- The balances and the amount as the columns hold them.
pub record Moved : Type 0 where
  pub treasury_balance : Decimal
  pub user_balance : Decimal
  pub amount : Decimal

abbrev pub set_balance : Decimal → Wallet → Wallet
set_balance y w = record w { available_balance = y }

module _ (platform : Platform) (x : Funding) (treasury_wallet user_wallet : Wallet) where
  abbrev pub transferred : Moved → Db → Db
  transferred v db = record db {
    transactions = funding_transaction x ∷ db.transactions;
    wallets =
        update (λ w. w.id) user_wallet.id (set_balance v.user_balance)
          (update (λ w. w.id) treasury_wallet.id (set_balance v.treasury_balance) db.wallets);
    entries =
        record (user_credit x user_wallet) { amount = v.amount }
        ∷ record (treasury_debit x treasury_wallet) { amount = v.amount }
        ∷ db.entries;
  }

  pub record IsMoved (v : Moved) : Type 0 where
    pub treasury_balance :
        platform.store_numeric (sub treasury_wallet.available_balance x.call.amount)
        ≡ some v.treasury_balance
    pub user_balance :
        platform.store_numeric (add user_wallet.available_balance x.call.amount)
        ≡ some v.user_balance
    pub amount : platform.store_numeric x.call.amount ≡ some v.amount

  pub post_transfer-transferred :
      (db db' : Db) (r : FundingResult)
      → post_transfer platform x treasury_wallet user_wallet db ≡ ok (r, db')
      → (v : Moved) × IsMoved v × (db' ≡ transferred v db) × (r ≡ funding_result x)
  unfolding post_transfer
  post_transfer-transferred db db' r h =
      let (_, d₁, h₁, k₁) = >>=-ok (insert_transaction (funding_transaction x)) _ db h in
      let (_, d₂, h₂, k₂) =
        >>=-ok
          (set_available platform treasury_wallet.id
            (sub treasury_wallet.available_balance x.call.amount))
          _ d₁ k₁ in
      let (_, d₃, h₃, k₃) =
        >>=-ok
          (set_available platform user_wallet.id (add user_wallet.available_balance x.call.amount))
          _ d₂ k₂ in
      let (_, d₄, h₄, k₄) =
        >>=-ok (insert_entry platform (treasury_debit x treasury_wallet)) _ d₃ k₃ in
      let (_, d₅, h₅, k₅) = >>=-ok (insert_entry platform (user_credit x user_wallet)) _ d₄ k₄ in
      let (_, s₁) = insert_transaction-ok _ db h₁ in
      let (y, sy, _, s₂) = set_available-ok platform _ _ d₁ h₂ in
      let (z, sz, _, s₃) = set_available-ok platform _ _ d₂ h₃ in
      let (a, sa, _, s₄) = insert_entry-ok platform _ d₃ h₄ in
      let (c, sc, _, s₅) = insert_entry-ok platform _ d₄ h₅ in
      let t₂ =
        s₂
        ∙ ap
            (λ (d : Db). record d {
              wallets = update (λ w. w.id) treasury_wallet.id (set_balance y) d.wallets;
            })
            s₁ in
      let t₃ =
        s₃
        ∙ ap
            (λ (d : Db). record d {
              wallets = update (λ w. w.id) user_wallet.id (set_balance z) d.wallets;
            })
            t₂ in
      let t₄ =
        s₄
        ∙ ap
            (λ (d : Db). record d {
              entries = record (treasury_debit x treasury_wallet) { amount = a } ∷ d.entries;
            })
            t₃ in
      let t₅ =
        s₅
        ∙ ap
            (λ t. record d₄ {
              entries = record (user_credit x user_wallet) { amount = t } ∷ d₄.entries;
            })
            (same_value sc sa)
        ∙ ap
            (λ (d : Db). record d {
              entries = record (user_credit x user_wallet) { amount = a } ∷ d.entries;
            })
            t₄ in
      (
        record { treasury_balance = y; user_balance = z; amount = a },
        record { treasury_balance = sy; user_balance = sz; amount = sa },
        sym (ok-state k₅) ∙ t₅,
        sym (ok-value k₅),
      )

-- ===== src/Accounts/Untouched.antt =====
-- `post_sandbox_funding` and the locked balances.
use crypto_ledger_sandbox.Prelude.{
  Bool-cases, true, Option, none, some, ◌∷◌, ◌==◌, ◌≡◌, refl, sym, ap, subst, ◌∙◌, inl, inr, pos,
  find?, find?-update, update, updated, total, arith,
}
use crypto_ledger_sandbox.Decimal.{Decimal}
use crypto_ledger_sandbox.Models.{Uuid, Wallet, locked}
use crypto_ledger_sandbox.Db.{Db, Platform, ok, insert_wallet}
use crypto_ledger_sandbox.Db.Laws.{same_value, ok-state, >>=-ok, insert_wallet-ok}
use crypto_ledger_sandbox.Ledger.{
  Funding, FundingCall, FundingDraws, FundingResult, is_user_wallet, opened_wallet,
  wallet_or_opened, post_sandbox_funding,
}
use crypto_ledger_sandbox.Ledger.Posted.{set_balance, post_transfer-transferred}
use crypto_ledger_sandbox.Ledger.Outcomes.{post_sandbox_funding-outcome}
use crypto_ledger_sandbox.Accounts.{value_or_zero, ExactColumns, IsBacked, held_by}

abbrev locked_of : Uuid → Uuid → Db → Decimal
locked_of u a db = value_or_zero locked (find? (is_user_wallet u a) db.wallets)

updated_locked :
    (k : Uuid) (y : Decimal) (o : Option Wallet)
    → value_or_zero locked (updated (λ w. w.id) k (set_balance y) o) ≡ value_or_zero locked o
updated_locked k y none = refl
updated_locked k y (some w) = elim (Bool-cases (w.id == k)) [
  | inl h ↦ rw h refl
  | inr h ↦ rw h refl
]

moved_locked :
    (u a k j : Uuid) (y z : Decimal) (db : Db)
    → value_or_zero locked (
        find?
          (is_user_wallet u a)
          (update (λ w. w.id) j (set_balance z) (update (λ w. w.id) k (set_balance y) db.wallets)))
      ≡ locked_of u a db
moved_locked u a k j y z db =
    ap (value_or_zero locked) (
      find?-update (is_user_wallet u a) (λ w. w.id) j (set_balance z)
        (update (λ w. w.id) k (set_balance y) db.wallets) (λ w. refl))
    ∙ updated_locked j z
        (find? (is_user_wallet u a) (update (λ w. w.id) k (set_balance y) db.wallets))
    ∙ ap (value_or_zero locked)
        (find?-update (is_user_wallet u a) (λ w. w.id) k (set_balance y) db.wallets (λ w. refl))
    ∙ updated_locked k y (find? (is_user_wallet u a) db.wallets)

module _ (platform : Platform) (columns : ExactColumns platform) (x : Funding) (db : Db) where
  absent :
      (u a : Uuid) (l m : Decimal)
      → find? (is_user_wallet x.call.user_id x.asset.id) db.wallets ≡ none
      → is_user_wallet u a (record (opened_wallet x) { available_balance = l; locked_balance = m })
        ≡ true
      → find? (is_user_wallet u a) db.wallets ≡ none
  absent u a l m none_found test =
      let same_user : x.call.user_id ≡ u = ground arith in
      let same_asset : x.asset.id ≡ a = ground arith in
      subst (λ v. find? (is_user_wallet v a) db.wallets ≡ none) same_user
        (subst (λ b. find? (is_user_wallet x.call.user_id b) db.wallets ≡ none) same_asset
          none_found)

  new_locked :
      (u a : Uuid) (l : Decimal)
      → find? (is_user_wallet x.call.user_id x.asset.id) db.wallets ≡ none
      → value_or_zero locked (
          find? (is_user_wallet u a) (
            record (opened_wallet x) { available_balance = l; locked_balance = pos 0 }
            ∷ db.wallets))
        ≡ locked_of u a db
  unfolding find?
  new_locked u a l none_found =
      elim (Bool-cases (
        is_user_wallet u a
          (record (opened_wallet x) { available_balance = l; locked_balance = pos 0 }))) [
            | inl own ↦ rw (own, absent u a l (pos 0) none_found own) refl
            | inr other ↦ rw other refl
          ]

  opened_locked :
      (u a : Uuid) (o : Option Wallet) (w : Wallet) (db₁ : Db)
      → find? (is_user_wallet x.call.user_id x.asset.id) db.wallets ≡ o
      → wallet_or_opened platform x o db ≡ ok (w, db₁)
      → (locked_of u a db₁ ≡ locked_of u a db) × (db₁.orders ≡ db.orders)
  unfolding wallet_or_opened
  opened_locked u a (some v) w db₁ e h =
      (sym (ap (locked_of u a) (ok-state h)), sym (ap (λ (d : Db). d.orders) (ok-state h)))
  opened_locked u a none w db₁ e h =
      let (_, d, h₁, h₂) = >>=-ok (insert_wallet platform (opened_wallet x)) _ db h in
      let (y, l, sy, sl, allowed, state) = insert_wallet-ok platform (opened_wallet x) db h₁ in
      let l0 : l ≡ pos 0 = same_value sl (columns.exact (pos 0) (refl, omega arith)) in
      (
        sym (ap (locked_of u a) (ok-state h₂))
            ∙ ap (locked_of u a) state
            ∙ ap
                (λ m. value_or_zero locked (
                  find? (is_user_wallet u a) (
                    record (opened_wallet x) { available_balance = y; locked_balance = m }
                    ∷ db.wallets)))
                l0
            ∙ new_locked u a y e,
        sym (ap (λ (d : Db). d.orders) (ok-state h₂)) ∙ ap (λ (d : Db). d.orders) state,
      )

module _ (platform : Platform) (draws : FundingDraws) (call : FundingCall) (db db' : Db)
    (r : FundingResult) (columns : ExactColumns platform) (backed : IsBacked db)
    (success : post_sandbox_funding platform draws call db ≡ ok (r, db')) where
  -- If the columns hold money exactly and every user's locked balance in an asset is the sum of
  -- what the user's open orders hold of it, then this is so after a successful
  -- `post_sandbox_funding`.
  pub post_sandbox_funding-IsBacked : IsBacked db'
  post_sandbox_funding-IsBacked =
      let (x, _, _, _, outcome) =
        post_sandbox_funding-outcome platform draws call db db' r success in
      elim outcome [
        | inl (_, same) ↦ subst IsBacked (sym same) backed
        | inr (treasury_wallet, user_wallet, db₁, paid, h) ↦
            let (v, _, state, _) =
              post_transfer-transferred platform x treasury_wallet user_wallet db₁ db' r h in
            record {
              locked = λ u a.
                  let (balance, orders) =
                    opened_locked platform columns x db u a _ user_wallet db₁ refl paid.wallet in
                  ap (locked_of u a) state
                  ∙ moved_locked u a treasury_wallet.id user_wallet.id v.treasury_balance
                      v.user_balance db₁
                  ∙ balance
                  ∙ backed.locked u a
                  ∙ sym (
                      ap (λ (d : Db). total (held_by u a) d.orders) state
                      ∙ ap (total (held_by u a)) orders);
            }
      ]

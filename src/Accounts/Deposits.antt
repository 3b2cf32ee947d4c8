-- ===== src/Accounts/Deposits.antt =====
-- `post_sandbox_funding` as a move of the abstract ledger.
use crypto_ledger_sandbox.Prelude.{
  true, false, Bool-cases, Option, none, some, List, ◌∷◌, ◌≡◌, refl, sym, ap, subst, ◌∙◌, inl, inr,
  ◌⊎◌, ◌==◌, ==_iff, pos, find?, find?-test, find?-update, find?_same, updated, Unique, update,
  ltb_ℤ, arith, All,
}
use crypto_ledger_sandbox.Decimal.{Decimal, IsMoney}
use crypto_ledger_sandbox.Models.{Uuid, Wallet, BalanceBucket, available, locked}
use crypto_ledger_sandbox.Db.{Db, Platform, ok, insert_wallet}
use crypto_ledger_sandbox.Db.Laws.{same_value, ok-state, >>=-ok, insert_wallet-ok}
use crypto_ledger_sandbox.Ledger.{
  Funding, FundingCall, FundingDraws, FundingResult, is_treasury, is_user_wallet, opened_wallet,
  wallet_or_opened, post_sandbox_funding,
}
use crypto_ledger_sandbox.Ledger.Posted.{
  Moved, IsMoved, transferred, set_balance, post_transfer-transferred,
}
use crypto_ledger_sandbox.Ledger.Outcomes.{post_sandbox_funding-outcome}
use crypto_ledger_sandbox.Accounts.{bucket_value, value_or_zero, ExactColumns, IsSound}
use crypto_ledger_sandbox.Accounts.Backed.{is_owner}
use crypto_ledger_sandbox.Accounts.Opening.{HasRoom, zero-IsMoney, wallet_or_opened-IsOpened}
use crypto_ledger_sandbox.Accounts.Funding.{user_value, user_kept, ids_kept}
use crypto_ledger_sandbox.Accounts.Balances.{
  balances, deposited, changed, same_balances, update-changed, puts_so, said, same_call,
}

-- A treasury's wallet is no user's.
not_treasury :
    (asset_id u a : Uuid) (w : Wallet)
    → is_treasury asset_id w ≡ true
    → is_user_wallet u a w ≡ false
not_treasury asset_id u a w h = ground arith

module _ (asset_id : Uuid) (wallets : List Wallet) (treasury : Wallet) (y : Decimal)
    (ids : Unique (λ w. w.id) wallets)
    (found : find? (is_treasury asset_id) wallets ≡ some treasury) where
  other_wallet :
      (u a : Uuid) (o : Option Wallet)
      → find? (is_user_wallet u a) wallets ≡ o
      → updated (λ w. w.id) treasury.id (set_balance y) o ≡ o
  other_wallet u a none e = refl
  other_wallet u a (some w) e = elim (Bool-cases (w.id == treasury.id)) [
    | inl same ↦
        let one =
          find?_same (is_user_wallet u a) (is_treasury asset_id) (λ w. w.id) wallets ids e found
            ((==_iff w.id treasury.id).0 same) in
        let test =
          subst (λ v. is_user_wallet u a v ≡ true) one
            (find?-test (is_user_wallet u a) wallets e) in
        let no_test =
          not_treasury asset_id u a treasury (find?-test (is_treasury asset_id) wallets found) in
        absurd (ground arith)
    | inr other ↦ rw other refl
  ]

  treasury_apart :
      (u a : Uuid)
      → find? (is_user_wallet u a) (update (λ w. w.id) treasury.id (set_balance y) wallets)
        ≡ find? (is_user_wallet u a) wallets
  treasury_apart u a =
      find?-update (is_user_wallet u a) (λ w. w.id) treasury.id (set_balance y) wallets (λ w. refl)
      ∙ other_wallet u a (find? (is_user_wallet u a) wallets) refl

empty_bucket :
    (b : BalanceBucket) (w : Wallet)
    → w.available_balance ≡ pos 0
    → w.locked_balance ≡ pos 0
    → bucket_value b w ≡ pos 0
empty_bucket available w e f = e
empty_bucket locked w e f = f

module _ (platform : Platform) (columns : ExactColumns platform) (x : Funding) (db : Db) where
  empty_added :
      (y l : Decimal)
      → y ≡ pos 0
      → l ≡ pos 0
      → find? (is_user_wallet x.call.user_id x.asset.id) db.wallets ≡ none
      → balances (record db {
        wallets =
            record (opened_wallet x) { available_balance = y; locked_balance = l } ∷ db.wallets;
      })
        ≡ balances db
  unfolding balances find?
  empty_added y l y0 l0 absent = same_balances (λ u a b.
      elim (Bool-cases (is_owner x.call.user_id x.asset.id u a)) [
        | inl own ↦
            let same_user : x.call.user_id ≡ u = ground arith in
            let same_asset : x.asset.id ≡ a = ground arith in
            let none_there : find? (is_user_wallet u a) db.wallets ≡ none =
              subst (λ v. find? (is_user_wallet v a) db.wallets ≡ none) same_user
                (subst (λ c. find? (is_user_wallet x.call.user_id c) db.wallets ≡ none) same_asset
                  absent) in
            rw (own, none_there)
              (empty_bucket b
                (record (opened_wallet x) { available_balance = y; locked_balance = l }) y0 l0)
        | inr other ↦ rw other refl
      ])

  wallet_or_opened-balances :
      (o : Option Wallet) (w : Wallet) (db₁ : Db)
      → find? (is_user_wallet x.call.user_id x.asset.id) db.wallets ≡ o
      → wallet_or_opened platform x o db ≡ ok (w, db₁)
      → balances db₁ ≡ balances db
  unfolding wallet_or_opened
  wallet_or_opened-balances (some v) w db₁ e h = sym (ap balances (ok-state h))
  wallet_or_opened-balances none w db₁ e h =
      let (_, d, h₁, h₂) = >>=-ok (insert_wallet platform (opened_wallet x)) _ db h in
      let (y, l, sy, sl, _, state) = insert_wallet-ok platform (opened_wallet x) db h₁ in
      sym (ap balances (ok-state h₂))
      ∙ ap balances state
      ∙ empty_added y l (same_value sy (columns.exact (pos 0) zero-IsMoney))
          (same_value sl (columns.exact (pos 0) zero-IsMoney)) e

module _ (platform : Platform) (columns : ExactColumns platform) (x : Funding)
    (amount_money : IsMoney x.call.amount) (db : Db) (sound : IsSound db)
    (room : All (HasRoom x.call.amount) db.wallets) (treasury user_wallet : Wallet)
    (treasury_found : find? (is_treasury x.asset.id) db.wallets ≡ some treasury)
    (user_found : find? (is_user_wallet x.call.user_id x.asset.id) db.wallets ≡ some user_wallet)
    (covered : ltb_ℤ treasury.available_balance x.call.amount ≡ false) (v : Moved)
    (moved : IsMoved platform x treasury user_wallet v) where
  transferred-balances :
      balances (transferred platform x treasury user_wallet v db)
      ≡ changed x.call.user_id x.asset.id (deposited x.call.amount) (balances db)
  transferred-balances =
      update-changed x.call.user_id x.asset.id
        (update (λ w. w.id) treasury.id (set_balance v.treasury_balance) db.wallets) user_wallet
        (set_balance v.user_balance) (deposited x.call.amount)
        (transferred platform x treasury user_wallet v db) (balances db)
        (ids_kept platform columns x amount_money db sound room treasury user_wallet treasury_found
          user_found covered v moved)
        (user_kept platform columns x amount_money db sound room treasury user_wallet treasury_found
          user_found covered v moved)
        (λ u a w. refl)
        (puts_so v.user_balance x.call.amount user_wallet (
          user_value platform columns x amount_money db sound room treasury user_wallet
            treasury_found user_found covered v moved))
        (λ u a b.
          ap (value_or_zero b) (
            treasury_apart x.asset.id db.wallets treasury v.treasury_balance sound.ids
              treasury_found u a)
          ∙ said db u a b)
        refl

-- If the columns hold money exactly, the books are sound, the amount is money, and so is every
-- wallet's available balance with the amount added to it, alone and together with its locked
-- balance, a successful `post_sandbox_funding` either answers a replay and leaves every user's
-- balances, or answers no replay and adds the amount to the available balance of the user in the
-- asset that it answers and changes no other balance of a user.
pub post_sandbox_funding-deposits :
    (platform : Platform) (draws : FundingDraws) (call : FundingCall) (db db' : Db)
    (r : FundingResult)
    → ExactColumns platform
    → IsSound db
    → IsMoney call.amount
    → All (HasRoom call.amount) db.wallets
    → post_sandbox_funding platform draws call db ≡ ok (r, db')
    → ((r.replayed ≡ true) × (balances db' ≡ balances db))
      ⊎ ((r.replayed ≡ false)
          × (balances db' ≡ changed call.user_id r.asset.id (deposited call.amount) (balances db)))
post_sandbox_funding-deposits platform draws call db db' r columns sound amount_money room success =
    let (x, shape, _, _, outcome) =
      post_sandbox_funding-outcome platform draws call db db' r success in
    let same : x.call ≡ call = ap (λ (y : Funding). y.call) shape in
    elim outcome [
      | inl (replay, same) ↦
          inl (ap (λ (q : FundingResult). q.replayed) replay.answer, ap balances same)
      | inr (treasury_wallet, user_wallet, db₁, paid, h) ↦
          let (v, moved, state, answer) =
            post_transfer-transferred platform x treasury_wallet user_wallet db₁ db' r h in
          let x_money = subst (λ (c : FundingCall). IsMoney c.amount) (sym same) amount_money in
          let x_room =
            subst (λ (c : FundingCall). All (HasRoom c.amount) db.wallets) (sym same) room in
          let o =
            wallet_or_opened-IsOpened x db sound x_room x_money platform columns _ user_wallet db₁
              refl paid.wallet in
          inr (
            ap (λ (q : FundingResult). q.replayed) answer,
            same_call (λ u a n. balances db' ≡ changed u a (deposited n) (balances db))
                (ap (λ (c : FundingCall). c.user_id) same)
                (sym (ap (λ (q : FundingResult). q.asset.id) answer))
                (ap (λ (c : FundingCall). c.amount) same)
                (ap balances state
                  ∙ transferred-balances platform columns x x_money db₁ o.sound o.room
                      treasury_wallet user_wallet (o.treasury ∙ paid.treasury) o.found paid.covered
                      v moved
                  ∙ ap (changed x.call.user_id x.asset.id (deposited x.call.amount)) (
                      wallet_or_opened-balances platform columns x db _ user_wallet db₁ refl
                        paid.wallet)),
          )
    ]

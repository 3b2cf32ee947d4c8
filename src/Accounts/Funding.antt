-- ===== src/Accounts/Funding.antt =====
-- `post_sandbox_funding` and the books.
use crypto_ledger_sandbox.Prelude.{
  ◌==◌, ==_refl, ==_iff, Bool-cases, true, false, some, ◌∷◌, ◌≡◌, refl, sym, ap, subst, ◌∙◌, inl,
  inr, pos, negsuc, ◌+ℤ◌, ◌-ℤ◌, ◌≤ℤ◌, ltb_ℤ, int_laws, find?, find?-test, find?-update, find?_same,
  Unique, All, All-find?, All-update_found, update, update-Unique, arith,
}
use crypto_ledger_sandbox.Decimal.{Decimal, IsMoney}
use crypto_ledger_sandbox.Decimal.Exact.{add-exact, sub-exact, IsMoney-left}
use crypto_ledger_sandbox.Models.{Uuid, Wallet, BalanceBucket, available, locked}
use crypto_ledger_sandbox.Db.{Db, Platform, ok}
use crypto_ledger_sandbox.Db.Laws.{same_value}
use crypto_ledger_sandbox.Ledger.{
  Funding, FundingCall, FundingDraws, FundingResult, is_treasury, is_user_wallet, treasury_debit,
  user_credit, post_sandbox_funding,
}
use crypto_ledger_sandbox.Ledger.Posted.{
  Moved, IsMoved, transferred, set_balance, post_transfer-transferred,
}
use crypto_ledger_sandbox.Ledger.Outcomes.{IsFunding, post_sandbox_funding-outcome}
use crypto_ledger_sandbox.Accounts.{
  unexplained, bucket_value, posting, ExactColumns, IsSound, HasMoney,
}
use crypto_ledger_sandbox.Accounts.Explained.{not_short, explained-step}
use crypto_ledger_sandbox.Accounts.Opening.{HasRoom, wallet_or_opened-IsOpened}

money_nonneg : (l : Decimal) → IsMoney l → pos 0 ≤ℤ l
money_nonneg (pos n) h = omega arith
money_nonneg (negsuc n) h = absurd h

more : (a l r : Decimal) → pos 0 ≤ℤ l → r ≤ℤ a → r ≤ℤ a +ℤ l
more a l r h k = omega (int_laws, h, k)

taken_sum : (a l r : Decimal) → a +ℤ l -ℤ r ≡ a -ℤ r +ℤ l
taken_sum a l r = omega int_laws

less : (a l r : Decimal) → IsMoney l → IsMoney (a +ℤ l) → IsMoney r → r ≤ℤ a → IsMoney (a -ℤ r +ℤ l)
less a l r hl hs hr le =
    subst IsMoney (taken_sum a l r)
      (IsMoney-left (a +ℤ l) r hs hr (more a l r (money_nonneg l hl) le))

owners_differ :
    (user_id asset_id other_asset : Uuid) (w : Wallet)
    → is_treasury asset_id w ≡ true
    → is_user_wallet user_id other_asset w ≡ true
    → ⊥
owners_differ user_id asset_id other_asset w h k = ground arith

module _ (platform : Platform) (columns : ExactColumns platform) (x : Funding)
    (amount_money : IsMoney x.call.amount) (db : Db) (sound : IsSound db)
    (room : All (HasRoom x.call.amount) db.wallets) (treasury user_wallet : Wallet)
    (treasury_found : find? (is_treasury x.asset.id) db.wallets ≡ some treasury)
    (user_found : find? (is_user_wallet x.call.user_id x.asset.id) db.wallets ≡ some user_wallet)
    (covered : ltb_ℤ treasury.available_balance x.call.amount ≡ false) (v : Moved)
    (moved : IsMoved platform x treasury user_wallet v) where
  treasury_money : HasMoney treasury
  treasury_money = All-find? HasMoney (is_treasury x.asset.id) db.wallets sound.money treasury_found

  user_money : HasMoney user_wallet
  user_money =
      All-find? HasMoney (is_user_wallet x.call.user_id x.asset.id) db.wallets sound.money
        user_found

  user_room : HasRoom x.call.amount user_wallet
  user_room =
      All-find? (HasRoom x.call.amount) (is_user_wallet x.call.user_id x.asset.id) db.wallets room
        user_found

  enough : x.call.amount ≤ℤ treasury.available_balance
  enough = not_short treasury.available_balance x.call.amount covered

  left-IsMoney : IsMoney (treasury.available_balance -ℤ x.call.amount)
  left-IsMoney = IsMoney-left _ _ treasury_money.0 amount_money enough

  pub treasury_value : v.treasury_balance ≡ treasury.available_balance -ℤ x.call.amount
  treasury_value = same_value moved.treasury_balance (
      ap platform.store_numeric (sub-exact treasury.available_balance x.call.amount left-IsMoney)
      ∙ columns.exact (treasury.available_balance -ℤ x.call.amount) left-IsMoney)

  pub user_value : v.user_balance ≡ user_wallet.available_balance +ℤ x.call.amount
  user_value = same_value moved.user_balance (
      ap platform.store_numeric (add-exact user_wallet.available_balance x.call.amount user_room.0)
      ∙ columns.exact (user_wallet.available_balance +ℤ x.call.amount) user_room.0)

  amount_value : v.amount ≡ x.call.amount
  amount_value = same_value moved.amount (columns.exact x.call.amount amount_money)

  -- After the treasury's wallet is debited.
  debited_db : Db
  debited_db = record db {
    wallets = update (λ w. w.id) treasury.id (set_balance v.treasury_balance) db.wallets;
    entries = record (treasury_debit x treasury) { amount = v.amount } ∷ db.entries;
  }

  apart : (user_wallet.id == treasury.id) ≡ false
  apart = elim (Bool-cases (user_wallet.id == treasury.id)) [
    | inl same ↦
        let one : user_wallet ≡ treasury =
          find?_same (is_user_wallet x.call.user_id x.asset.id) (is_treasury x.asset.id) (λ w. w.id)
            db.wallets sound.ids user_found treasury_found
            ((==_iff user_wallet.id treasury.id).0 same) in
        absurd (
          owners_differ x.call.user_id x.asset.id x.asset.id treasury
            (find?-test (is_treasury x.asset.id) db.wallets treasury_found)
            (subst (λ w. is_user_wallet x.call.user_id x.asset.id w ≡ true) one
              (find?-test (is_user_wallet x.call.user_id x.asset.id) db.wallets user_found)))
    | inr other ↦ other
  ]

  pub user_kept :
      find?
        (is_user_wallet x.call.user_id x.asset.id)
        (update (λ w. w.id) treasury.id (set_balance v.treasury_balance) db.wallets)
      ≡ some user_wallet
  user_kept =
      find?-update (is_user_wallet x.call.user_id x.asset.id) (λ w. w.id) treasury.id
        (set_balance v.treasury_balance) db.wallets (λ w. refl)
      ∙ rw (user_found, apart) refl

  pub ids_kept :
      Unique
        (λ w. w.id)
        (update (λ w. w.id) treasury.id (set_balance v.treasury_balance) db.wallets)
  ids_kept =
      update-Unique (λ w. w.id) treasury.id (set_balance v.treasury_balance) db.wallets (λ w. refl)
        sound.ids

  debit_said :
      (b : BalanceBucket)
      → bucket_value b (set_balance v.treasury_balance treasury)
        ≡ bucket_value b treasury
          +ℤ posting b treasury.id (record (treasury_debit x treasury) { amount = v.amount })
  debit_said available = rw (==_refl treasury.id, treasury_value, amount_value) (omega int_laws)
  debit_said locked = rw (==_refl treasury.id) (omega int_laws)

  credit_said :
      (b : BalanceBucket)
      → bucket_value b (set_balance v.user_balance user_wallet)
        ≡ bucket_value b user_wallet
          +ℤ posting b user_wallet.id (record (user_credit x user_wallet) { amount = v.amount })
  credit_said available = rw (==_refl user_wallet.id, user_value, amount_value) refl
  credit_said locked = rw (==_refl user_wallet.id) (omega int_laws)

  pub transferred-explained :
      (b : BalanceBucket) (k : Uuid)
      → unexplained b k (transferred platform x treasury user_wallet v db) ≡ unexplained b k db
  unfolding debited_db
  transferred-explained b k =
      explained-step (is_user_wallet x.call.user_id x.asset.id) debited_db
        (transferred platform x treasury user_wallet v db) user_wallet ids_kept user_kept
        (set_balance v.user_balance) (λ w. refl)
        (record (user_credit x user_wallet) { amount = v.amount }) refl refl b k refl
        (credit_said b)
      ∙ explained-step (is_treasury x.asset.id) db debited_db treasury sound.ids treasury_found
          (set_balance v.treasury_balance) (λ w. refl)
          (record (treasury_debit x treasury) { amount = v.amount }) refl refl b k refl
          (debit_said b)

  treasury_HasMoney : HasMoney (set_balance v.treasury_balance treasury)
  treasury_HasMoney = rw treasury_value (
    left-IsMoney,
    treasury_money.1,
    less _ _ _ treasury_money.1 treasury_money.2 amount_money enough,
  )

  user_HasMoney : HasMoney (set_balance v.user_balance user_wallet)
  user_HasMoney = rw user_value (user_room.0, user_money.1, user_room.1)

  pub transferred-IsSound : IsSound (transferred platform x treasury user_wallet v db)
  transferred-IsSound = record {
    ids =
        update-Unique (λ w. w.id) user_wallet.id (set_balance v.user_balance)
          (update (λ w. w.id) treasury.id (set_balance v.treasury_balance) db.wallets) (λ w. refl)
          ids_kept;
    money =
        All-update_found HasMoney (is_user_wallet x.call.user_id x.asset.id) (λ w. w.id)
          (set_balance v.user_balance)
          (update (λ w. w.id) treasury.id (set_balance v.treasury_balance) db.wallets) ids_kept
          user_kept user_HasMoney
          (All-update_found HasMoney (is_treasury x.asset.id) (λ w. w.id)
            (set_balance v.treasury_balance) db.wallets sound.ids treasury_found treasury_HasMoney
            sound.money);
    order_ids = sound.order_ids;
    reserved = sound.reserved;
  }

module _ (platform : Platform) (draws : FundingDraws) (call : FundingCall) (db db' : Db)
    (r : FundingResult) (columns : ExactColumns platform) (sound : IsSound db)
    (amount_money : IsMoney call.amount) (room : All (HasRoom call.amount) db.wallets)
    (success : post_sandbox_funding platform draws call db ≡ ok (r, db')) where
  posted_books :
      (x : Funding)
      → x.call ≡ call
      → (treasury_wallet user_wallet : Wallet) (db₁ : Db)
      → IsFunding platform db x treasury_wallet user_wallet db₁
      → (v : Moved) → IsMoved platform x treasury_wallet user_wallet v
      → db' ≡ transferred platform x treasury_wallet user_wallet v db₁
      → IsSound db' × ((b : BalanceBucket) (k : Uuid) → unexplained b k db' ≡ unexplained b k db)
  posted_books x same treasury_wallet user_wallet db₁ paid v moved state =
      let x_money = subst (λ (c : FundingCall). IsMoney c.amount) (sym same) amount_money in
      let x_room = subst (λ (c : FundingCall). All (HasRoom c.amount) db.wallets) (sym same) room in
      let o =
        wallet_or_opened-IsOpened x db sound x_room x_money platform columns _ user_wallet db₁ refl
          paid.wallet in
      let treasury_found = o.treasury ∙ paid.treasury in
      (
        subst IsSound (sym state) (
            transferred-IsSound platform columns x x_money db₁ o.sound o.room treasury_wallet
              user_wallet treasury_found o.found paid.covered v moved),
        λ b k.
            ap (unexplained b k) state
            ∙ transferred-explained platform columns x x_money db₁ o.sound o.room treasury_wallet
                user_wallet treasury_found o.found paid.covered v moved b k
            ∙ o.explained b k,
      )

  -- If the columns hold money exactly, the books are sound, the amount is money, and so is every
  -- wallet's available balance with the amount added to it, alone and together with its locked
  -- balance, then after a successful `post_sandbox_funding` the books are sound, and for every
  -- wallet the part of its available and of its locked balance that no ledger entry explains is
  -- what it was before.
  pub post_sandbox_funding-keeps_books :
      IsSound db' × ((b : BalanceBucket) (k : Uuid) → unexplained b k db' ≡ unexplained b k db)
  post_sandbox_funding-keeps_books =
      let (x, shape, _, _, outcome) =
        post_sandbox_funding-outcome platform draws call db db' r success in
      elim outcome [
        | inl (_, same) ↦ (subst IsSound (sym same) sound, λ b k. ap (unexplained b k) same)
        | inr (treasury_wallet, user_wallet, db₁, paid, h) ↦
            let (v, moved, state, _) =
              post_transfer-transferred platform x treasury_wallet user_wallet db₁ db' r h in
            posted_books x (ap (λ (y : Funding). y.call) shape) treasury_wallet user_wallet db₁ paid
              v moved state
      ]

-- ===== src/Accounts/Supplied.antt =====
-- How much of an asset the wallets hold together, through a funding.
use crypto_ledger_sandbox.Prelude.{
  true, false, Bool-cases, Option, none, some, ◌≡◌, refl, sym, ap, subst, ◌∙◌, inl, inr, ◌==◌, pos,
  ◌+ℤ◌, ◌-ℤ◌, int_laws, find?, find?-test, total, total-update, All, update, ltb_ℤ, arith,
}
use crypto_ledger_sandbox.Decimal.{Decimal, IsMoney}
use crypto_ledger_sandbox.Models.{Uuid, Wallet}
use crypto_ledger_sandbox.Db.{Db, Platform, ok, insert_wallet}
use crypto_ledger_sandbox.Db.Laws.{same_value, ok-state, >>=-ok, insert_wallet-ok}
use crypto_ledger_sandbox.Ledger.{
  Funding, FundingCall, FundingDraws, FundingResult, is_treasury, is_user_wallet, opened_wallet,
  wallet_or_opened, post_sandbox_funding,
}
use crypto_ledger_sandbox.Ledger.Posted.{
  Moved, IsMoved, transferred, set_balance, post_transfer-transferred,
}
use crypto_ledger_sandbox.Ledger.Outcomes.{post_sandbox_funding-outcome}
use crypto_ledger_sandbox.Accounts.{ExactColumns, IsSound}
use crypto_ledger_sandbox.Accounts.Opening.{HasRoom, zero-IsMoney, wallet_or_opened-IsOpened}
use crypto_ledger_sandbox.Accounts.Funding.{treasury_value, user_value, user_kept, ids_kept}
use crypto_ledger_sandbox.Accounts.Supply.{holding_of, supply, unmoved}

asset_of_treasury : (a : Uuid) (w : Wallet) → is_treasury a w ≡ true → w.asset_id ≡ a
asset_of_treasury a w h = ground arith

asset_of_user : (u a : Uuid) (w : Wallet) → is_user_wallet u a w ≡ true → w.asset_id ≡ a
asset_of_user u a w h = ground arith

-- An amount taken from one holding and put on another.
exchanged :
    (t0 t1 t2 ta tl ua ul r y z : Decimal)
    → t1 +ℤ (ta +ℤ tl) ≡ t0 +ℤ (y +ℤ tl)
    → t2 +ℤ (ua +ℤ ul) ≡ t1 +ℤ (z +ℤ ul)
    → y ≡ ta -ℤ r
    → z ≡ ua +ℤ r
    → t2 ≡ t0
exchanged t0 t1 t2 ta tl ua ul r y z h k e f = grind (int_laws, h, k, e, f)

-- A holding with another available balance, in the asset or not.
counted_sum :
    (t0 t1 t2 : Decimal) (treasury user_wallet : Wallet) (r y z : Decimal) (a : Uuid)
    → treasury.asset_id ≡ user_wallet.asset_id
    → t1 +ℤ holding_of a treasury ≡ t0 +ℤ holding_of a (set_balance y treasury)
    → t2 +ℤ holding_of a user_wallet ≡ t1 +ℤ holding_of a (set_balance z user_wallet)
    → y ≡ treasury.available_balance -ℤ r
    → z ≡ user_wallet.available_balance +ℤ r
    → t2 ≡ t0
counted_sum t0 t1 t2 treasury user_wallet r y z a same h k e f =
    elim (Bool-cases (user_wallet.asset_id == a)) [
      | inl own ↦ exchanged t0 t1 t2 _ _ _ _ r y z (rw (same, own) at h) (rw own at k) e f
      | inr other ↦
          unmoved t2 t1 (pos 0) (rw other at k) ∙ unmoved t1 t0 (pos 0) (rw (same, other) at h)
    ]

module _ (platform : Platform) (columns : ExactColumns platform) (x : Funding)
    (amount_money : IsMoney x.call.amount) (db : Db) (sound : IsSound db) where
  transferred-supply :
      (room : All (HasRoom x.call.amount) db.wallets) (treasury user_wallet : Wallet)
      (treasury_found : find? (is_treasury x.asset.id) db.wallets ≡ some treasury)
      (user_found : find? (is_user_wallet x.call.user_id x.asset.id) db.wallets ≡ some user_wallet)
      (covered : ltb_ℤ treasury.available_balance x.call.amount ≡ false) (v : Moved)
      (moved : IsMoved platform x treasury user_wallet v) (a : Uuid)
      → supply a (transferred platform x treasury user_wallet v db) ≡ supply a db
  unfolding supply
  transferred-supply room treasury user_wallet treasury_found user_found covered v moved a =
      counted_sum _ _ _ treasury user_wallet x.call.amount v.treasury_balance v.user_balance a
        (asset_of_treasury x.asset.id treasury
            (find?-test (is_treasury x.asset.id) db.wallets treasury_found)
          ∙ sym (
              asset_of_user x.call.user_id x.asset.id user_wallet
                (find?-test (is_user_wallet x.call.user_id x.asset.id) db.wallets user_found)))
        (total-update (is_treasury x.asset.id) (λ w. w.id) (holding_of a)
          (set_balance v.treasury_balance) db.wallets sound.ids treasury_found)
        (total-update (is_user_wallet x.call.user_id x.asset.id) (λ w. w.id) (holding_of a)
          (set_balance v.user_balance)
          (update (λ w. w.id) treasury.id (set_balance v.treasury_balance) db.wallets)
          (ids_kept platform columns x amount_money db sound room treasury user_wallet
            treasury_found user_found covered v moved)
          (user_kept platform columns x amount_money db sound room treasury user_wallet
            treasury_found user_found covered v moved))
        (treasury_value platform columns x amount_money db sound room treasury user_wallet
          treasury_found user_found covered v moved)
        (user_value platform columns x amount_money db sound room treasury user_wallet
          treasury_found user_found covered v moved)

  added_nothing : (s : Decimal) → pos 0 +ℤ s ≡ s
  added_nothing s = omega int_laws

  opened_nothing :
      (w : Wallet) (a : Uuid)
      → w.available_balance ≡ pos 0
      → w.locked_balance ≡ pos 0
      → holding_of a w ≡ pos 0
  unfolding ◌+ℤ◌
  opened_nothing w a e f = elim (Bool-cases (w.asset_id == a)) [
    | inl own ↦ rw (own, e, f) refl
    | inr other ↦ rw other refl
  ]

  wallet_or_opened-supply :
      (o : Option Wallet) (user_wallet : Wallet) (db₁ : Db) (a : Uuid)
      → wallet_or_opened platform x o db ≡ ok (user_wallet, db₁)
      → supply a db₁ ≡ supply a db
  unfolding wallet_or_opened supply total
  wallet_or_opened-supply (some w) user_wallet db₁ a h = sym (ap (supply a) (ok-state h))
  wallet_or_opened-supply none user_wallet db₁ a h =
      let (_, d, h₁, h₂) = >>=-ok (insert_wallet platform (opened_wallet x)) _ db h in
      let (b, l, sb, sl, _, state) = insert_wallet-ok platform (opened_wallet x) db h₁ in
      let b0 : b ≡ pos 0 = same_value sb (columns.exact (pos 0) zero-IsMoney) in
      let l0 : l ≡ pos 0 = same_value sl (columns.exact (pos 0) zero-IsMoney) in
      sym (ap (supply a) (ok-state h₂))
      ∙ ap (supply a) state
      ∙ ap (λ s. s +ℤ supply a db)
          (opened_nothing (record (opened_wallet x) { available_balance = b; locked_balance = l }) a
            b0 l0)
      ∙ added_nothing (supply a db)

-- A funding.
pub post_sandbox_funding-supply :
    (platform : Platform) (draws : FundingDraws) (call : FundingCall) (db db' : Db)
    (r : FundingResult) (a : Uuid)
    → ExactColumns platform
    → IsSound db
    → IsMoney call.amount
    → All (HasRoom call.amount) db.wallets
    → post_sandbox_funding platform draws call db ≡ ok (r, db')
    → supply a db' ≡ supply a db
post_sandbox_funding-supply platform draws call db db' r a columns sound amount_money room success =
    let (x, shape, _, _, outcome) =
      post_sandbox_funding-outcome platform draws call db db' r success in
    let same : x.call ≡ call = ap (λ (y : Funding). y.call) shape in
    elim outcome [
      | inl (_, same) ↦ ap (supply a) same
      | inr (treasury_wallet, user_wallet, db₁, paid, h) ↦
          let (v, moved, state, _) =
            post_transfer-transferred platform x treasury_wallet user_wallet db₁ db' r h in
          let x_money = subst (λ (c : FundingCall). IsMoney c.amount) (sym same) amount_money in
          let x_room =
            subst (λ (c : FundingCall). All (HasRoom c.amount) db.wallets) (sym same) room in
          let o =
            wallet_or_opened-IsOpened x db sound x_room x_money platform columns _ user_wallet db₁
              refl paid.wallet in
          ap (supply a) state
          ∙ transferred-supply platform columns x x_money db₁ o.sound o.room treasury_wallet
              user_wallet (o.treasury ∙ paid.treasury) o.found paid.covered v moved a
          ∙ wallet_or_opened-supply platform columns x x_money db sound _ user_wallet db₁ a
              paid.wallet
    ]

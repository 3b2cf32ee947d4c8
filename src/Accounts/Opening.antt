-- ===== src/Accounts/Opening.antt =====
-- The wallet that `wallet_or_opened` of the funding finds or makes, and the books with it.
use crypto_ledger_sandbox.Prelude.{
  ◌==◌, ==_refl, ==_iff, Bool-cases, true, false, Option, none, some, ◌∷◌, ◌≡◌, refl, sym, subst,
  ◌∙◌, inl, inr, pos, ◌+ℤ◌, int_laws, any?, find?, find?-none, All, arith,
}
use crypto_ledger_sandbox.Decimal.{Decimal, IsMoney}
use crypto_ledger_sandbox.Models.{Uuid, Wallet, BalanceBucket, available, locked}
use crypto_ledger_sandbox.Db.{Db, Platform, ok, insert_wallet, wallet_allowed}
use crypto_ledger_sandbox.Db.Laws.{same_value, ok-value, ok-state, >>=-ok, insert_wallet-ok}
use crypto_ledger_sandbox.Ledger.{
  Funding, is_treasury, is_user_wallet, opened_wallet, wallet_or_opened,
}
use crypto_ledger_sandbox.Accounts.{unexplained, bucket_value, ExactColumns, IsSound}

pub new_id :
    (w : Wallet) (db : Db)
    → wallet_allowed w db ≡ true
    → any? (λ v. v.id == w.id) db.wallets ≡ false
unfolding wallet_allowed
new_id w db h = ground arith

-- A balance on which the amount can be put.
abbrev pub HasRoom : Decimal → Wallet → Type 0
HasRoom amount w =
    IsMoney (w.available_balance +ℤ amount)
    × IsMoney (w.available_balance +ℤ amount +ℤ w.locked_balance)

-- What the call finds or makes: the user's wallet, in books that are as sound as before.
pub record IsOpened (x : Funding) (db db₁ : Db) (user_wallet : Wallet) : Type 0 where
  pub found : find? (is_user_wallet x.call.user_id x.asset.id) db₁.wallets ≡ some user_wallet
  pub treasury :
      find? (is_treasury x.asset.id) db₁.wallets ≡ find? (is_treasury x.asset.id) db.wallets
  pub sound : IsSound db₁
  pub room : All (HasRoom x.call.amount) db₁.wallets
  pub explained : (b : BalanceBucket) (k : Uuid) → unexplained b k db₁ ≡ unexplained b k db

pub zero-IsMoney : IsMoney (pos 0)
zero-IsMoney = (refl, omega arith)

zero_sum : IsMoney (pos 0 +ℤ pos 0)
unfolding ◌+ℤ◌
zero_sum = (refl, omega arith)

zero_left : (a : Decimal) → pos 0 +ℤ a ≡ a
zero_left a = omega int_laws

zero_both : (a : Decimal) → pos 0 +ℤ a +ℤ pos 0 ≡ a
zero_both a = omega int_laws

empty_value : (b : BalanceBucket) (x : Funding) → bucket_value b (opened_wallet x) ≡ pos 0
empty_value available x = refl
empty_value locked x = refl

module _ (x : Funding) (db : Db) (sound : IsSound db)
    (room : All (HasRoom x.call.amount) db.wallets) (amount_money : IsMoney x.call.amount) where
  abbrev opened_db : Db
  opened_db = record db { wallets = opened_wallet x ∷ db.wallets }

  opened-explained :
      any? (λ v. v.id == x.draws.wallet_id) db.wallets ≡ false
      → (b : BalanceBucket) (k : Uuid) → unexplained b k opened_db ≡ unexplained b k db
  unfolding unexplained find?
  opened-explained fresh b k = elim (Bool-cases (x.draws.wallet_id == k)) [
    | inl own ↦
        let absent : find? (λ w. w.id == k) db.wallets ≡ none =
          subst (λ j. find? (λ w. w.id == j) db.wallets ≡ none) ((==_iff x.draws.wallet_id k).0 own)
            (find?-none (λ v. v.id == x.draws.wallet_id) db.wallets fresh) in
        rw (own, absent, empty_value b x) refl
    | inr other ↦ rw other refl
  ]

  added-IsOpened :
      any? (λ v. v.id == x.draws.wallet_id) db.wallets ≡ false
      → IsOpened x db opened_db (opened_wallet x)
  unfolding find?
  added-IsOpened fresh = record {
    found = rw (==_refl x.call.user_id, ==_refl x.asset.id) refl;
    treasury = refl;
    sound = record {
      ids = (fresh, sound.ids);
      money = ((zero-IsMoney, zero-IsMoney, zero_sum), sound.money);
      order_ids = sound.order_ids;
      reserved = sound.reserved;
    };
    room = (
      (
        subst IsMoney (sym (zero_left x.call.amount)) amount_money,
        subst IsMoney (sym (zero_both x.call.amount)) amount_money,
      ),
      room,
    );
    explained = opened-explained fresh;
  }

  module _ (platform : Platform) (columns : ExactColumns platform) where
    pub wallet_or_opened-IsOpened :
        (o : Option Wallet) (user_wallet : Wallet) (db₁ : Db)
        → find? (is_user_wallet x.call.user_id x.asset.id) db.wallets ≡ o
        → wallet_or_opened platform x o db ≡ ok (user_wallet, db₁)
        → IsOpened x db db₁ user_wallet
    unfolding wallet_or_opened
    wallet_or_opened-IsOpened (some w) user_wallet db₁ e h =
        subst (IsOpened x db db₁) (ok-value h) (
          subst (λ d. IsOpened x db d w) (ok-state h)
            (record {
              found = e;
              treasury = refl;
              sound = sound;
              room = room;
              explained = λ b k. refl;
            }))
    wallet_or_opened-IsOpened none user_wallet db₁ e h =
        let (_, d, h₁, h₂) = >>=-ok (insert_wallet platform (opened_wallet x)) _ db h in
        let (a, l, sa, sl, allowed, state) = insert_wallet-ok platform (opened_wallet x) db h₁ in
        let a0 : a ≡ pos 0 = same_value sa (columns.exact (pos 0) zero-IsMoney) in
        let l0 : l ≡ pos 0 = same_value sl (columns.exact (pos 0) zero-IsMoney) in
        let stored : d ≡ opened_db = state ∙ rw (a0, l0) refl in
        let fresh =
          new_id (record (opened_wallet x) { available_balance = a; locked_balance = l }) db
            allowed in
        subst (IsOpened x db db₁) (ok-value h₂) (
          subst (λ d. IsOpened x db d (opened_wallet x)) (sym stored ∙ ok-state h₂)
            (added-IsOpened fresh))

-- ===== src/Accounts/Backed.antt =====
-- The balances after a change of one user's wallet.
use crypto_ledger_sandbox.Prelude.{
  Bool, Bool-cases, true, false, ◌&&◌, Option, none, some, ◌≡◌, refl, subst, inl, inr, ◌==◌,
  ==_refl, ==_iff, if◌then◌else◌, find?, find?-test, find?-update, find?_same, updated, update,
  Unique, pos, arith, List,
}
use crypto_ledger_sandbox.Decimal.{Decimal}
use crypto_ledger_sandbox.Models.{Uuid, Wallet, Order, opened, locked, BalanceBucket}
use crypto_ledger_sandbox.Orders.{reserve_asset_id}
use crypto_ledger_sandbox.Db.{Db}
use crypto_ledger_sandbox.Ledger.{is_user_wallet}
use crypto_ledger_sandbox.Accounts.{value_or_zero, bucket_value, held_by}

abbrev pub is_owner : Uuid → Uuid → Uuid → Uuid → Bool
is_owner user_id asset_id u a = user_id == u && asset_id == a

one_owner :
    (user_id asset_id u a : Uuid) (w : Wallet)
    → is_user_wallet user_id asset_id w ≡ true
    → is_user_wallet u a w ≡ true
    → is_owner user_id asset_id u a ≡ true
one_owner user_id asset_id u a w h k = ground arith

abbrev pub with_balances : Decimal → Decimal → Wallet → Wallet
with_balances y z w = record w { available_balance = y; locked_balance = z }

module _ (user_id asset_id : Uuid) (wallets : List Wallet) (wallet : Wallet)
    (ids : Unique (λ w. w.id) wallets)
    (found : find? (is_user_wallet user_id asset_id) wallets ≡ some wallet) (f : Wallet → Wallet)
    (b : BalanceBucket) where
  pub found_by_owner :
      (u a : Uuid)
      → is_owner user_id asset_id u a ≡ true
      → find? (is_user_wallet u a) wallets ≡ some wallet
  found_by_owner u a owner =
      let same_user : user_id ≡ u = ground arith in
      let same_asset : asset_id ≡ a = ground arith in
      subst (λ v. find? (is_user_wallet v a) wallets ≡ some wallet) same_user
        (subst (λ c. find? (is_user_wallet user_id c) wallets ≡ some wallet) same_asset found)

  not_owner :
      (u a : Uuid) (o : Option Wallet)
      → find? (is_user_wallet u a) wallets ≡ o
      → is_owner user_id asset_id u a ≡ false
      → value_or_zero b (updated (λ w. w.id) wallet.id f o) ≡ value_or_zero b o
  not_owner u a none e h = refl
  not_owner u a (some w) e h = elim (Bool-cases (w.id == wallet.id)) [
    | inl same ↦
        let one =
          find?_same (is_user_wallet u a) (is_user_wallet user_id asset_id) (λ w. w.id) wallets ids
            e found ((==_iff w.id wallet.id).0 same) in
        let test =
          subst (λ v. is_user_wallet u a v ≡ true) one
            (find?-test (is_user_wallet u a) wallets e) in
        let owner =
          one_owner user_id asset_id u a wallet
            (find?-test (is_user_wallet user_id asset_id) wallets found) test in
        absurd (ground arith)
    | inr other ↦ rw other refl
  ]

  -- A bucket of every user in every asset, after a change of one user's wallet.
  pub bucket-update :
      (u a : Uuid)
      → ((w : Wallet) → is_user_wallet u a (f w) ≡ is_user_wallet u a w)
      → value_or_zero b (find? (is_user_wallet u a) (update (λ w. w.id) wallet.id f wallets)) ≡ (
          if is_owner user_id asset_id u a
          then bucket_value b (f wallet)
          else value_or_zero b (find? (is_user_wallet u a) wallets))
  bucket-update u a same_test =
      rw (find?-update (is_user_wallet u a) (λ w. w.id) wallet.id f wallets same_test)
        (elim (Bool-cases (is_owner user_id asset_id u a)) [
          | inl owner ↦ rw (owner, found_by_owner u a owner, ==_refl wallet.id) refl
          | inr other ↦ rw other (not_owner u a (find? (is_user_wallet u a) wallets) refl other)
        ])

module _ (user_id asset_id : Uuid) (db : Db) (wallet : Wallet) (y z : Decimal)
    (ids : Unique (λ w. w.id) db.wallets)
    (found : find? (is_user_wallet user_id asset_id) db.wallets ≡ some wallet) where
  pub owner_found :
      (u a : Uuid)
      → is_owner user_id asset_id u a ≡ true
      → find? (is_user_wallet u a) db.wallets ≡ some wallet
  owner_found =
      found_by_owner user_id asset_id db.wallets wallet ids found (with_balances y z) locked

  pub locked-update :
      (u a : Uuid)
      → value_or_zero locked
          (find? (is_user_wallet u a) (update (λ w. w.id) wallet.id (with_balances y z) db.wallets))
        ≡ (if is_owner user_id asset_id u a
            then z
            else value_or_zero locked (find? (is_user_wallet u a) db.wallets))
  locked-update u a =
      bucket-update user_id asset_id db.wallets wallet ids found (with_balances y z) locked u a
        (λ w. refl)

-- What an open order holds, by its user and its asset.
pub held_at :
    (o : Order) (asset_id u a : Uuid)
    → asset_id ≡ reserve_asset_id o
    → o.status ≡ opened
    → held_by u a o ≡ (if is_owner o.user_id asset_id u a then o.reserved_amount else pos 0)
held_at o asset_id u a e s =
    rw (e, s) (elim (Bool-cases (reserve_asset_id o == a)) [ inl h ↦ rw h | inr h ↦ rw h ])

-- ===== src/Accounts/Explained.antt =====
-- A change of one wallet and the entries that say it, for the unexplained part of the balances.
use crypto_ledger_sandbox.Prelude.{
  Bool, Bool-cases, false, some, ◌≡◌, sym, subst, ==_refl, inl, inr, ◌∷◌, ◌==◌, ==_iff,
  if◌then◌else◌, ◌+ℤ◌, ◌-ℤ◌, ◌≤ℤ◌, ltb_ℤ, int_laws, find?, total, Unique, find?_key,
  find?-update_key, arith, update,
}
use crypto_ledger_sandbox.Decimal.{Decimal}
use crypto_ledger_sandbox.Models.{Uuid, Wallet, BalanceBucket, LedgerEntry}
use crypto_ledger_sandbox.Db.{Db}
use crypto_ledger_sandbox.Accounts.{unexplained, value_or_zero, bucket_value, posting}

pub ==_sym_false : (a b : Uuid) → (a == b) ≡ false → (b == a) ≡ false
==_sym_false a b h = ground arith

pub not_short : (a b : Decimal) → ltb_ℤ a b ≡ false → b ≤ℤ a
not_short a b h = ground arith

explained_sum : (y w p q t : Decimal) → y ≡ w +ℤ p +ℤ q → y -ℤ (p +ℤ (q +ℤ t)) ≡ w -ℤ t
explained_sum y w p q t h = grind (int_laws, h)

step_sum : (y w p t : Decimal) → y ≡ w +ℤ p → y -ℤ (p +ℤ t) ≡ w -ℤ t
step_sum y w p t h = grind (int_laws, h)

module _ (p : Wallet → Bool) (db : Db) (wallet : Wallet) (ids : Unique (λ w. w.id) db.wallets)
    (found : find? p db.wallets ≡ some wallet) where
  -- The balances of all wallets after a change of one.
  pub value-update :
      (b : BalanceBucket) (k : Uuid) (f : Wallet → Wallet)
      → ((w : Wallet) → (f w).id ≡ w.id)
      → value_or_zero b (find? (λ w. w.id == k) (update (λ w. w.id) wallet.id f db.wallets)) ≡ (
          if k == wallet.id
          then bucket_value b (f wallet)
          else value_or_zero b (find? (λ w. w.id == k) db.wallets))
  value-update b k f keeps =
      rw
        (find?-update_key (λ w. w.id) wallet.id k f db.wallets keeps
          (find?_key p (λ w. w.id) db.wallets ids found))
        (elim (Bool-cases (k == wallet.id)) [ inl own ↦ rw own | inr other ↦ rw other ])

  module _ (f : Wallet → Wallet) (keeps : (w : Wallet) → (f w).id ≡ w.id) (c d : LedgerEntry)
      (db' : Db) (ws : db'.wallets ≡ update (λ w. w.id) wallet.id f db.wallets)
      (es : db'.entries ≡ c ∷ d ∷ db.entries) where
    explained-own :
        (b : BalanceBucket)
        → bucket_value b (f wallet)
          ≡ bucket_value b wallet +ℤ posting b wallet.id c +ℤ posting b wallet.id d
        → unexplained b wallet.id db' ≡ unexplained b wallet.id db
    unfolding unexplained total
    explained-own b said =
        rw
          (
            ws,
            es,
            value-update b wallet.id f keeps,
            ==_refl wallet.id,
            find?_key p (λ w. w.id) db.wallets ids found,
          )
          (explained_sum _ _ _ _ _ said)

    explained-other :
        (b : BalanceBucket) (k : Uuid)
        → c.wallet_id ≡ wallet.id
        → d.wallet_id ≡ wallet.id
        → (k == wallet.id) ≡ false
        → unexplained b k db' ≡ unexplained b k db
    unfolding unexplained total
    explained-other b k cw dw other =
        rw (ws, es, value-update b k f keeps, other, cw, dw, ==_sym_false k wallet.id other)
          (omega int_laws)

    -- A change of one wallet with two entries of that wallet that say what has changed.
    pub explained-move :
        (b : BalanceBucket) (k : Uuid)
        → c.wallet_id ≡ wallet.id
        → d.wallet_id ≡ wallet.id
        → bucket_value b (f wallet)
          ≡ bucket_value b wallet +ℤ posting b wallet.id c +ℤ posting b wallet.id d
        → unexplained b k db' ≡ unexplained b k db
    explained-move b k cw dw said = elim (Bool-cases (k == wallet.id)) [
      | inl own ↦
          subst (λ j. unexplained b j db' ≡ unexplained b j db) (sym ((==_iff k wallet.id).0 own))
            (explained-own b said)
      | inr other ↦ explained-other b k cw dw other
    ]

-- A change of one wallet with one entry of that wallet that says what has changed.
module _ (p : Wallet → Bool) (db db' : Db) (wallet : Wallet) (ids : Unique (λ w. w.id) db.wallets)
    (found : find? p db.wallets ≡ some wallet) (f : Wallet → Wallet)
    (keeps : (w : Wallet) → (f w).id ≡ w.id) (c : LedgerEntry)
    (ws : db'.wallets ≡ update (λ w. w.id) wallet.id f db.wallets)
    (es : db'.entries ≡ c ∷ db.entries) where
  step_own :
      (b : BalanceBucket)
      → bucket_value b (f wallet) ≡ bucket_value b wallet +ℤ posting b wallet.id c
      → unexplained b wallet.id db' ≡ unexplained b wallet.id db
  unfolding unexplained total
  step_own b said =
      rw
        (
          ws,
          es,
          value-update p db wallet ids found b wallet.id f keeps,
          ==_refl wallet.id,
          find?_key p (λ w. w.id) db.wallets ids found,
        )
        (step_sum _ _ _ _ said)

  step_other :
      (b : BalanceBucket) (k : Uuid)
      → c.wallet_id ≡ wallet.id
      → (k == wallet.id) ≡ false
      → unexplained b k db' ≡ unexplained b k db
  unfolding unexplained total
  step_other b k cw other =
      rw
        (
          ws,
          es,
          value-update p db wallet ids found b k f keeps,
          other,
          cw,
          ==_sym_false k wallet.id other,
        )
        (omega int_laws)

  pub explained-step :
      (b : BalanceBucket) (k : Uuid)
      → c.wallet_id ≡ wallet.id
      → bucket_value b (f wallet) ≡ bucket_value b wallet +ℤ posting b wallet.id c
      → unexplained b k db' ≡ unexplained b k db
  explained-step b k cw said = elim (Bool-cases (k == wallet.id)) [
    | inl own ↦
        subst (λ j. unexplained b j db' ≡ unexplained b j db) (sym ((==_iff k wallet.id).0 own))
          (step_own b said)
    | inr other ↦ step_other b k cw other
  ]

-- ===== src/Api/OwnRows.antt =====
-- The rows that the query of app/api/routes/balances.py selects, before they are ordered.
use crypto_ledger_sandbox.Prelude.{
  true, false, Option, none, some, ◌≡◌, refl, sym, ap, subst, inl, inr, Bool-cases, Option-cases,
  List, [], ◌∷◌, ◌==◌, ==_iff, ==_refl, find?, find?-any, any?, Unique, All, All-weaken, arith,
}
use crypto_ledger_sandbox.Models.{Uuid, Asset, Wallet, WalletOwnerType, user, system, owner_type_eq}
use crypto_ledger_sandbox.Db.{uuid_matches}
use crypto_ledger_sandbox.Api.WalletRoutes.{is_wallet_of, wallet_rows}

abbrev pub Row : Type 0
Row = Wallet × Asset

-- The row is a stored wallet of the user's, with the asset that it names.
pub record IsOwnRow (owner : Uuid) (assets : List Asset) (wallets : List Wallet) (row : Row)
    : Type 0 where
  pub stored : find? (λ w. w.id == row.0.id) wallets ≡ some row.0
  pub owner_type : row.0.owner_type ≡ user
  pub user_id : row.0.user_id ≡ some owner
  pub asset : find? (λ a. a.id == row.0.asset_id) assets ≡ some row.1

typed : (t : WalletOwnerType) → owner_type_eq t user ≡ true → t ≡ user
typed user h = refl
typed system h = cc

matched : (o : Option Uuid) {k : Uuid} → uuid_matches o (some k) ≡ true → o ≡ some k
matched none h = cc
matched (some j) {k} h = ap some ((==_iff j k).0 h)

module _ (user_id : Uuid) (assets : List Asset) where
  -- A row of the query: its wallet's identifier is in the table.
  absent_row :
      (k : Uuid) (wallets : List Wallet)
      → any? (λ w. w.id == k) wallets ≡ false
      → any? (λ (row : Row). row.0.id == k) (wallet_rows user_id assets wallets) ≡ false
  unfolding wallet_rows any?
  absent_row k [] h = refl
  absent_row k (w ∷ wallets) h = elim (Bool-cases (is_wallet_of user_id w)) [
    | inr other ↦ rw other (absent_row k wallets (ground arith))
    | inl own ↦ elim (Option-cases (find? (λ a. a.id == w.asset_id) assets)) [
      | inl absent ↦ rw (own, absent) (absent_row k wallets (ground arith))
      | inr (asset, found) ↦ rw (own, found) (ground (arith, h, absent_row k wallets))
    ]
  ]

  later_row :
      (w : Wallet) (wallets : List Wallet)
      → any? (λ v. v.id == w.id) wallets ≡ false
      → (row : Row) → IsOwnRow user_id assets wallets row
      → IsOwnRow user_id assets (w ∷ wallets) row
  unfolding find?
  later_row w wallets fresh row own = record {
    owner_type = own.owner_type;
    user_id = own.user_id;
    asset = own.asset;
    stored = ground (
      arith,
      own.stored,
      find?-any (λ v. v.id == row.0.id) (λ v. v.id == w.id) wallets {x = row.0} own.stored fresh,
    );
  }

  owned :
      (w : Wallet)
      → is_wallet_of user_id w ≡ true
      → (w.owner_type ≡ user) × (w.user_id ≡ some user_id)
  owned w h = (typed w.owner_type (ground arith), matched w.user_id (ground arith))

  pub wallet_rows-own :
      (wallets : List Wallet)
      → Unique (λ w. w.id) wallets
      → All (IsOwnRow user_id assets wallets) (wallet_rows user_id assets wallets)
  unfolding wallet_rows find?
  wallet_rows-own [] u = tt
  wallet_rows-own (w ∷ wallets) u =
      let rest =
        All-weaken (later_row w wallets u.0) (wallet_rows user_id assets wallets)
          (wallet_rows-own wallets u.1) in
      elim (Bool-cases (is_wallet_of user_id w)) [
        | inr other ↦ rw other rest
        | inl own ↦ elim (Option-cases (find? (λ a. a.id == w.asset_id) assets)) [
          | inl absent ↦ rw (own, absent) rest
          | inr (asset, found) ↦
              rw (own, found)
                (
                  record {
                    stored = rw (==_refl w.id) refl;
                    owner_type = (owned w own).0;
                    user_id = (owned w own).1;
                    asset = found;
                  },
                  rest,
                )
        ]
      ]

  pub wallet_rows-once :
      (wallets : List Wallet)
      → Unique (λ w. w.id) wallets
      → Unique (λ (row : Row). row.0.id) (wallet_rows user_id assets wallets)
  unfolding wallet_rows
  wallet_rows-once [] u = tt
  wallet_rows-once (w ∷ wallets) u = elim (Bool-cases (is_wallet_of user_id w)) [
    | inr other ↦ rw other (wallet_rows-once wallets u.1)
    | inl own ↦ elim (Option-cases (find? (λ a. a.id == w.asset_id) assets)) [
      | inl absent ↦ rw (own, absent) (wallet_rows-once wallets u.1)
      | inr (asset, found) ↦
          rw (own, found) (absent_row w.id wallets u.0, wallet_rows-once wallets u.1)
    ]
  ]

  -- A wallet of the user's is in the row's place or later.
  pub wallet_rows_complete :
      (wallets : List Wallet) (w : Wallet) (a : Asset)
      → find? (λ v. v.id == w.id) wallets ≡ some w
      → is_wallet_of user_id w ≡ true
      → find? (λ a. a.id == w.asset_id) assets ≡ some a
      → any? (λ (row : Row). row.0.id == w.id) (wallet_rows user_id assets wallets) ≡ true
  unfolding wallet_rows find? any?
  wallet_rows_complete [] w a stored own found = cc
  wallet_rows_complete (v ∷ wallets) w a stored own found = elim (Bool-cases (v.id == w.id)) [
    | inl here ↦
        let same : v ≡ w = ground arith in
        subst
          (λ u.
            any? (λ (row : Row). row.0.id == w.id) (wallet_rows user_id assets (u ∷ wallets))
            ≡ true)
          (sym same) (rw (own, found, ==_refl w.id) refl)
    | inr other ↦
        let later = wallet_rows_complete wallets w a (ground arith) own found in
        elim (Bool-cases (is_wallet_of user_id v)) [
          | inr not_own ↦ rw not_own later
          | inl its_own ↦ elim (Option-cases (find? (λ a. a.id == v.asset_id) assets)) [
            | inl absent ↦ rw (its_own, absent) later
            | inr (asset, there) ↦ rw (its_own, there, other, later) refl
          ]
        ]
  ]

pub is_own :
    (user_id : Uuid) (w : Wallet)
    → w.owner_type ≡ user
    → w.user_id ≡ some user_id
    → is_wallet_of user_id w ≡ true
is_own user_id w e f = rw (e, f, ==_refl user_id) refl

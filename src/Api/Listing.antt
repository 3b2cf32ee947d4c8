-- ===== src/Api/Listing.antt =====
-- The balances that app/api/routes/balances.py lists.
use mathlib.Core.Option.{some-injective}
use crypto_ledger_sandbox.Prelude.{
  true, some, ◌≡◌, refl, sym, ap, ◌∙◌, inl, inr, Option-cases, List, [], ◌∷◌, map, ◌==◌, ==_iff,
  find?, find?-test, any?-none, any?, ◌↔◌, Unique, All, All-find?, ◌+ℤ◌, arith,
}
use crypto_ledger_sandbox.Decimal.Exact.{add-exact}
use crypto_ledger_sandbox.Models.{Uuid, User, Asset, Wallet}
use crypto_ledger_sandbox.Db.{Db}
use crypto_ledger_sandbox.Accounts.{HasMoney, IsSound}
use crypto_ledger_sandbox.Api.Answers.{respond}
use crypto_ledger_sandbox.Api.Schemas.{WalletBalanceResponse}
use crypto_ledger_sandbox.Api.OwnRows.{
  Row, IsOwnRow, is_own, wallet_rows-own, wallet_rows-once, wallet_rows_complete,
}
use crypto_ledger_sandbox.Api.Rearranged.{
  Rearranged, any?-rearranged, All-rearranged, Unique-rearranged,
}
use crypto_ledger_sandbox.Api.WalletRoutes.{wallet_rows, balance_response, list_wallet_balances}

-- The balance of a row, its total as a sum that nothing rounds.
abbrev pub exact_balance : Row → WalletBalanceResponse
exact_balance row = record {
  asset_code = row.1.code;
  available_balance = row.0.available_balance;
  locked_balance = row.0.locked_balance;
  total_balance = row.0.available_balance +ℤ row.0.locked_balance;
}

-- The rows are the user's wallets with their assets, each once.
pub record IsListing (user_id : Uuid) (assets : List Asset) (wallets : List Wallet)
    (rows : List Row) : Type 0 where
  pub once : Unique (λ (row : Row). row.0.id) rows
  pub exactly :
      (row : Row)
      → (find? (λ (r : Row). r.0.id == row.0.id) rows ≡ some row)
        ↔ IsOwnRow user_id assets wallets row

exact_balances :
    (user_id : Uuid) (assets : List Asset) (wallets : List Wallet) (rows : List Row)
    → All HasMoney wallets
    → All (IsOwnRow user_id assets wallets) rows
    → map balance_response rows ≡ map exact_balance rows
exact_balances user_id assets wallets [] money own = refl
exact_balances user_id assets wallets (row ∷ rows) money own =
    let held = All-find? HasMoney (λ w. w.id == row.0.id) wallets money own.0.stored in
    rw
      (
        add-exact row.0.available_balance row.0.locked_balance held.2,
        exact_balances user_id assets wallets rows money own.1,
      )
      refl

-- Two rows of one wallet of the user's are one row.
same_row :
    (user_id : Uuid) (assets : List Asset) (wallets : List Wallet) (r row : Row)
    → r.0.id ≡ row.0.id
    → IsOwnRow user_id assets wallets r
    → IsOwnRow user_id assets wallets row
    → r ≡ row
same_row user_id assets wallets r row same own own' =
    let wallet : r.0 ≡ row.0 =
      some-injective _ _
        (sym own.stored ∙ ap (λ k. find? (λ (w : Wallet). w.id == k) wallets) same ∙ own'.stored) in
    let asset : r.1 ≡ row.1 = some-injective _ _ (
      sym own.asset
      ∙ ap (λ (w : Wallet). find? (λ (a : Asset). a.id == w.asset_id) assets) wallet
      ∙ own'.asset) in
    λ i. (wallet i, asset i)

found_row :
    (user_id : Uuid) (assets : List Asset) (wallets : List Wallet) (rows : List Row) (row : Row)
    → All (IsOwnRow user_id assets wallets) rows
    → any? (λ (r : Row). r.0.id == row.0.id) rows ≡ true
    → IsOwnRow user_id assets wallets row
    → find? (λ (r : Row). r.0.id == row.0.id) rows ≡ some row
found_row user_id assets wallets rows row all there own =
    elim (Option-cases (find? (λ (r : Row). r.0.id == row.0.id) rows)) [
      | inl absent ↦
          let none_there = any?-none (λ (r : Row). r.0.id == row.0.id) rows absent in
          absurd (ground arith)
      | inr (r, found) ↦
          let test = find?-test (λ (r : Row). r.0.id == row.0.id) rows found in
          found
          ∙ ap some (
              same_row user_id assets wallets r row ((==_iff r.0.id row.0.id).0 test)
                (All-find? (IsOwnRow user_id assets wallets) (λ (r : Row). r.0.id == row.0.id) rows
                  all found)
                own)
    ]

-- If the database's order only puts rows in another order and the books are sound, the route
-- `list_wallet_balances` answers 200 and changes nothing, and it answers rows of which each is a
-- stored wallet whose owner is a user, namely the current one, with the asset that it names, no
-- two are of one wallet, and every such wallet has one, each with a total that is the exact sum
-- of its two balances.
pub list_wallet_balances_lem :
    (order_by_code : List Row → List Row) (current_user : User) (db : Db)
    → ((rows : List Row) → Rearranged rows (order_by_code rows))
    → IsSound db
    → (rows : List Row) × (list_wallet_balances order_by_code current_user db
        ≡ (respond 200 (record { balances = map exact_balance rows }), db))
      × IsListing current_user.id db.assets db.wallets rows
unfolding list_wallet_balances
list_wallet_balances_lem order_by_code current_user db sorts sound =
    let rows = wallet_rows current_user.id db.assets db.wallets in
    let sorted = sorts rows in
    let own =
      All-rearranged (IsOwnRow current_user.id db.assets db.wallets) sorted
        (wallet_rows-own current_user.id db.assets db.wallets sound.ids) in
    (
      order_by_code rows,
      ap (λ b. (respond 200 (record { balances = b }), db))
          (exact_balances current_user.id db.assets db.wallets (order_by_code rows) sound.money
            own),
      record {
        once =
            Unique-rearranged (λ (row : Row). row.0.id) sorted
              (wallet_rows-once current_user.id db.assets db.wallets sound.ids);
        exactly = λ row. (
          All-find? (IsOwnRow current_user.id db.assets db.wallets) (λ r. r.0.id == row.0.id)
              (order_by_code rows) own,
          λ o.
              found_row current_user.id db.assets db.wallets (order_by_code rows) row own
                (sym (any?-rearranged (λ (r : Row). r.0.id == row.0.id) sorted)
                  ∙ wallet_rows_complete current_user.id db.assets db.wallets row.0 row.1 o.stored
                      (is_own current_user.id row.0 o.owner_type o.user_id) o.asset)
                o,
        );
      },
    )

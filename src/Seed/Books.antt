-- ===== src/Seed/Books.antt =====
-- The seed and the books.
use crypto_ledger_sandbox.Prelude.{
  Option, none, some, List, [], ◌∷◌, String, ◌≡◌, sym, subst, ◌∙◌, pos, ◌+ℤ◌, int_laws, find?,
  str_eq, not, All,
}
use crypto_ledger_sandbox.Decimal.{Decimal, IsMoney}
use crypto_ledger_sandbox.Models.{Uuid, Asset, Wallet}
use crypto_ledger_sandbox.Db.{Db, Platform, ok, runtime_error, insert_asset, insert_wallet}
use crypto_ledger_sandbox.Db.Laws.{same_value, ok-state, >>=-ok, insert_wallet-ok, raise_if-bind}
use crypto_ledger_sandbox.Ledger.{is_treasury}
use crypto_ledger_sandbox.Accounts.{ExactColumns, HasMoney, IsSound, IsBacked}
use crypto_ledger_sandbox.Accounts.Opening.{new_id, zero-IsMoney}
use crypto_ledger_sandbox.Seed.{
  DevelopmentAsset, SeedDraws, has_code, seeded_asset, seeded_treasury, asset_or_created,
  treasury_or_created, seed_asset, seed_assets, seed,
}
use crypto_ledger_sandbox.Seed.There.{insert_asset-ok}

-- The books are sound, and the locked balances are what the open orders hold.
pub record HasBooks (db : Db) : Type 0 where
  pub sound : IsSound db
  pub backed : IsBacked db

-- The books are about the wallets, the orders and the entries only.
pub HasBooks-assets :
    (db : Db) (assets : List Asset) → HasBooks db → HasBooks (record db { assets = assets })
HasBooks-assets db assets h = record {
  sound = record {
    ids = h.sound.ids;
    money = h.sound.money;
    order_ids = h.sound.order_ids;
    reserved = h.sound.reserved;
  };
  backed = record { locked = h.backed.locked };
}

plus_zero : (a : Decimal) → a ≡ a +ℤ pos 0
plus_zero a = omega int_laws

module _ (platform : Platform) (columns : ExactColumns platform) (x : DevelopmentAsset)
    (amount_money : IsMoney x.treasury_amount) (draws : SeedDraws) where
  asset_or_created-HasBooks :
      (o : Option Asset) (db db' : Db) (a : Asset × List String)
      → asset_or_created x draws o db ≡ ok (a, db')
      → HasBooks db
      → HasBooks db'
  unfolding asset_or_created
  asset_or_created-HasBooks (some b) db db' a h books = subst HasBooks (ok-state h) books
  asset_or_created-HasBooks none db db' a h books =
      let (_, d, h₁, h₂) = >>=-ok (insert_asset (seeded_asset x draws)) _ db h in
      let (_, state) = insert_asset-ok (seeded_asset x draws) db h₁ in
      subst HasBooks (sym state ∙ ok-state h₂)
        (HasBooks-assets db (seeded_asset x draws ∷ db.assets) books)

  treasury_or_created-HasBooks :
      (asset_id : Uuid) (o : Option Wallet) (db db' : Db) (created : List String)
      → treasury_or_created platform x draws asset_id o db ≡ ok (created, db')
      → HasBooks db
      → HasBooks db'
  unfolding treasury_or_created find?
  treasury_or_created-HasBooks asset_id (some w) db db' created h books =
      subst HasBooks (ok-state h) books
  treasury_or_created-HasBooks asset_id none db db' created h books =
      let (_, d, h₁, h₂) =
        >>=-ok (insert_wallet platform (seeded_treasury x draws asset_id)) _ db h in
      let (a, l, sa, sl, allowed, state) =
        insert_wallet-ok platform (seeded_treasury x draws asset_id) db h₁ in
      let row : Wallet = record (seeded_treasury x draws asset_id) {
        available_balance = a;
        locked_balance = l;
      } in
      let fresh = new_id row db allowed in
      let a_money =
        subst IsMoney (same_value (columns.exact x.treasury_amount amount_money) sa) amount_money in
      let l0 : l ≡ pos 0 = same_value sl (columns.exact (pos 0) zero-IsMoney) in
      let money : HasMoney row = (
        a_money,
        subst IsMoney (sym l0) zero-IsMoney,
        subst (λ m. IsMoney (a +ℤ m)) (sym l0) (subst IsMoney (plus_zero a) a_money),
      ) in
      subst HasBooks (sym state ∙ ok-state h₂) (record {
        sound = record {
          ids = (fresh, books.sound.ids);
          money = (money, books.sound.money);
          order_ids = books.sound.order_ids;
          reserved = books.sound.reserved;
        };
        backed = record { locked = books.backed.locked };
      })

  seed_asset-HasBooks :
      (db db' : Db) (created : List String)
      → seed_asset platform x draws db ≡ ok (created, db')
      → HasBooks db
      → HasBooks db'
  unfolding seed_asset
  seed_asset-HasBooks db db' created h books =
      let ((asset, noted), db₁, h₁, k₁) =
        >>=-ok (asset_or_created x draws (find? (has_code x.code) db.assets)) _ db h in
      let (more, db₂, h₂, k₂) =
        >>=-ok
          (treasury_or_created platform x draws asset.id (find? (is_treasury asset.id) db₁.wallets))
          _ db₁ k₁ in
      subst HasBooks (ok-state k₂) (
        treasury_or_created-HasBooks asset.id (find? (is_treasury asset.id) db₁.wallets) db₁ db₂
          more h₂
          (asset_or_created-HasBooks (find? (has_code x.code) db.assets) db db₁ (asset, noted) h₁
            books))

module _ (platform : Platform) (columns : ExactColumns platform)
    (draws : DevelopmentAsset → SeedDraws) where
  seed_assets-HasBooks :
      (assets : List DevelopmentAsset) (db db' : Db) (created : List String)
      → All (λ (x : DevelopmentAsset). IsMoney x.treasury_amount) assets
      → seed_assets platform draws assets db ≡ ok (created, db')
      → HasBooks db
      → HasBooks db'
  unfolding seed_assets
  seed_assets-HasBooks [] db db' created m h books = subst HasBooks (ok-state h) books
  seed_assets-HasBooks (x ∷ rest) db db' created m h books =
      let (noted, d, h₁, k₁) = >>=-ok (seed_asset platform x (draws x)) _ db h in
      let (more, e, h₂, k₂) = >>=-ok (seed_assets platform draws rest) _ d k₁ in
      subst HasBooks (ok-state k₂) (
        seed_assets-HasBooks rest d e more m.1 h₂
          (seed_asset-HasBooks platform columns x m.0 (draws x) db d noted h₁ books))

  -- If the columns hold money exactly, the treasuries' amounts are money, and the books are
  -- sound and the locked balances backed, then they are so after a successful `seed`.
  pub seed-HasBooks :
      (environment : String) (assets : List DevelopmentAsset) (db db' : Db) (created : List String)
      → All (λ (x : DevelopmentAsset). IsMoney x.treasury_amount) assets
      → seed platform environment draws assets db ≡ ok (created, db')
      → HasBooks db
      → HasBooks db'
  unfolding seed
  seed-HasBooks environment assets db db' created m h books =
      let (_, k) = raise_if-bind (not (str_eq environment "development")) runtime_error _ db h in
      seed_assets-HasBooks assets db db' created m k books

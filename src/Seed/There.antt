-- ===== src/Seed/There.antt =====
-- What a round of the seed's loop finds or makes.
use crypto_ledger_sandbox.Prelude.{
  Bool, true, Option, none, some, List, [], ◌∷◌, String, ◌≡◌, refl, sym, ap, subst, ◌∙◌, inl, inr,
  Bool-cases, str_eq, eq_iff, ==_refl, find?,
}
use crypto_ledger_sandbox.Models.{Uuid, Asset, Wallet}
use crypto_ledger_sandbox.Db.{Db, Platform, ok, insert_asset, insert_wallet, asset_allowed}
use crypto_ledger_sandbox.Db.Laws.{>>=-ok, write_if-ok, insert_wallet-ok, ok-state, ok-value}
use crypto_ledger_sandbox.Ledger.{is_treasury}
use crypto_ledger_sandbox.Seed.{
  DevelopmentAsset, SeedDraws, has_code, seeded_asset, seeded_treasury, asset_or_created,
  treasury_or_created, seed_asset,
}

pub insert_asset-ok :
    (a : Asset) (db : Db) {u : Unit {0}} {db' : Db}
    → insert_asset a db ≡ ok (u, db')
    → (asset_allowed a db ≡ true) × (db' ≡ record db { assets = a ∷ db.assets })
unfolding insert_asset
insert_asset-ok a db h =
    write_if-ok (asset_allowed a db) (λ d. record d { assets = a ∷ d.assets }) db h

-- The asset and its treasury's wallet are there.
pub record IsSeeded (x : DevelopmentAsset) (db : Db) : Type 0 where
  pub asset : Asset
  pub wallet : Wallet
  pub asset_found : find? (has_code x.code) db.assets ≡ some asset
  pub treasury_found : find? (is_treasury asset.id) db.wallets ≡ some wallet

module _ {A : Type 0} where
  -- What is found is found, or another row in front of it.
  pub find?-cons :
      (p : A → Bool) (x : A) (xs : List A) {y : A}
      → find? p xs ≡ some y
      → (z : A) × (find? p (x ∷ xs) ≡ some z)
  unfolding find?
  find?-cons p x xs {y} h = elim (Bool-cases (p x)) [
    | inl first ↦ (x, rw first refl)
    | inr later ↦ (y, rw later h)
  ]

  find?-head : (p : A → Bool) (x : A) (xs : List A) → p x ≡ true → find? p (x ∷ xs) ≡ some x
  unfolding find?
  find?-head p x xs h = rw h refl

module _ (x : DevelopmentAsset) (draws : SeedDraws) where
  -- An asset's row is found or made.
  pub record IsAssetThere (db db' : Db) (asset : Asset) : Type 0 where
    pub found : find? (has_code x.code) db'.assets ≡ some asset
    pub wallets : db'.wallets ≡ db.wallets
    pub others :
        (code : String) (a : Asset)
        → find? (has_code code) db.assets ≡ some a
        → find? (has_code code) db'.assets ≡ some a
    pub orders : db'.orders ≡ db.orders
    pub entries : db'.entries ≡ db.entries

  kept_absent :
      (db : Db) (code : String) (a : Asset)
      → find? (has_code x.code) db.assets ≡ none
      → find? (has_code code) db.assets ≡ some a
      → str_eq x.code code ≡ true
      → ⊥
  kept_absent db code a absent found same =
      let absent' =
        subst (λ c. find? (has_code c) db.assets ≡ none) ((eq_iff x.code code).0 same) absent in
      cc

  kept_code :
      (db : Db)
      → find? (has_code x.code) db.assets ≡ none
      → (code : String) (a : Asset) → find? (has_code code) db.assets ≡ some a
      → find? (has_code code) (seeded_asset x draws ∷ db.assets) ≡ some a
  unfolding find?
  kept_code db absent code a found = elim (Bool-cases (str_eq x.code code)) [
    | inl same ↦ absurd (kept_absent db code a absent found same)
    | inr other ↦ rw other found
  ]

  asset_added :
      (db : Db)
      → find? (has_code x.code) db.assets ≡ none
      → IsAssetThere db
          (record db { assets = seeded_asset x draws ∷ db.assets })
          (seeded_asset x draws)
  unfolding find?
  asset_added db absent = record {
    found = rw ((eq_iff x.code x.code).1 refl) refl;
    wallets = refl;
    others = λ code a found. kept_code db absent code a found;
    orders = refl;
    entries = refl;
  }

  pub asset_or_created-IsAssetThere :
      (o : Option Asset) (db db' : Db) (asset : Asset) (created : List String)
      → find? (has_code x.code) db.assets ≡ o
      → asset_or_created x draws o db ≡ ok ((asset, created), db')
      → IsAssetThere db db' asset
  unfolding asset_or_created
  asset_or_created-IsAssetThere (some a) db db' asset created e h =
      let same : a ≡ asset = ap (λ p. p.0) (ok-value h) in
      subst (IsAssetThere db db') same (
        subst (λ d. IsAssetThere db d a) (ok-state h)
          (record {
            found = e;
            wallets = refl;
            others = λ code b f. f;
            orders = refl;
            entries = refl;
          }))
  asset_or_created-IsAssetThere none db db' asset created e h =
      let (_, d, h₁, h₂) = >>=-ok (insert_asset (seeded_asset x draws)) _ db h in
      let (_, state) = insert_asset-ok (seeded_asset x draws) db h₁ in
      let same : seeded_asset x draws ≡ asset = ap (λ p. p.0) (ok-value h₂) in
      subst (IsAssetThere db db') same (
        subst (λ d. IsAssetThere db d (seeded_asset x draws)) (sym state ∙ ok-state h₂)
          (asset_added db e))

module _ (platform : Platform) (x : DevelopmentAsset) (draws : SeedDraws) where
  -- The treasury's wallet is found or made; nothing else changes.
  record IsTreasuryThere (db db' : Db) (asset_id : Uuid) : Type 0 where
    found : (w : Wallet) × (find? (is_treasury asset_id) db'.wallets ≡ some w)
    others :
        (k : Uuid) (w : Wallet)
        → find? (is_treasury k) db.wallets ≡ some w
        → (v : Wallet) × (find? (is_treasury k) db'.wallets ≡ some v)
    assets : db'.assets ≡ db.assets

  treasury_or_created-IsTreasuryThere :
      (asset_id : Uuid) (o : Option Wallet) (db db' : Db) (created : List String)
      → find? (is_treasury asset_id) db.wallets ≡ o
      → treasury_or_created platform x draws asset_id o db ≡ ok (created, db')
      → IsTreasuryThere db db' asset_id
  unfolding treasury_or_created
  treasury_or_created-IsTreasuryThere asset_id (some w) db db' created e h =
      subst (λ d. IsTreasuryThere db d asset_id) (ok-state h)
        (record { found = (w, e); others = λ k v f. (v, f); assets = refl })
  treasury_or_created-IsTreasuryThere asset_id none db db' created e h =
      let (_, d, h₁, h₂) =
        >>=-ok (insert_wallet platform (seeded_treasury x draws asset_id)) _ db h in
      let (a, l, _, _, _, state) =
        insert_wallet-ok platform (seeded_treasury x draws asset_id) db h₁ in
      let row : Wallet = record (seeded_treasury x draws asset_id) {
        available_balance = a;
        locked_balance = l;
      } in
      subst (λ d. IsTreasuryThere db d asset_id) (sym state ∙ ok-state h₂)
        (record {
          found = (row, find?-head (is_treasury asset_id) row db.wallets (==_refl asset_id));
          others = λ k v f. find?-cons (is_treasury k) row db.wallets f;
          assets = refl;
        })

  -- What a round that succeeds has done.
  seed_asset-steps :
      (db db' : Db) (created : List String)
      → seed_asset platform x draws db ≡ ok (created, db')
      → (asset : Asset) × (db₁ : Db) × IsAssetThere x draws db db₁ asset
        × IsTreasuryThere db₁ db' asset.id
  unfolding seed_asset
  seed_asset-steps db db' created h =
      let ((asset, noted), db₁, h₁, k₁) =
        >>=-ok (asset_or_created x draws (find? (has_code x.code) db.assets)) _ db h in
      let (more, db₂, h₂, k₂) =
        >>=-ok
          (treasury_or_created platform x draws asset.id (find? (is_treasury asset.id) db₁.wallets))
          _ db₁ k₁ in
      (
        asset,
        db₁,
        asset_or_created-IsAssetThere x draws (find? (has_code x.code) db.assets) db db₁ asset noted
            refl h₁,
        subst (λ d. IsTreasuryThere db₁ d asset.id) (ok-state k₂)
            (treasury_or_created-IsTreasuryThere asset.id (find? (is_treasury asset.id) db₁.wallets)
              db₁ db₂ more refl h₂),
      )

  pub seed_asset-IsSeeded :
      (db db' : Db) (created : List String)
      → seed_asset platform x draws db ≡ ok (created, db')
      → IsSeeded x db'
  seed_asset-IsSeeded db db' created h =
      let (asset, db₁, a, t) = seed_asset-steps db db' created h in
      record {
        asset = asset;
        wallet = t.found.0;
        asset_found = ap (find? (has_code x.code)) t.assets ∙ a.found;
        treasury_found = t.found.1;
      }

  -- A round keeps what other rounds have made.
  pub seed_asset-keeps :
      (db db' : Db) (created : List String) (y : DevelopmentAsset)
      → seed_asset platform x draws db ≡ ok (created, db')
      → IsSeeded y db
      → IsSeeded y db'
  seed_asset-keeps db db' created y h s =
      let (asset, db₁, a, t) = seed_asset-steps db db' created h in
      let (w, found) =
        t.others s.asset.id s.wallet
          (ap (find? (is_treasury s.asset.id)) a.wallets ∙ s.treasury_found) in
      record {
        asset = s.asset;
        wallet = w;
        asset_found = ap (find? (has_code y.code)) t.assets ∙ a.others y.code s.asset s.asset_found;
        treasury_found = found;
      }

  pub seed_asset-again : (db : Db) → IsSeeded x db → seed_asset platform x draws db ≡ ok ([], db)
  unfolding seed_asset asset_or_created treasury_or_created
  seed_asset-again db s = rw (s.asset_found, s.treasury_found) refl

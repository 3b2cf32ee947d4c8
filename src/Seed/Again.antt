-- ===== src/Seed/Again.antt =====
-- A run of the seed after another.
use crypto_ledger_sandbox.Prelude.{not, List, [], ◌∷◌, String, ◌≡◌, refl, subst, ◌∙◌, str_eq, All}
use crypto_ledger_sandbox.Db.{Db, Platform, ok, runtime_error}
use crypto_ledger_sandbox.Db.Laws.{>>=-ok, ok-state, raise_if-bind, raise_if-false, continued}
use crypto_ledger_sandbox.Seed.{DevelopmentAsset, SeedDraws, seed_asset, seed_assets, seed}
use crypto_ledger_sandbox.Seed.There.{
  IsSeeded, seed_asset-IsSeeded, seed_asset-keeps, seed_asset-again,
}

module _ (platform : Platform) (draws : DevelopmentAsset → SeedDraws) where
  seed_assets-keeps :
      (assets : List DevelopmentAsset) (db db' : Db) (created : List String) (y : DevelopmentAsset)
      → seed_assets platform draws assets db ≡ ok (created, db')
      → IsSeeded y db
      → IsSeeded y db'
  unfolding seed_assets
  seed_assets-keeps [] db db' created y h s = subst (IsSeeded y) (ok-state h) s
  seed_assets-keeps (x ∷ rest) db db' created y h s =
      let (noted, d, h₁, k₁) = >>=-ok (seed_asset platform x (draws x)) _ db h in
      let (more, e, h₂, k₂) = >>=-ok (seed_assets platform draws rest) _ d k₁ in
      subst (IsSeeded y) (ok-state k₂) (
        seed_assets-keeps rest d e more y h₂
          (seed_asset-keeps platform x (draws x) db d noted y h₁ s))

  -- After the loop every asset of the list is there with its treasury.
  pub seed_assets-IsSeeded :
      (assets : List DevelopmentAsset) (db db' : Db) (created : List String)
      → seed_assets platform draws assets db ≡ ok (created, db')
      → All (λ (x : DevelopmentAsset). IsSeeded x db') assets
  unfolding seed_assets
  seed_assets-IsSeeded [] db db' created h = tt
  seed_assets-IsSeeded (x ∷ rest) db db' created h =
      let (noted, d, h₁, k₁) = >>=-ok (seed_asset platform x (draws x)) _ db h in
      let (more, e, h₂, k₂) = >>=-ok (seed_assets platform draws rest) _ d k₁ in
      (
        subst (IsSeeded x) (ok-state k₂) (
            seed_assets-keeps rest d e more x h₂
              (seed_asset-IsSeeded platform x (draws x) db d noted h₁)),
        subst (λ f. All (λ (y : DevelopmentAsset). IsSeeded y f) rest) (ok-state k₂)
            (seed_assets-IsSeeded rest d e more h₂),
      )

  seed_assets-again :
      (assets : List DevelopmentAsset) (db : Db)
      → All (λ (x : DevelopmentAsset). IsSeeded x db) assets
      → seed_assets platform draws assets db ≡ ok ([], db)
  unfolding seed_assets
  seed_assets-again [] db s = refl
  seed_assets-again (x ∷ rest) db s =
      continued (seed_asset platform x (draws x)) _ db
        (seed_asset-again platform x (draws x) db s.0)
      ∙ continued (seed_assets platform draws rest) _ db (seed_assets-again rest db s.1)

-- If `seed` has succeeded, whatever list of assets it is given, a second run on the database it
-- left, whatever it draws, succeeds, creates nothing and changes nothing.
pub seed_idempotent :
    (platform : Platform) (environment : String) (draws draws' : DevelopmentAsset → SeedDraws)
    (assets : List DevelopmentAsset) (db db' : Db) (created : List String)
    → seed platform environment draws assets db ≡ ok (created, db')
    → seed platform environment draws' assets db' ≡ ok ([], db')
unfolding seed
seed_idempotent platform environment draws draws' assets db db' created h =
    let (development, k) =
      raise_if-bind (not (str_eq environment "development")) runtime_error _ db h in
    raise_if-false {t = not (str_eq environment "development")} runtime_error _ db' development
    ∙ seed_assets-again platform draws' assets db'
        (seed_assets-IsSeeded platform draws assets db db' created k)

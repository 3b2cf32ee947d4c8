-- ===== src/Seed.antt =====
-- app/scripts/seed_dev_data.py: the development data. A run is given what it draws from `uuid4`.
pub mod There
pub mod Again
pub mod Books
use mathlib.Core.List.{◌++◌ as append}
use crypto_ledger_sandbox.Prelude.{
  ℕ, ◌*◌, Bool, true, false, not, Option, none, some, List, [], ◌∷◌, String, ◌++◌, str_eq, pos,
  find?,
}
use crypto_ledger_sandbox.Decimal.{Decimal, one}
use crypto_ledger_sandbox.Models.{Uuid, Asset, Wallet, system}
use crypto_ledger_sandbox.Db.{
  Db, Platform, Session, runtime_error, pure, select, raise_if, ◌>>=◌, ◌>>◌, insert_asset,
  insert_wallet,
}
use crypto_ledger_sandbox.Ledger.{treasury_account, is_treasury}

pub record DevelopmentAsset : Type 0 where
  pub code : String
  pub name : String
  pub precision : ℕ
  pub treasury_amount : Decimal

abbrev pub development_assets : List DevelopmentAsset
development_assets =
    record {
      code = "USDT";
      name = "Tether USD";
      precision = 6;
      treasury_amount = pos (1000000 * one);
    }
    ∷ record { code = "BTC"; name = "Bitcoin"; precision = 8; treasury_amount = pos (1000 * one) }
    ∷ []

pub record SeedDraws : Type 0 where
  pub asset_id : Uuid
  pub wallet_id : Uuid

abbrev pub has_code : String → Asset → Bool
has_code code a = str_eq a.code code

abbrev pub seeded_asset : DevelopmentAsset → SeedDraws → Asset
seeded_asset x draws = record {
  id = draws.asset_id;
  code = x.code;
  name = x.name;
  precision = x.precision;
  is_active = true;
}

abbrev pub seeded_treasury : DevelopmentAsset → SeedDraws → Uuid → Wallet
seeded_treasury x draws asset_id = record {
  id = draws.wallet_id;
  user_id = none;
  asset_id = asset_id;
  owner_type = system;
  system_account = some treasury_account;
  available_balance = x.treasury_amount;
  locked_balance = pos 0;
}

-- The asset, and what is noted in `created`.
unfoldable pub asset_or_created :
    DevelopmentAsset → SeedDraws → Option Asset → Session (Asset × List String)
asset_or_created x draws (some asset) = pure (asset, [])
asset_or_created x draws none = do
  insert_asset (seeded_asset x draws)
  pure (seeded_asset x draws, (x.code ++ " asset") ∷ [])

module _ (platform : Platform) where
  unfoldable pub treasury_or_created :
      DevelopmentAsset → SeedDraws → Uuid → Option Wallet → Session (List String)
  treasury_or_created x draws asset_id (some treasury_wallet) = pure []
  treasury_or_created x draws asset_id none = do
    insert_wallet platform (seeded_treasury x draws asset_id)
    pure ((x.code ++ " treasury") ∷ [])

  -- One round of the loop.
  unfoldable pub seed_asset : DevelopmentAsset → SeedDraws → Session (List String)
  seed_asset x draws = do
    found ← select (λ db. find? (has_code x.code) db.assets)
    (asset, created) ← asset_or_created x draws found
    treasury ← select (λ db. find? (is_treasury asset.id) db.wallets)
    more ← treasury_or_created x draws asset.id treasury
    pure (append created more)

  -- The loop, with what the round of an asset may draw.
  unfoldable pub seed_assets :
      (DevelopmentAsset → SeedDraws) → List DevelopmentAsset → Session (List String)
  seed_assets draws [] = pure []
  seed_assets draws (x ∷ rest) = do
    created ← seed_asset x (draws x)
    more ← seed_assets draws rest
    pure (append created more)

  -- `main`, with the setting ENVIRONMENT.
  unfoldable pub seed :
      String → (DevelopmentAsset → SeedDraws) → List DevelopmentAsset → Session (List String)
  seed environment draws assets = do
    raise_if (not (str_eq environment "development")) runtime_error
    seed_assets draws assets

-- ===== src/Tests/Upgrades.antt =====
-- The theorem on the migrations, applied to the schema that has the users' table only.
use crypto_ledger_sandbox.Prelude.{true, [], ◌∷◌, ◌≡◌, refl, some, any?}
use crypto_ledger_sandbox.Migrations.Schema.{Schema, migrate}
use crypto_ledger_sandbox.Migrations.Tables.{users_table}
use crypto_ledger_sandbox.Migrations.Versions.{
  index, add_wallets_and_ledger_tables, upgrade, downgrade,
}
use crypto_ledger_sandbox.Migrations.Ready.{IsReady}
use crypto_ledger_sandbox.Migrations.Back.{downgrade-upgrade}

abbrev users_only : Schema
users_only = record {
  tables = users_table ∷ [];
  indexes = index "ix_users_email" "users" "email" true ∷ [];
  types = [];
}

users_only-IsReady : IsReady add_wallets_and_ledger_tables users_only
unfolding any?
users_only-IsReady = record {
  tables = (
    record { table = refl; indexes = refl; references = refl },
    (
      record { table = refl; indexes = refl; references = refl },
      (
        record { table = refl; indexes = refl; references = refl },
        (record { table = refl; indexes = refl; references = refl }, tt),
      ),
    ),
  );
  indexes = (refl, (refl, (refl, (refl, (refl, (refl, tt))))));
  enumerations = (
    record { free = refl; uses = refl },
    (
      record { free = refl; uses = refl },
      (
        record { free = refl; uses = refl },
        (record { free = refl; uses = refl }, (record { free = refl; uses = refl }, tt)),
      ),
    ),
  );
  targets = (refl, tt);
}

downgrade-upgrade_example :
    (s' : Schema) × (migrate (upgrade add_wallets_and_ledger_tables) users_only ≡ some s')
    × (migrate (downgrade add_wallets_and_ledger_tables) s' ≡ some users_only)
downgrade-upgrade_example =
    downgrade-upgrade add_wallets_and_ledger_tables users_only users_only-IsReady

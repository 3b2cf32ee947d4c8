-- ===== src/Migrations/Ready.antt =====
-- When a schema is ready for a revision.
use crypto_ledger_sandbox.Prelude.{true, false, List, [], ◌∷◌, String, ◌≡◌, any?, All}
use crypto_ledger_sandbox.Migrations.Schema.{Schema, has_name, is_index}
use crypto_ledger_sandbox.Migrations.Versions.{
  Revision, create_users_table, add_wallets_and_ledger_tables, add_order_schema,
  add_transactional_outbox,
}
use crypto_ledger_sandbox.Migrations.Applied.{IsAbsent, IsUnused}

-- What a revision creates, and the tables that it refers to.
abbrev pub tables_of : Revision → List String
tables_of create_users_table = "users" ∷ []
tables_of add_wallets_and_ledger_tables =
    "assets" ∷ "ledger_transactions" ∷ "wallets" ∷ "ledger_entries" ∷ []
tables_of add_order_schema = "orders" ∷ []
tables_of add_transactional_outbox = "outbox_events" ∷ []

abbrev pub indexes_of : Revision → List String
indexes_of create_users_table = "ix_users_email" ∷ []
indexes_of add_wallets_and_ledger_tables =
    "ix_assets_code" ∷ "ix_ledger_transactions_reference" ∷ "ix_wallets_asset_id"
    ∷ "ix_wallets_user_id" ∷ "ix_ledger_entries_transaction_id" ∷ "ix_ledger_entries_wallet_id" ∷ []
indexes_of add_order_schema =
    "ix_orders_base_asset_id" ∷ "ix_orders_quote_asset_id" ∷ "ix_orders_user_id" ∷ []
indexes_of add_transactional_outbox =
    "ix_outbox_events_aggregate_id" ∷ "ix_outbox_events_event_type"
    ∷ "ix_outbox_events_published_at" ∷ []

abbrev pub enumerations_of : Revision → List String
enumerations_of create_users_table = []
enumerations_of add_wallets_and_ledger_tables =
    "ledger_transaction_type" ∷ "ledger_transaction_status" ∷ "wallet_owner_type"
    ∷ "ledger_entry_type" ∷ "balance_bucket" ∷ []
enumerations_of add_order_schema = "order_side" ∷ "order_status" ∷ []
enumerations_of add_transactional_outbox = []

abbrev pub targets_of : Revision → List String
targets_of create_users_table = []
targets_of add_wallets_and_ledger_tables = "users" ∷ []
targets_of add_order_schema = "assets" ∷ "ledger_transactions" ∷ "users" ∷ []
targets_of add_transactional_outbox = []

-- Nothing that the revision creates is there, and what it refers to is.
pub record IsReady (r : Revision) (s : Schema) : Type 0 where
  pub tables : All (IsAbsent s) (tables_of r)
  pub indexes : All (λ n. any? (is_index n) s.indexes ≡ false) (indexes_of r)
  pub enumerations : All (IsUnused s) (enumerations_of r)
  pub targets : All (λ n. any? (has_name n) s.tables ≡ true) (targets_of r)

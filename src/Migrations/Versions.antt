-- ===== src/Migrations/Versions.antt =====
-- alembic/versions: what `upgrade` and `downgrade` of each revision do.
use crypto_ledger_sandbox.Prelude.{Bool, true, false, String, List, [], ◌∷◌}
use crypto_ledger_sandbox.Migrations.Schema.{
  Operation, Index, create_table, create_index, drop_table, drop_index, drop_type,
}
use crypto_ledger_sandbox.Migrations.Tables.{
  users_table, assets_table, ledger_transactions_table, wallets_table, ledger_entries_table,
  orders_table, outbox_events_table,
}

abbrev pub index : String → String → String → Bool → Index
index name table column is_unique = record {
  name = name;
  table = table;
  column = column;
  is_unique = is_unique;
}

-- c82f192c627d_create_users_table.py
abbrev pub upgrade_users : List Operation
upgrade_users =
    create_table users_table ∷ create_index (index "ix_users_email" "users" "email" true) ∷ []

abbrev pub downgrade_users : List Operation
downgrade_users = drop_index "ix_users_email" ∷ drop_table "users" ∷ []

-- 80fb72cf305c_add_wallets_and_ledger_tables.py
abbrev pub upgrade_ledger : List Operation
upgrade_ledger =
    create_table assets_table
    ∷ create_index (index "ix_assets_code" "assets" "code" true)
    ∷ create_table ledger_transactions_table
    ∷ create_index (index "ix_ledger_transactions_reference" "ledger_transactions" "reference" true)
    ∷ create_table wallets_table
    ∷ create_index (index "ix_wallets_asset_id" "wallets" "asset_id" false)
    ∷ create_index (index "ix_wallets_user_id" "wallets" "user_id" false)
    ∷ create_table ledger_entries_table
    ∷ create_index
        (index "ix_ledger_entries_transaction_id" "ledger_entries" "transaction_id" false)
    ∷ create_index (index "ix_ledger_entries_wallet_id" "ledger_entries" "wallet_id" false)
    ∷ []

abbrev pub downgrade_ledger : List Operation
downgrade_ledger =
    drop_index "ix_ledger_entries_wallet_id"
    ∷ drop_index "ix_ledger_entries_transaction_id"
    ∷ drop_table "ledger_entries"
    ∷ drop_index "ix_wallets_user_id"
    ∷ drop_index "ix_wallets_asset_id"
    ∷ drop_table "wallets"
    ∷ drop_index "ix_ledger_transactions_reference"
    ∷ drop_table "ledger_transactions"
    ∷ drop_index "ix_assets_code"
    ∷ drop_table "assets"
    ∷ drop_type "balance_bucket"
    ∷ drop_type "ledger_entry_type"
    ∷ drop_type "wallet_owner_type"
    ∷ drop_type "ledger_transaction_status"
    ∷ drop_type "ledger_transaction_type"
    ∷ []

-- 6fe0534d9aa2_add_order_schema.py
abbrev pub upgrade_orders : List Operation
upgrade_orders =
    create_table orders_table
    ∷ create_index (index "ix_orders_base_asset_id" "orders" "base_asset_id" false)
    ∷ create_index (index "ix_orders_quote_asset_id" "orders" "quote_asset_id" false)
    ∷ create_index (index "ix_orders_user_id" "orders" "user_id" false)
    ∷ []

abbrev pub downgrade_orders : List Operation
downgrade_orders =
    drop_index "ix_orders_user_id"
    ∷ drop_index "ix_orders_quote_asset_id"
    ∷ drop_index "ix_orders_base_asset_id"
    ∷ drop_table "orders"
    ∷ drop_type "order_status"
    ∷ drop_type "order_side"
    ∷ []

-- b34cd2e9c89e_add_transactional_outbox.py
abbrev pub upgrade_outbox : List Operation
upgrade_outbox =
    create_table outbox_events_table
    ∷ create_index (index "ix_outbox_events_aggregate_id" "outbox_events" "aggregate_id" false)
    ∷ create_index (index "ix_outbox_events_event_type" "outbox_events" "event_type" false)
    ∷ create_index (index "ix_outbox_events_published_at" "outbox_events" "published_at" false)
    ∷ []

abbrev pub downgrade_outbox : List Operation
downgrade_outbox =
    drop_index "ix_outbox_events_published_at"
    ∷ drop_index "ix_outbox_events_event_type"
    ∷ drop_index "ix_outbox_events_aggregate_id"
    ∷ drop_table "outbox_events"
    ∷ []

-- The revisions, the first one first.
pub data Revision : Type 0 where
  create_users_table add_wallets_and_ledger_tables add_order_schema add_transactional_outbox :
      Revision

abbrev pub upgrade : Revision → List Operation
upgrade create_users_table = upgrade_users
upgrade add_wallets_and_ledger_tables = upgrade_ledger
upgrade add_order_schema = upgrade_orders
upgrade add_transactional_outbox = upgrade_outbox

abbrev pub downgrade : Revision → List Operation
downgrade create_users_table = downgrade_users
downgrade add_wallets_and_ledger_tables = downgrade_ledger
downgrade add_order_schema = downgrade_orders
downgrade add_transactional_outbox = downgrade_outbox

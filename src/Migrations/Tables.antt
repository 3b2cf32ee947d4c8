-- ===== src/Migrations/Tables.antt =====
-- The tables that alembic/versions creates.
use crypto_ledger_sandbox.Prelude.{[], ◌∷◌}
use crypto_ledger_sandbox.Migrations.Schema.{
  uuid, integer, boolean, text, jsonb, timestamp_with_time_zone, varchar, numeric, enumeration,
  check, foreign_key, primary_key, unique, Table, common_columns, column, nullable_column,
  default_column,
}

abbrev pub users_table : Table
users_table = record {
  name = "users";
  columns =
      column "email" (varchar 254)
      ∷ column "hashed_password" (varchar 255)
      ∷ default_column "is_active" boolean "true"
      ∷ common_columns;
  constraints = primary_key "pk_users" "id" ∷ [];
}

abbrev pub assets_table : Table
assets_table = record {
  name = "assets";
  columns =
      column "code" (varchar 16)
      ∷ column "name" (varchar 64)
      ∷ column "precision" integer
      ∷ default_column "is_active" boolean "true"
      ∷ common_columns;
  constraints =
      check "ck_assets_code_uppercase" "code = upper(code)"
      ∷ check "ck_assets_precision_range" "precision >= 0 AND precision <= 18"
      ∷ primary_key "pk_assets" "id"
      ∷ [];
}

abbrev pub ledger_transactions_table : Table
ledger_transactions_table = record {
  name = "ledger_transactions";
  columns =
      column "reference" (varchar 64)
      ∷ nullable_column "idempotency_key" (varchar 128)
      ∷ column "transaction_type" (
          enumeration "ledger_transaction_type"
            ("funding" ∷ "order_reserve" ∷ "order_release" ∷ "trade" ∷ []))
      ∷ default_column "status"
          (enumeration "ledger_transaction_status" ("posted" ∷ "reversed" ∷ [])) "posted"
      ∷ nullable_column "description" (varchar 255)
      ∷ common_columns;
  constraints =
      primary_key "pk_ledger_transactions" "id"
      ∷ unique "uq_ledger_transactions_idempotency_key" ("idempotency_key" ∷ [])
      ∷ [];
}

abbrev pub wallets_table : Table
wallets_table = record {
  name = "wallets";
  columns =
      nullable_column "user_id" uuid
      ∷ column "asset_id" uuid
      ∷ column "owner_type" (enumeration "wallet_owner_type" ("user" ∷ "system" ∷ []))
      ∷ nullable_column "system_account" (varchar 32)
      ∷ default_column "available_balance" (numeric 38 18) "0"
      ∷ default_column "locked_balance" (numeric 38 18) "0"
      ∷ common_columns;
  constraints =
      check "ck_wallets_valid_owner"
        "((owner_type = 'user' AND user_id IS NOT NULL AND system_account IS NULL) OR (owner_type = 'system' AND user_id IS NULL AND system_account IS NOT NULL))"
      ∷ check "ck_wallets_available_balance_non_negative" "available_balance >= 0"
      ∷ check "ck_wallets_locked_balance_non_negative" "locked_balance >= 0"
      ∷ foreign_key "fk_wallets_asset_id_assets" "asset_id" "assets" "RESTRICT"
      ∷ foreign_key "fk_wallets_user_id_users" "user_id" "users" "CASCADE"
      ∷ primary_key "pk_wallets" "id"
      ∷ unique "system_account_asset" ("system_account" ∷ "asset_id" ∷ [])
      ∷ unique "user_asset" ("user_id" ∷ "asset_id" ∷ [])
      ∷ [];
}

abbrev pub ledger_entries_table : Table
ledger_entries_table = record {
  name = "ledger_entries";
  columns =
      column "transaction_id" uuid
      ∷ column "wallet_id" uuid
      ∷ column "entry_type" (enumeration "ledger_entry_type" ("debit" ∷ "credit" ∷ []))
      ∷ column "balance_bucket" (enumeration "balance_bucket" ("available" ∷ "locked" ∷ []))
      ∷ column "amount" (numeric 38 18)
      ∷ column "sequence" integer
      ∷ nullable_column "description" (varchar 255)
      ∷ common_columns;
  constraints =
      check "ck_ledger_entries_amount_positive" "amount > 0"
      ∷ foreign_key "fk_ledger_entries_transaction_id_ledger_transactions" "transaction_id"
          "ledger_transactions" "RESTRICT"
      ∷ foreign_key "fk_ledger_entries_wallet_id_wallets" "wallet_id" "wallets" "RESTRICT"
      ∷ primary_key "pk_ledger_entries" "id"
      ∷ unique "transaction_sequence" ("transaction_id" ∷ "sequence" ∷ [])
      ∷ [];
}

abbrev pub orders_table : Table
orders_table = record {
  name = "orders";
  columns =
      column "user_id" uuid
      ∷ column "base_asset_id" uuid
      ∷ column "quote_asset_id" uuid
      ∷ nullable_column "idempotency_key" (varchar 128)
      ∷ column "reservation_transaction_id" uuid
      ∷ column "side" (enumeration "order_side" ("buy" ∷ "sell" ∷ []))
      ∷ default_column "status" (enumeration "order_status" ("open" ∷ "canceled" ∷ "filled" ∷ []))
          "open"
      ∷ column "price" (numeric 38 18)
      ∷ column "quantity" (numeric 38 18)
      ∷ column "remaining_quantity" (numeric 38 18)
      ∷ column "reserved_amount" (numeric 38 18)
      ∷ common_columns;
  constraints =
      check "ck_orders_different_assets" "base_asset_id <> quote_asset_id"
      ∷ check "ck_orders_price_positive" "price > 0"
      ∷ check "ck_orders_quantity_positive" "quantity > 0"
      ∷ check "ck_orders_remaining_quantity_range"
          "remaining_quantity >= 0 AND remaining_quantity <= quantity"
      ∷ check "ck_orders_reserved_amount_positive" "reserved_amount > 0"
      ∷ foreign_key "fk_orders_base_asset_id_assets" "base_asset_id" "assets" "RESTRICT"
      ∷ foreign_key "fk_orders_quote_asset_id_assets" "quote_asset_id" "assets" "RESTRICT"
      ∷ foreign_key "fk_orders_reservation_transaction_id_ledger_transactions"
          "reservation_transaction_id" "ledger_transactions" "RESTRICT"
      ∷ foreign_key "fk_orders_user_id_users" "user_id" "users" "RESTRICT"
      ∷ primary_key "pk_orders" "id"
      ∷ unique "reservation_transaction" ("reservation_transaction_id" ∷ [])
      ∷ unique "user_idempotency_key" ("user_id" ∷ "idempotency_key" ∷ [])
      ∷ [];
}

abbrev pub outbox_events_table : Table
outbox_events_table = record {
  name = "outbox_events";
  columns =
      column "event_type" (varchar 100)
      ∷ column "event_key" (varchar 160)
      ∷ column "aggregate_type" (varchar 50)
      ∷ column "aggregate_id" uuid
      ∷ column "payload" jsonb
      ∷ nullable_column "published_at" timestamp_with_time_zone
      ∷ default_column "publish_attempts" integer "0"
      ∷ nullable_column "last_error" text
      ∷ common_columns;
  constraints =
      primary_key "pk_outbox_events" "id"
      ∷ unique "uq_outbox_events_event_key" ("event_key" ∷ [])
      ∷ [];
}

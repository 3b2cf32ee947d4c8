-- ===== src/Migrations/Back.antt =====
-- A migration and its downgrade.
use crypto_ledger_sandbox.Prelude.{true, false, some, [], ◌∷◌, ◌≡◌, refl, any?, All}
use crypto_ledger_sandbox.Migrations.Schema.{Schema, migrate, has_name, is_index, removed}
use crypto_ledger_sandbox.Migrations.Tables.{
  users_table, assets_table, ledger_transactions_table, wallets_table, ledger_entries_table,
  orders_table, outbox_events_table,
}
use crypto_ledger_sandbox.Migrations.Versions.{
  index, Revision, create_users_table, add_wallets_and_ledger_tables, add_order_schema,
  add_transactional_outbox, upgrade, downgrade, upgrade_users, downgrade_users, upgrade_ledger,
  downgrade_ledger, upgrade_orders, downgrade_orders, upgrade_outbox, downgrade_outbox,
}
use crypto_ledger_sandbox.Migrations.Applied.{
  IsAbsent, IsUnused, Migrates, ◌⟫◌, done, create_table-ok, create_index-ok, drop_index-ok,
  drop_table-ok, drop_type-ok,
}
use crypto_ledger_sandbox.Migrations.Ready.{IsReady}

-- The schemas after the revisions.
abbrev with_users : Schema → Schema
with_users s = record s {
  tables = users_table ∷ s.tables;
  indexes = index "ix_users_email" "users" "email" true ∷ s.indexes;
}

users_up :
    (s : Schema)
    → IsAbsent s "users"
    → any? (is_index "ix_users_email") s.indexes ≡ false
    → Migrates upgrade_users s (with_users s)
unfolding any?
users_up s h e =
    create_table-ok users_table h.table refl refl
    ⟫ create_index-ok (index "ix_users_email" "users" "email" true) e refl
    ⟫ done

users_down : (s : Schema) → IsAbsent s "users" → Migrates downgrade_users (with_users s) s
unfolding any?
users_down s h =
    drop_index-ok (index "ix_users_email" "users" "email" true)
    ⟫ drop_table-ok users_table h.indexes h.references
    ⟫ done

abbrev with_ledger : Schema → Schema
with_ledger s = record {
  tables =
      ledger_entries_table ∷ wallets_table ∷ ledger_transactions_table ∷ assets_table ∷ s.tables;
  indexes =
      index "ix_ledger_entries_wallet_id" "ledger_entries" "wallet_id" false
      ∷ index "ix_ledger_entries_transaction_id" "ledger_entries" "transaction_id" false
      ∷ index "ix_wallets_user_id" "wallets" "user_id" false
      ∷ index "ix_wallets_asset_id" "wallets" "asset_id" false
      ∷ index "ix_ledger_transactions_reference" "ledger_transactions" "reference" true
      ∷ index "ix_assets_code" "assets" "code" true
      ∷ s.indexes;
  types =
      "ledger_entry_type" ∷ "balance_bucket" ∷ "wallet_owner_type" ∷ "ledger_transaction_type"
      ∷ "ledger_transaction_status" ∷ s.types;
}

ledger_up :
    (s : Schema)
    → All (IsAbsent s) ("assets" ∷ "ledger_transactions" ∷ "wallets" ∷ "ledger_entries" ∷ [])
    → All
        (λ n. any? (is_index n) s.indexes ≡ false)
        ("ix_assets_code" ∷ "ix_ledger_transactions_reference" ∷ "ix_wallets_asset_id"
          ∷ "ix_wallets_user_id" ∷ "ix_ledger_entries_transaction_id"
          ∷ "ix_ledger_entries_wallet_id" ∷ [])
    → All (IsUnused s) (
        "ledger_transaction_type" ∷ "ledger_transaction_status" ∷ "wallet_owner_type"
        ∷ "ledger_entry_type" ∷ "balance_bucket" ∷ [])
    → any? (has_name "users") s.tables ≡ true
    → Migrates upgrade_ledger s (with_ledger s)
unfolding any?
ledger_up s (assets, (transactions, (wallets, (entries, _))))
      (code, (reference, (asset_id, (user_id, (transaction_id, (wallet_id, _))))))
      (type_, (status, (owner, (entry, (bucket, _))))) users =
    create_table-ok assets_table assets.table refl refl
    ⟫ create_index-ok (index "ix_assets_code" "assets" "code" true) code refl
    ⟫ create_table-ok ledger_transactions_table transactions.table refl
        (rw (type_.free, status.free) refl)
    ⟫ create_index-ok
        (index "ix_ledger_transactions_reference" "ledger_transactions" "reference" true) reference
        refl
    ⟫ create_table-ok wallets_table wallets.table (rw users refl) (rw owner.free refl)
    ⟫ create_index-ok (index "ix_wallets_asset_id" "wallets" "asset_id" false) asset_id refl
    ⟫ create_index-ok (index "ix_wallets_user_id" "wallets" "user_id" false) user_id refl
    ⟫ create_table-ok ledger_entries_table entries.table refl (rw (entry.free, bucket.free) refl)
    ⟫ create_index-ok
        (index "ix_ledger_entries_transaction_id" "ledger_entries" "transaction_id" false)
        transaction_id refl
    ⟫ create_index-ok (index "ix_ledger_entries_wallet_id" "ledger_entries" "wallet_id" false)
        wallet_id refl
    ⟫ done

ledger_down :
    (s : Schema)
    → All (IsAbsent s) ("assets" ∷ "ledger_transactions" ∷ "wallets" ∷ "ledger_entries" ∷ [])
    → All (IsUnused s) (
        "ledger_transaction_type" ∷ "ledger_transaction_status" ∷ "wallet_owner_type"
        ∷ "ledger_entry_type" ∷ "balance_bucket" ∷ [])
    → Migrates downgrade_ledger (with_ledger s) s
unfolding any? removed
ledger_down s (assets, (transactions, (wallets, (entries, _))))
      (type_, (status, (owner, (entry, (bucket, _))))) =
    drop_index-ok (index "ix_ledger_entries_wallet_id" "ledger_entries" "wallet_id" false)
    ⟫ drop_index-ok
        (index "ix_ledger_entries_transaction_id" "ledger_entries" "transaction_id" false)
    ⟫ drop_table-ok ledger_entries_table entries.indexes entries.references
    ⟫ drop_index-ok (index "ix_wallets_user_id" "wallets" "user_id" false)
    ⟫ drop_index-ok (index "ix_wallets_asset_id" "wallets" "asset_id" false)
    ⟫ drop_table-ok wallets_table wallets.indexes wallets.references
    ⟫ drop_index-ok
        (index "ix_ledger_transactions_reference" "ledger_transactions" "reference" true)
    ⟫ drop_table-ok ledger_transactions_table transactions.indexes transactions.references
    ⟫ drop_index-ok (index "ix_assets_code" "assets" "code" true)
    ⟫ drop_table-ok assets_table assets.indexes assets.references
    ⟫ drop_type-ok "balance_bucket" bucket.uses
    ⟫ drop_type-ok "ledger_entry_type" entry.uses
    ⟫ drop_type-ok "wallet_owner_type" owner.uses
    ⟫ drop_type-ok "ledger_transaction_status" status.uses
    ⟫ drop_type-ok "ledger_transaction_type" type_.uses
    ⟫ done

abbrev with_orders : Schema → Schema
with_orders s = record {
  tables = orders_table ∷ s.tables;
  indexes =
      index "ix_orders_user_id" "orders" "user_id" false
      ∷ index "ix_orders_quote_asset_id" "orders" "quote_asset_id" false
      ∷ index "ix_orders_base_asset_id" "orders" "base_asset_id" false
      ∷ s.indexes;
  types = "order_side" ∷ "order_status" ∷ s.types;
}

orders_up : (s : Schema) → IsReady add_order_schema s → Migrates upgrade_orders s (with_orders s)
unfolding any?
orders_up s h =
    let (base, (quote, (owner, _))) = h.indexes in
    let (side, (status, _)) = h.enumerations in
    let (assets, (transactions, (users, _))) = h.targets in
    create_table-ok orders_table h.tables.0.table (rw (assets, transactions, users) refl)
      (rw (side.free, status.free) refl)
    ⟫ create_index-ok (index "ix_orders_base_asset_id" "orders" "base_asset_id" false) base refl
    ⟫ create_index-ok (index "ix_orders_quote_asset_id" "orders" "quote_asset_id" false) quote refl
    ⟫ create_index-ok (index "ix_orders_user_id" "orders" "user_id" false) owner refl
    ⟫ done

orders_down :
    (s : Schema) → IsReady add_order_schema s → Migrates downgrade_orders (with_orders s) s
unfolding any? removed
orders_down s h =
    let (side, (status, _)) = h.enumerations in
    drop_index-ok (index "ix_orders_user_id" "orders" "user_id" false)
    ⟫ drop_index-ok (index "ix_orders_quote_asset_id" "orders" "quote_asset_id" false)
    ⟫ drop_index-ok (index "ix_orders_base_asset_id" "orders" "base_asset_id" false)
    ⟫ drop_table-ok orders_table h.tables.0.indexes h.tables.0.references
    ⟫ drop_type-ok "order_status" status.uses
    ⟫ drop_type-ok "order_side" side.uses
    ⟫ done

abbrev with_outbox : Schema → Schema
with_outbox s = record s {
  tables = outbox_events_table ∷ s.tables;
  indexes =
      index "ix_outbox_events_published_at" "outbox_events" "published_at" false
      ∷ index "ix_outbox_events_event_type" "outbox_events" "event_type" false
      ∷ index "ix_outbox_events_aggregate_id" "outbox_events" "aggregate_id" false
      ∷ s.indexes;
}

outbox_up :
    (s : Schema) → IsReady add_transactional_outbox s → Migrates upgrade_outbox s (with_outbox s)
unfolding any?
outbox_up s h =
    let (aggregate, (event, (published, _))) = h.indexes in
    create_table-ok outbox_events_table h.tables.0.table refl refl
    ⟫ create_index-ok (index "ix_outbox_events_aggregate_id" "outbox_events" "aggregate_id" false)
        aggregate refl
    ⟫ create_index-ok (index "ix_outbox_events_event_type" "outbox_events" "event_type" false) event
        refl
    ⟫ create_index-ok (index "ix_outbox_events_published_at" "outbox_events" "published_at" false)
        published refl
    ⟫ done

outbox_down :
    (s : Schema) → IsReady add_transactional_outbox s → Migrates downgrade_outbox (with_outbox s) s
outbox_down s h =
    drop_index-ok (index "ix_outbox_events_published_at" "outbox_events" "published_at" false)
    ⟫ drop_index-ok (index "ix_outbox_events_event_type" "outbox_events" "event_type" false)
    ⟫ drop_index-ok (index "ix_outbox_events_aggregate_id" "outbox_events" "aggregate_id" false)
    ⟫ drop_table-ok outbox_events_table h.tables.0.indexes h.tables.0.references
    ⟫ done

-- If nothing that a revision creates is in the schema, by name or by use, and the tables that it
-- refers to are, then its upgrade succeeds, its downgrade succeeds on the schema after it, and
-- the schema is what it was before.
pub downgrade-upgrade :
    (r : Revision) (s : Schema)
    → IsReady r s
    → (s' : Schema) × (migrate (upgrade r) s ≡ some s') × (migrate (downgrade r) s' ≡ some s)
downgrade-upgrade create_users_table s h =
    (with_users s, (users_up s h.tables.0 h.indexes.0).result, (users_down s h.tables.0).result)
downgrade-upgrade add_wallets_and_ledger_tables s h = (
  with_ledger s,
  (ledger_up s h.tables h.indexes h.enumerations h.targets.0).result,
  (ledger_down s h.tables h.enumerations).result,
)
downgrade-upgrade add_order_schema s h =
    (with_orders s, (orders_up s h).result, (orders_down s h).result)
downgrade-upgrade add_transactional_outbox s h =
    (with_outbox s, (outbox_up s h).result, (outbox_down s h).result)

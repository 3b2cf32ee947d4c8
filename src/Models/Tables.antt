-- ===== src/Models/Tables.antt =====
-- app/models/*.py: one record for each mapped class, with the class's columns. A nullable column is
-- an `Option`. Of the timestamps only the event's, which are read, are kept.
use crypto_ledger_sandbox.Prelude.{ℕ, Bool, Option, List, String}
use crypto_ledger_sandbox.Decimal.{Decimal}
use crypto_ledger_sandbox.Models.Enums.{
  WalletOwnerType, LedgerTransactionType, LedgerTransactionStatus, LedgerEntryType, BalanceBucket,
  OrderSide, OrderStatus,
}

abbrev pub Uuid : Type 0
Uuid = ℕ

pub record User : Type 0 where
  pub id : Uuid
  pub email : String
  pub hashed_password : String
  pub is_active : Bool

pub record Asset : Type 0 where
  pub id : Uuid
  pub code : String
  pub name : String
  pub precision : ℕ
  pub is_active : Bool

pub record Wallet : Type 0 where
  pub id : Uuid
  pub user_id : Option Uuid
  pub asset_id : Uuid
  pub owner_type : WalletOwnerType
  pub system_account : Option String
  pub available_balance : Decimal
  pub locked_balance : Decimal

pub record LedgerTransaction : Type 0 where
  pub id : Uuid
  pub reference : String
  pub idempotency_key : Option String
  pub transaction_type : LedgerTransactionType
  pub status : LedgerTransactionStatus
  pub description : Option String

pub record LedgerEntry : Type 0 where
  pub id : Uuid
  pub transaction_id : Uuid
  pub wallet_id : Uuid
  pub entry_type : LedgerEntryType
  pub balance_bucket : BalanceBucket
  pub amount : Decimal
  pub sequence : ℕ
  pub description : Option String

pub record Order : Type 0 where
  pub id : Uuid
  pub user_id : Uuid
  pub base_asset_id : Uuid
  pub quote_asset_id : Uuid
  pub idempotency_key : Option String
  pub reservation_transaction_id : Uuid
  pub side : OrderSide
  pub status : OrderStatus
  pub price : Decimal
  pub quantity : Decimal
  pub remaining_quantity : Decimal
  pub reserved_amount : Decimal

-- A JSON object of texts.
abbrev pub Payload : Type 0
Payload = List (String × String)

pub record OutboxEvent : Type 0 where
  pub id : Uuid
  pub event_type : String
  pub event_key : String
  pub aggregate_type : String
  pub aggregate_id : Uuid
  pub payload : Payload
  pub created_at : ℕ
  pub published_at : Option ℕ
  pub publish_attempts : ℕ
  pub last_error : Option String

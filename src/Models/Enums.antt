-- ===== src/Models/Enums.antt =====
-- app/models/enums.py. `OrderStatus.OPEN` is spelled `opened`.
use crypto_ledger_sandbox.Prelude.{Bool, true, false, String}

pub data WalletOwnerType : Type 0 where
  user system : WalletOwnerType

pub data LedgerTransactionType : Type 0 where
  funding order_reserve order_release trade : LedgerTransactionType

pub data LedgerTransactionStatus : Type 0 where
  posted reversed : LedgerTransactionStatus

pub data LedgerEntryType : Type 0 where
  debit credit : LedgerEntryType

pub data BalanceBucket : Type 0 where
  available locked : BalanceBucket

pub data OrderSide : Type 0 where
  buy sell : OrderSide

pub data OrderStatus : Type 0 where
  opened canceled filled : OrderStatus

-- `==` of the members.
abbrev pub owner_type_eq : WalletOwnerType → WalletOwnerType → Bool
owner_type_eq user user = true
owner_type_eq system system = true
owner_type_eq _ _ = false

abbrev pub transaction_type_eq : LedgerTransactionType → LedgerTransactionType → Bool
transaction_type_eq funding funding = true
transaction_type_eq order_reserve order_reserve = true
transaction_type_eq order_release order_release = true
transaction_type_eq trade trade = true
transaction_type_eq _ _ = false

abbrev pub transaction_status_eq : LedgerTransactionStatus → LedgerTransactionStatus → Bool
transaction_status_eq posted posted = true
transaction_status_eq reversed reversed = true
transaction_status_eq _ _ = false

abbrev pub entry_type_eq : LedgerEntryType → LedgerEntryType → Bool
entry_type_eq debit debit = true
entry_type_eq credit credit = true
entry_type_eq _ _ = false

abbrev pub bucket_eq : BalanceBucket → BalanceBucket → Bool
bucket_eq available available = true
bucket_eq locked locked = true
bucket_eq _ _ = false

abbrev pub side_eq : OrderSide → OrderSide → Bool
side_eq buy buy = true
side_eq sell sell = true
side_eq _ _ = false

abbrev pub status_eq : OrderStatus → OrderStatus → Bool
status_eq opened opened = true
status_eq canceled canceled = true
status_eq filled filled = true
status_eq _ _ = false

-- The members' values.
abbrev pub side_value : OrderSide → String
side_value buy = "buy"
side_value sell = "sell"

abbrev pub status_value : OrderStatus → String
status_value opened = "open"
status_value canceled = "canceled"
status_value filled = "filled"

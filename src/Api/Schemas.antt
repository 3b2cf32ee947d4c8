-- ===== src/Api/Schemas.antt =====
-- app/schemas: the requests with the constraints of their fields, and the bodies of the answers.
use crypto_ledger_sandbox.Prelude.{
  ℕ, ◌*◌, ◌%◌, ◌^◌, Bool, false, ◌&&◌, List, String, ◌==◌, ltb, leb, pos, negsuc, text_length,
  all_codes, is_alphanumeric,
}
use crypto_ledger_sandbox.Decimal.{Decimal, one, step}
use crypto_ledger_sandbox.Models.{Uuid, OrderSide, OrderStatus}

-- `Field(min_length=…, max_length=…)`
unfoldable pub has_length : ℕ → ℕ → String → Bool
unfolding text_length
has_length min_length max_length s =
    leb min_length (text_length s) && leb (text_length s) max_length

-- `Field(min_length=2, max_length=16, pattern="^[A-Za-z0-9]+$")`
unfoldable pub is_asset_code : String → Bool
unfolding has_length all_codes
is_asset_code s = has_length 2 16 s && all_codes is_alphanumeric s

-- `Field(gt=Decimal("0"), max_digits=38, decimal_places=18)`: 18 of the 38 digits are decimal places.
abbrev pub is_amount : Decimal → Bool
is_amount (pos n) = ltb 0 n && (n % step == 0 && ltb n (10 ^ 20 * one))
is_amount (negsuc n) = false

-- `Header(alias="Idempotency-Key", min_length=8, max_length=128)`
unfoldable pub is_idempotency_key : String → Bool
unfolding has_length
is_idempotency_key s = has_length 8 128 s

pub record RegisterRequest : Type 0 where
  pub email : String
  pub password : String

unfoldable pub is_register_request : RegisterRequest → Bool
unfolding has_length
is_register_request payload = has_length 12 128 payload.password

pub record LoginRequest : Type 0 where
  pub email : String
  pub password : String

unfoldable pub is_login_request : LoginRequest → Bool
unfolding has_length
is_login_request payload = has_length 1 128 payload.password

pub record TokenResponse : Type 0 where
  pub access_token : String
  pub token_type : String

pub record UserResponse : Type 0 where
  pub id : Uuid
  pub email : String
  pub is_active : Bool

pub record FundingRequest : Type 0 where
  pub asset_code : String
  pub amount : Decimal

unfoldable pub is_funding_request : FundingRequest → Bool
unfolding is_asset_code
is_funding_request payload = is_asset_code payload.asset_code && is_amount payload.amount

pub record FundingResponse : Type 0 where
  pub transaction_id : Uuid
  pub reference : String
  pub asset_code : String
  pub amount : Decimal
  pub replayed : Bool

pub record OrderCreateRequest : Type 0 where
  pub base_asset_code : String
  pub quote_asset_code : String
  pub side : OrderSide
  pub price : Decimal
  pub quantity : Decimal

unfoldable pub is_order_create_request : OrderCreateRequest → Bool
unfolding is_asset_code
is_order_create_request payload =
    is_asset_code payload.base_asset_code
    && is_asset_code payload.quote_asset_code
    && is_amount payload.price
    && is_amount payload.quantity

pub record OrderResponse : Type 0 where
  pub id : Uuid
  pub base_asset_code : String
  pub quote_asset_code : String
  pub side : OrderSide
  pub status : OrderStatus
  pub price : Decimal
  pub quantity : Decimal
  pub remaining_quantity : Decimal
  pub reserved_asset_code : String
  pub reserved_amount : Decimal
  pub reservation_transaction_id : Uuid
  pub replayed : Bool

pub record WalletBalanceResponse : Type 0 where
  pub asset_code : String
  pub available_balance : Decimal
  pub locked_balance : Decimal
  pub total_balance : Decimal

pub record WalletBalancesResponse : Type 0 where
  pub balances : List WalletBalanceResponse

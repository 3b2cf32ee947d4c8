-- ===== src/Ledger.antt =====
-- app/services/ledger.py: sandbox funding. A call is given what it draws from `uuid4`.
pub mod Outcomes
pub mod Posted
pub mod Replay
use crypto_ledger_sandbox.Prelude.{
  Bool, true, false, not, ◌&&◌, ◌||◌, Option, none, some, String, ◌++◌, ◌==◌, str_eq, pos, leb_ℤ,
  ltb_ℤ, eqb_ℤ, find?, any?, upper,
}
use crypto_ledger_sandbox.Decimal.{Decimal, add, sub}
use crypto_ledger_sandbox.Models.{
  Uuid, Asset, Wallet, LedgerTransaction, LedgerEntry, user, system, funding, posted, debit, credit,
  available, owner_type_eq, transaction_type_eq, transaction_status_eq, entry_type_eq, bucket_eq,
}
use crypto_ledger_sandbox.Db.{
  Db, Platform, asset_not_found, treasury_not_initialized, insufficient_treasury_balance,
  idempotency_conflict, value_error, Session, pure, select, or_raise, return_or, raise_if, ◌>>=◌,
  ◌>>◌, uuid_matches, text_matches, insert_wallet, insert_transaction, insert_entry, set_available,
}

abbrev pub treasury_account : String
treasury_account = "funding_treasury"

pub record FundingResult : Type 0 where
  pub transaction : LedgerTransaction
  pub asset : Asset
  pub replayed : Bool

-- The keyword arguments of `post_sandbox_funding`.
pub record FundingCall : Type 0 where
  pub user_id : Uuid
  pub asset_code : String
  pub amount : Decimal
  pub idempotency_key : String

-- What a call draws: the identifiers of the rows that it may add, and the text after `FND-`.
pub record FundingDraws : Type 0 where
  pub wallet_id : Uuid
  pub transaction_id : Uuid
  pub debit_id : Uuid
  pub credit_id : Uuid
  pub reference : String

-- The queries.
abbrev pub with_key : String → LedgerTransaction → Bool
with_key key t = text_matches t.idempotency_key (some key)

abbrev pub active_with_code : String → Asset → Bool
active_with_code asset_code a = str_eq a.code (upper asset_code) && a.is_active

abbrev pub is_treasury : Uuid → Wallet → Bool
is_treasury asset_id w =
    owner_type_eq w.owner_type system
    && text_matches w.system_account (some treasury_account)
    && w.asset_id == asset_id

abbrev pub is_user_wallet : Uuid → Uuid → Wallet → Bool
is_user_wallet user_id asset_id w =
    owner_type_eq w.owner_type user
    && uuid_matches w.user_id (some user_id)
    && w.asset_id == asset_id

-- The join of a credit with the user's wallet in the asset.
abbrev pub is_matching_credit : Uuid → Uuid → Uuid → Decimal → Db → LedgerEntry → Bool
is_matching_credit transaction_id user_id asset_id amount db e =
    e.transaction_id == transaction_id
    && entry_type_eq e.entry_type credit
    && bucket_eq e.balance_bucket available
    && eqb_ℤ e.amount amount
    && any?
        (λ w.
          w.id == e.wallet_id && uuid_matches w.user_id (some user_id) && w.asset_id == asset_id)
        db.wallets

unfoldable pub replay_of :
    Option LedgerTransaction → FundingCall → Asset → Session (Option FundingResult)
replay_of none call asset = pure none
replay_of (some transaction) call asset = do
  raise_if
      (not (transaction_type_eq transaction.transaction_type funding)
        || not (transaction_status_eq transaction.status posted))
      idempotency_conflict
  matching ← select (λ db.
      find? (is_matching_credit transaction.id call.user_id asset.id call.amount db) db.entries)
  or_raise matching idempotency_conflict
  pure (some (record { transaction = transaction; asset = asset; replayed = true }))

unfoldable pub find_funding_replay : FundingCall → Asset → Session (Option FundingResult)
unfolding replay_of
find_funding_replay call asset = do
  transaction ← select (λ db. find? (with_key call.idempotency_key) db.transactions)
  replay_of transaction call asset

-- The locals of `post_sandbox_funding` once the asset is found.
pub record Funding : Type 0 where
  pub call : FundingCall
  pub draws : FundingDraws
  pub asset : Asset

module _ (x : Funding) where
  -- The wallet that a first funding opens.
  abbrev pub opened_wallet : Wallet
  opened_wallet = record {
    id = x.draws.wallet_id;
    user_id = some x.call.user_id;
    asset_id = x.asset.id;
    owner_type = user;
    system_account = none;
    available_balance = pos 0;
    locked_balance = pos 0;
  }

  abbrev pub funding_transaction : LedgerTransaction
  funding_transaction = record {
    id = x.draws.transaction_id;
    reference = "FND-" ++ x.draws.reference;
    idempotency_key = some x.call.idempotency_key;
    transaction_type = funding;
    status = posted;
    description = some ("Sandbox funding for " ++ x.asset.code);
  }

  abbrev pub treasury_debit : Wallet → LedgerEntry
  treasury_debit treasury_wallet = record {
    id = x.draws.debit_id;
    transaction_id = x.draws.transaction_id;
    wallet_id = treasury_wallet.id;
    entry_type = debit;
    balance_bucket = available;
    amount = x.call.amount;
    sequence = 1;
    description = some "Debit sandbox treasury";
  }

  abbrev pub user_credit : Wallet → LedgerEntry
  user_credit user_wallet = record {
    id = x.draws.credit_id;
    transaction_id = x.draws.transaction_id;
    wallet_id = user_wallet.id;
    entry_type = credit;
    balance_bucket = available;
    amount = x.call.amount;
    sequence = 2;
    description = some "Credit user wallet";
  }

  abbrev pub funding_result : FundingResult
  funding_result = record { transaction = funding_transaction; asset = x.asset; replayed = false }

module _ (platform : Platform) (x : Funding) where
  unfoldable pub wallet_or_opened : Option Wallet → Session Wallet
  wallet_or_opened (some w) = pure w
  wallet_or_opened none = do insert_wallet platform (opened_wallet x); pure (opened_wallet x)

  -- From the transaction's row to the commit.
  unfoldable pub post_transfer : Wallet → Wallet → Session FundingResult
  post_transfer treasury_wallet user_wallet = do
    insert_transaction (funding_transaction x)
    set_available platform treasury_wallet.id (sub treasury_wallet.available_balance x.call.amount)
    set_available platform user_wallet.id (add user_wallet.available_balance x.call.amount)
    insert_entry platform (treasury_debit x treasury_wallet)
    insert_entry platform (user_credit x user_wallet)
    pure (funding_result x)

  -- From the lock on the treasury's wallet on.
  unfoldable pub fund_from_treasury : Session FundingResult
  fund_from_treasury = do
    treasury ← select (λ db. find? (is_treasury x.asset.id) db.wallets)
    treasury_wallet ← or_raise treasury treasury_not_initialized
    raise_if (ltb_ℤ treasury_wallet.available_balance x.call.amount) insufficient_treasury_balance
    existing ← select (λ db. find? (is_user_wallet x.call.user_id x.asset.id) db.wallets)
    user_wallet ← wallet_or_opened existing
    post_transfer treasury_wallet user_wallet

unfoldable pub post_sandbox_funding : Platform → FundingDraws → FundingCall → Session FundingResult
post_sandbox_funding platform draws call = do
  raise_if (leb_ℤ call.amount (pos 0)) (value_error "Funding amount must be greater than zero.")
  found ← select (λ db. find? (active_with_code call.asset_code) db.assets)
  asset ← or_raise found asset_not_found
  replay ← find_funding_replay call asset
  return_or replay
      (fund_from_treasury platform (record { call = call; draws = draws; asset = asset }))

-- ===== src/History.antt =====
-- Histories of the tables: the calls of app/services and the registration of app/api/routes/auth.py
-- one after another, each in its own transaction.
pub mod Calls
pub mod Net
pub mod Current
pub mod Interleaved
pub mod Turns
pub mod Assets
pub mod Serial
pub mod Phases
pub mod Books
pub mod Moves
use crypto_ledger_sandbox.Prelude.{ℕ, Bool, Option, List, ◌≡◌, All}
use crypto_ledger_sandbox.Decimal.{IsMoney}
use crypto_ledger_sandbox.Models.{Uuid, OutboxEvent}
use crypto_ledger_sandbox.Db.{Db, Platform, Result, run}
use crypto_ledger_sandbox.Ledger.{FundingCall, FundingDraws, FundingResult, post_sandbox_funding}
use crypto_ledger_sandbox.Orders.{
  OrderCall, OrderDraws, OrderReservationResult, CancelDraws, OrderCancellationResult, amount_of,
  create_order_reservation, cancel_order_reservation,
}
use crypto_ledger_sandbox.Outbox.{Publisher, publish_next_outbox_event}
use crypto_ledger_sandbox.Accounts.Opening.{HasRoom}
use crypto_ledger_sandbox.Api.Schemas.{RegisterRequest}
use crypto_ledger_sandbox.Api.Security.{Library}
use crypto_ledger_sandbox.Api.AuthRoutes.{RegisterDraws, register}

-- One call, whether it commits or raises and is rolled back.
pub data Step (platform : Platform) (library : Library) (db : Db) : Db → Type 0 where
  funds :
      {db' : Db} (draws : FundingDraws) (call : FundingCall)
      → db' ≡ (run (post_sandbox_funding platform draws call) db).1
      → Step platform library db db'
  reserves :
      {db' : Db} (draws : OrderDraws) (call : OrderCall)
      → db' ≡ (run (create_order_reservation platform draws call) db).1
      → Step platform library db db'
  cancels :
      {db' : Db} (draws : CancelDraws) (user_id order_id : Uuid)
      → db' ≡ (run (cancel_order_reservation platform draws user_id order_id) db).1
      → Step platform library db db'
  publishes :
      {db' : Db} (publisher : Publisher) (now : ℕ) (held : OutboxEvent → Bool)
      (event_id : Option Uuid)
      → db' ≡ (publish_next_outbox_event publisher now held event_id db).1
      → Step platform library db db'
  registers :
      {db' : Db} (minutes now : ℕ) (draws : RegisterDraws) (payload : RegisterRequest)
      → db' ≡ (register platform library minutes now draws payload db).1
      → Step platform library db db'

pub data Reach (platform : Platform) (library : Library) (start : Db) : Db → Type 0 where
  here : Reach platform library start start
  later :
      {db db' : Db}
      → Reach platform library start db
      → Step platform library db db'
      → Reach platform library start db'

-- A funding's amount is money, and so are the balances with it added; an order's amount is money.
abbrev pub IsSolvent :
    {platform : Platform} {library : Library} {db db' : Db} → Step platform library db db' → Type 0
IsSolvent {db = db} (funds draws call e) =
    IsMoney call.amount × All (HasRoom call.amount) db.wallets
IsSolvent (reserves draws call e) = IsMoney (amount_of call.side call.price call.quantity)
IsSolvent (cancels draws user_id order_id e) = Unit
IsSolvent (publishes publisher now held event_id e) = Unit
IsSolvent (registers minutes now draws payload e) = Unit

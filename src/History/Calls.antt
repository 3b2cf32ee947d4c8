-- ===== src/History/Calls.antt =====
-- What every call of a history leaves true.
use crypto_ledger_sandbox.Prelude.{List, ◌≡◌, sym, subst}
use crypto_ledger_sandbox.Models.{Uuid, User, OutboxEvent}
use crypto_ledger_sandbox.Db.{Db, Platform, ok}
use crypto_ledger_sandbox.Ledger.{FundingCall, FundingDraws, FundingResult, post_sandbox_funding}
use crypto_ledger_sandbox.Orders.{
  OrderCall, OrderDraws, OrderReservationResult, CancelDraws, OrderCancellationResult,
  create_order_reservation, cancel_order_reservation,
}
use crypto_ledger_sandbox.Api.Security.{Library}
use crypto_ledger_sandbox.History.{Step, funds, reserves, cancels, publishes, registers}
use crypto_ledger_sandbox.History.Books.{run-keeps, publish-keeps, register-keeps}

module _ (platform : Platform) (library : Library) (P : Db → Type 0) (db : Db)
    (others : (users : List User) (events : List OutboxEvent)
      → P (record db { users = users; events = events })) where
  -- What every commit of a service leaves true, and every change of the users and the events.
  pub Step-holds :
      {db' : Db}
      → ((draws : FundingDraws) (call : FundingCall) (r : FundingResult) (d : Db)
          → post_sandbox_funding platform draws call db ≡ ok (r, d)
          → P d)
      → ((draws : OrderDraws) (call : OrderCall) (r : OrderReservationResult) (d : Db)
          → create_order_reservation platform draws call db ≡ ok (r, d)
          → P d)
      → ((draws : CancelDraws) (user_id order_id : Uuid) (r : OrderCancellationResult) (d : Db)
          → cancel_order_reservation platform draws user_id order_id db ≡ ok (r, d)
          → P d)
      → Step platform library db db'
      → P db'
  Step-holds f g h (funds draws call e) = subst P (sym e) (
      run-keeps (post_sandbox_funding platform draws call) db P (others db.users db.events)
        (f draws call))
  Step-holds f g h (reserves draws call e) = subst P (sym e) (
      run-keeps (create_order_reservation platform draws call) db P (others db.users db.events)
        (g draws call))
  Step-holds f g h (cancels draws user_id order_id e) = subst P (sym e) (
      run-keeps (cancel_order_reservation platform draws user_id order_id) db P
        (others db.users db.events) (h draws user_id order_id))
  Step-holds f g h (publishes publisher now held event_id e) =
      subst P (sym e) (publish-keeps platform library P db others publisher now held event_id)
  Step-holds f g h (registers minutes now draws payload e) =
      subst P (sym e) (register-keeps platform library P db others minutes now draws payload)

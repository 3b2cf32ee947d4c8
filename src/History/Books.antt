-- ===== src/History/Books.antt =====
-- The books along a history.
use crypto_ledger_sandbox.Prelude.{
  ℕ, Bool, Bool-cases, Option, Option-cases, none, some, List, ◌≡◌, refl, sym, subst, inl, inr,
  find?, lower, All, String,
}
use crypto_ledger_sandbox.Decimal.{IsMoney}
use crypto_ledger_sandbox.Models.{Uuid, User, OutboxEvent, BalanceBucket}
use crypto_ledger_sandbox.Db.{Db, Platform, Session, ok, run, user_allowed, insert_user}
use crypto_ledger_sandbox.Ledger.{FundingCall, FundingDraws, FundingResult, post_sandbox_funding}
use crypto_ledger_sandbox.Orders.{
  OrderCall, OrderDraws, OrderReservationResult, CancelDraws, OrderCancellationResult, amount_of,
  create_order_reservation, cancel_order_reservation,
}
use crypto_ledger_sandbox.Outbox.{
  Publisher, first_pending, claim, settle, publish_next_outbox_event,
}
use crypto_ledger_sandbox.Accounts.{unexplained, ExactColumns}
use crypto_ledger_sandbox.Accounts.Opening.{HasRoom}
use crypto_ledger_sandbox.Accounts.Funding.{post_sandbox_funding-keeps_books}
use crypto_ledger_sandbox.Accounts.Reserving.{create_order_reservation-keeps_books}
use crypto_ledger_sandbox.Accounts.Releasing.{cancel_order_reservation-keeps_books}
use crypto_ledger_sandbox.Accounts.Untouched.{post_sandbox_funding-IsBacked}
use crypto_ledger_sandbox.Accounts.Backing.{create_order_reservation-IsBacked}
use crypto_ledger_sandbox.Accounts.Unlocking.{cancel_order_reservation-IsBacked}
use crypto_ledger_sandbox.Accounts.Supply.{
  supply, create_order_reservation-supply, cancel_order_reservation-supply,
}
use crypto_ledger_sandbox.Accounts.Supplied.{post_sandbox_funding-supply}
use crypto_ledger_sandbox.Api.Schemas.{RegisterRequest}
use crypto_ledger_sandbox.Api.Security.{Library}
use crypto_ledger_sandbox.Api.AuthRoutes.{RegisterDraws, has_email, new_user, register}
use crypto_ledger_sandbox.Api.Repeats.{Result-cases}
use crypto_ledger_sandbox.Seed.Books.{HasBooks}
use crypto_ledger_sandbox.History.{Step, funds, reserves, cancels, publishes, registers, IsSolvent}

-- What holds before a call and after each of its commits holds after the call.
pub run-keeps :
    {A : Type 0} (m : Session A) (db : Db) (P : Db → Type 0)
    → P db
    → ((a : A) (db' : Db) → m db ≡ ok (a, db') → P db')
    → P (run m db).1
run-keeps m db P before after = elim (Result-cases (m db)) [
  | inl ((a, db'), e) ↦ rw e (after a db' e)
  | inr (x, e) ↦ rw e before
]

module _ (platform : Platform) (library : Library) (P : Db → Type 0) (db : Db)
    (others : (users : List User) (events : List OutboxEvent)
      → P (record db { users = users; events = events })) where
  settle-keeps : (answer : Option String) (now : ℕ) (e : OutboxEvent) → P (settle answer now e db).1
  unfolding settle
  settle-keeps none now e = others db.users _
  settle-keeps (some message) now e = others db.users _

  pub publish-keeps :
      (publisher : Publisher) (now : ℕ) (held : OutboxEvent → Bool) (event_id : Option Uuid)
      → P (publish_next_outbox_event publisher now held event_id db).1
  unfolding publish_next_outbox_event claim
  publish-keeps publisher now held event_id =
      elim (Option-cases (first_pending held event_id db.events)) [
        | inl nothing ↦ rw nothing (others db.users db.events)
        | inr (e, found) ↦ rw found (settle-keeps (publisher e) now e)
      ]

  pub register-keeps :
      (minutes now : ℕ) (draws : RegisterDraws) (payload : RegisterRequest)
      → P (register platform library minutes now draws payload db).1
  unfolding register insert_user
  register-keeps minutes now draws payload =
      elim (Option-cases (find? (has_email (lower payload.email)) db.users)) [
        | inr (u, found) ↦ rw found (others db.users db.events)
        | inl free ↦
            elim (Bool-cases (user_allowed (new_user platform library minutes draws payload) db)) [
              | inl allowed ↦ rw (free, allowed) (others _ db.events)
              | inr refused ↦ rw (free, refused) (others db.users db.events)
            ]
      ]

  -- What every commit of a service and every change of the users and the events keeps.
  pub Step-keeps :
      {db' : Db}
      → ((draws : FundingDraws) (call : FundingCall) (r : FundingResult) (d : Db)
          → IsMoney call.amount
          → All (HasRoom call.amount) db.wallets
          → post_sandbox_funding platform draws call db ≡ ok (r, d)
          → P d)
      → ((draws : OrderDraws) (call : OrderCall) (r : OrderReservationResult) (d : Db)
          → IsMoney (amount_of call.side call.price call.quantity)
          → create_order_reservation platform draws call db ≡ ok (r, d)
          → P d)
      → ((draws : CancelDraws) (user_id order_id : Uuid) (r : OrderCancellationResult) (d : Db)
          → cancel_order_reservation platform draws user_id order_id db ≡ ok (r, d)
          → P d)
      → (s : Step platform library db db') → IsSolvent s
      → P db'
  Step-keeps f g h (funds draws call e) (m, room) = subst P (sym e) (
      run-keeps (post_sandbox_funding platform draws call) db P (others db.users db.events)
        (λ r d s. f draws call r d m room s))
  Step-keeps f g h (reserves draws call e) m = subst P (sym e) (
      run-keeps (create_order_reservation platform draws call) db P (others db.users db.events)
        (λ r d s. g draws call r d m s))
  Step-keeps f g h (cancels draws user_id order_id e) _ = subst P (sym e) (
      run-keeps (cancel_order_reservation platform draws user_id order_id) db P
        (others db.users db.events) (λ r d s. h draws user_id order_id r d s))
  Step-keeps f g h (publishes publisher now held event_id e) _ =
      subst P (sym e) (publish-keeps publisher now held event_id)
  Step-keeps f g h (registers minutes now draws payload e) _ =
      subst P (sym e) (register-keeps minutes now draws payload)

module _ (platform : Platform) (library : Library) (columns : ExactColumns platform) where
  HasBooks-others :
      (db : Db) (users : List User) (events : List OutboxEvent)
      → HasBooks db
      → HasBooks (record db { users = users; events = events })
  HasBooks-others db users events books = record {
    sound = record {
      ids = books.sound.ids;
      money = books.sound.money;
      order_ids = books.sound.order_ids;
      reserved = books.sound.reserved;
    };
    backed = record { locked = books.backed.locked };
  }

  pub Step-HasBooks :
      {db db' : Db} → HasBooks db → (s : Step platform library db db') → IsSolvent s → HasBooks db'
  Step-HasBooks {db} books =
      Step-keeps platform library HasBooks db
        (λ users events. HasBooks-others db users events books)
        (λ draws call r d m room s. record {
          sound =
              (post_sandbox_funding-keeps_books platform draws call db d r columns books.sound m
                room s).0;
          backed = post_sandbox_funding-IsBacked platform draws call db d r columns books.backed s;
        })
        (λ draws call r d m s. record {
          sound =
              (create_order_reservation-keeps_books platform draws call db d r columns books.sound m
                s).0;
          backed =
              create_order_reservation-IsBacked platform draws call db d r columns books.sound m
                books.backed s;
        })
        (λ draws user_id order_id r d s. record {
          sound =
              (cancel_order_reservation-keeps_books platform draws user_id order_id db d r columns
                books.sound s).0;
          backed =
              cancel_order_reservation-IsBacked platform draws user_id order_id db d r columns
                books.sound books.backed s;
        })

  pub Step-supply :
      {db db' : Db} (a : Uuid)
      → HasBooks db
      → (s : Step platform library db db') → IsSolvent s
      → supply a db' ≡ supply a db
  unfolding supply
  Step-supply {db} a books =
      Step-keeps platform library (λ d. supply a d ≡ supply a db) db (λ users events. refl)
        (λ draws call r d m room s.
          post_sandbox_funding-supply platform draws call db d r a columns books.sound m room s)
        (λ draws call r d m s.
          create_order_reservation-supply platform draws call db d r a columns books.sound m s)
        (λ draws user_id order_id r d s.
          cancel_order_reservation-supply platform draws user_id order_id db d r a columns
            books.sound s)

  pub Step-unexplained :
      {db db' : Db} (b : BalanceBucket) (k : Uuid)
      → HasBooks db
      → (s : Step platform library db db') → IsSolvent s
      → unexplained b k db' ≡ unexplained b k db
  unfolding unexplained
  Step-unexplained {db} b k books =
      Step-keeps platform library (λ d. unexplained b k d ≡ unexplained b k db) db
        (λ users events. refl)
        (λ draws call r d m room s.
          (post_sandbox_funding-keeps_books platform draws call db d r columns books.sound m room
              s).1
            b k)
        (λ draws call r d m s.
          (create_order_reservation-keeps_books platform draws call db d r columns books.sound m
              s).1
            b k)
        (λ draws user_id order_id r d s.
          (cancel_order_reservation-keeps_books platform draws user_id order_id db d r columns
              books.sound s).1
            b k)

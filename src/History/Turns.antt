-- ===== src/History/Turns.antt =====
-- Histories in which sessions of app/services and app/api/routes/auth.py take turns: a funding, a
-- reservation and a registration are two turns, what they read first and what they do then, and other
-- sessions may commit between.
use mathlib.Core.List.{◌++◌ as append}
use crypto_ledger_sandbox.Prelude.{ℕ, none, find?, lower, List, [], ◌∷◌, ◌≡◌, inr, All}
use crypto_ledger_sandbox.Decimal.{IsMoney}
use crypto_ledger_sandbox.Db.{Db, Platform, ok, run}
use crypto_ledger_sandbox.Ledger.{Funding, fund_from_treasury}
use crypto_ledger_sandbox.Orders.{Reservation, amount_of, reserve_funds}
use crypto_ledger_sandbox.Accounts.Opening.{HasRoom}
use crypto_ledger_sandbox.Api.Security.{Library}
use crypto_ledger_sandbox.Api.Schemas.{RegisterRequest}
use crypto_ledger_sandbox.Api.AuthRoutes.{RegisterDraws, has_email, register_unless}
use crypto_ledger_sandbox.History.{Step, IsSolvent}
use crypto_ledger_sandbox.History.Phases.{read_funding, read_order}

-- The locals of `register` once no user has the email.
pub record Registration : Type 0 where
  pub minutes : ℕ
  pub now : ℕ
  pub draws : RegisterDraws
  pub payload : RegisterRequest

-- The tables that are committed, and the sessions that have read and hold no lock yet.
pub record World : Type 0 where
  pub db : Db
  pub fundings : List Funding
  pub orders : List Reservation
  pub registrations : List Registration

abbrev pub idle : Db → World
idle db = record { db = db; fundings = []; orders = []; registrations = [] }

pub data Turn (platform : Platform) (library : Library) (w : World) : World → Type 0 where
  calls :
      {w' : World}
      → Step platform library w.db w'.db
      → w'.fundings ≡ w.fundings
      → w'.orders ≡ w.orders
      → w'.registrations ≡ w.registrations
      → Turn platform library w w'
  reads_funding :
      {w' : World} (x : Funding) (d : Db)
      → read_funding x.draws x.call w.db ≡ ok (inr x, d)
      → w' ≡ record w { fundings = x ∷ w.fundings }
      → Turn platform library w w'
  reads_order :
      {w' : World} (x : Reservation) (d : Db)
      → read_order x.draws x.call w.db ≡ ok (inr x, d)
      → w' ≡ record w { orders = x ∷ w.orders }
      → Turn platform library w w'
  posts_funding :
      {w' : World} (x : Funding) (before after : List Funding)
      → w.fundings ≡ append before (x ∷ after)
      → w' ≡ record w {
        db = (run (fund_from_treasury platform x) w.db).1;
        fundings = append before after;
      }
      → Turn platform library w w'
  posts_order :
      {w' : World} (x : Reservation) (before after : List Reservation)
      → w.orders ≡ append before (x ∷ after)
      → w' ≡ record w { db = (run (reserve_funds platform x) w.db).1; orders = append before after }
      → Turn platform library w w'
  reads_registration :
      {w' : World} (x : Registration)
      → find? (has_email (lower x.payload.email)) w.db.users ≡ none
      → w' ≡ record w { registrations = x ∷ w.registrations }
      → Turn platform library w w'
  posts_registration :
      {w' : World} (x : Registration) (before after : List Registration)
      → w.registrations ≡ append before (x ∷ after)
      → w' ≡ record w {
        db = (register_unless platform library x.minutes x.now x.draws x.payload none w.db).1;
        registrations = append before after;
      }
      → Turn platform library w w'

pub data Turns (platform : Platform) (library : Library) (start : World) : World → Type 0 where
  begin : Turns platform library start start
  next :
      {w w' : World}
      → Turns platform library start w
      → Turn platform library w w'
      → Turns platform library start w'

-- The condition of `IsSolvent`, when the amounts are posted.
abbrev pub IsSolventTurn :
    {platform : Platform} {library : Library} {w w' : World} → Turn platform library w w' → Type 0
IsSolventTurn (calls s _ _ _) = IsSolvent s
IsSolventTurn (reads_funding _ _ _ _) = Unit
IsSolventTurn (reads_order _ _ _ _) = Unit
IsSolventTurn {w = w} (posts_funding x _ _ _ _) =
    IsMoney x.call.amount × All (HasRoom x.call.amount) w.db.wallets
IsSolventTurn (posts_order x _ _ _ _) = IsMoney (amount_of x.call.side x.call.price x.call.quantity)
IsSolventTurn (reads_registration _ _ _) = Unit
IsSolventTurn (posts_registration _ _ _ _ _) = Unit

abbrev pub AreSolventTurns :
    {platform : Platform} {library : Library} {start w : World}
    → Turns platform library start w
    → Type 0
AreSolventTurns begin = Unit
AreSolventTurns (next t s) = AreSolventTurns t × IsSolventTurn s

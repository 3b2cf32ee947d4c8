-- ===== src/History/Net.antt =====
-- The credits and the debits of each transaction, whoever takes turns.
use crypto_ledger_sandbox.Prelude.{◌≡◌, refl, ◌∙◌}
use crypto_ledger_sandbox.Models.{Uuid}
use crypto_ledger_sandbox.Db.{Db, Platform}
use crypto_ledger_sandbox.Accounts.{net}
use crypto_ledger_sandbox.Accounts.Balanced.{
  post_sandbox_funding-balanced, create_order_reservation-balanced,
  cancel_order_reservation-balanced,
}
use crypto_ledger_sandbox.Api.Security.{Library}
use crypto_ledger_sandbox.History.{Step, Reach, here, later}
use crypto_ledger_sandbox.History.Calls.{Step-holds}
use crypto_ledger_sandbox.History.Turns.{World, idle, Turns}
use crypto_ledger_sandbox.History.Interleaved.{Turns-Reach}

module _ {platform : Platform} {library : Library} (t : Uuid) where
  Step-net : {db db' : Db} → Step platform library db db' → net t db' ≡ net t db
  unfolding net
  Step-net {db} =
      Step-holds platform library (λ d. net t d ≡ net t db) db (λ _ _. refl)
        (λ draws call r d. post_sandbox_funding-balanced platform draws call db d r t)
        (λ draws call r d. create_order_reservation-balanced platform draws call db d r t)
        (λ draws user_id order_id r d.
          cancel_order_reservation-balanced platform draws user_id order_id db d r t)

  Reach-net : {start db : Db} → Reach platform library start db → net t db ≡ net t start
  Reach-net here = refl
  Reach-net (later r s) = Step-net s ∙ Reach-net r

  -- Whatever sessions do, taking turns, every state that they reach from one in which none is
  -- under way has for every ledger transaction the sum of the credits less the debits that it
  -- had at the start.
  pub Turns-net :
      {start : Db} {w : World} → Turns platform library (idle start) w → net t w.db ≡ net t start
  Turns-net turns = Reach-net (Turns-Reach turns)

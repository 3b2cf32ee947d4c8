-- ===== src/History/Moves.antt =====
-- Histories of the tables as histories of the abstract ledger.
use crypto_ledger_sandbox.Prelude.{Bool, true, false, ◌≡◌, ap, ◌⊎◌, refl, inl, inr}
use crypto_ledger_sandbox.Decimal.{Decimal}
use crypto_ledger_sandbox.Models.{
  Uuid, LedgerTransactionType, funding, order_reserve, order_release,
}
use crypto_ledger_sandbox.Db.{Db, Platform}
use crypto_ledger_sandbox.Accounts.{ExactColumns}
use crypto_ledger_sandbox.Accounts.Balances.{
  Balances, balances, LedgerView, view, posted, changed, deposited, IsHold, IsFree, Move, deposit,
  hold, free, rest,
}
use crypto_ledger_sandbox.Accounts.Posts.{
  IsPosted, post_sandbox_funding-posts, create_order_reservation-posts,
  cancel_order_reservation-posts,
}
use crypto_ledger_sandbox.Accounts.Holds.{
  create_order_reservation-holds, cancel_order_reservation-frees,
}
use crypto_ledger_sandbox.Accounts.Deposits.{post_sandbox_funding-deposits}
use crypto_ledger_sandbox.Api.Security.{Library}
use crypto_ledger_sandbox.Seed.Books.{HasBooks}
use crypto_ledger_sandbox.History.{IsSolvent, Step}
use crypto_ledger_sandbox.History.Books.{Step-keeps}
use crypto_ledger_sandbox.History.Turns.{World, idle, Turns, begin, next, AreSolventTurns}
use crypto_ledger_sandbox.History.Current.{Turns-IsCurrent}
use crypto_ledger_sandbox.History.Interleaved.{Turn-keeps, Turns-HasBooks}

-- Moves one after another.
pub data Moves (s : LedgerView) : LedgerView → Type 0 where
  none_yet : Moves s s
  after : {t u : LedgerView} → Moves s t → Move t u → Moves s u

both : {b : Bool} → b ≡ true → b ≡ false → ⊥
both h k = cc

viewed :
    {db db' : Db} {users : Balances} (kind : LedgerTransactionType) (r : Decimal)
    → IsPosted kind r db db'
    → balances db' ≡ users
    → view db' ≡ posted kind r users (view db)
unfolding view
viewed kind r p e i = record { kinds = p.kinds i; amounts = p.amounts i; users = e i }

module _ {db db' : Db} (u a : Uuid) (r : Decimal) where
  deposited-Move :
      IsPosted funding r db db'
      → balances db' ≡ changed u a (deposited r) (balances db)
      → Move (view db) (view db')
  unfolding view
  deposited-Move p e = deposit u a r p.positive (viewed funding r p e)

  held-Move : IsPosted order_reserve r db db' → IsHold u a r db db' → Move (view db) (view db')
  unfolding view
  held-Move p (le, e) = hold u a r p.positive le (viewed order_reserve r p e)

  freed-Move : IsPosted order_release r db db' → IsFree u a r db db' → Move (view db) (view db')
  unfolding view
  freed-Move p (le, e) = free u a r p.positive le (viewed order_release r p e)

-- A call that answers a replay rests, and one that does not makes the move that it posts.
called :
    {replayed : Bool} {A B C : Type 0} {db db' : Db}
    → ((replayed ≡ true) × (db' ≡ db)) ⊎ ((replayed ≡ false) × A)
    → ((replayed ≡ true) × B) ⊎ ((replayed ≡ false) × C)
    → (A → C → Move (view db) (view db'))
    → Move (view db) (view db')
called (inl (_, same)) _ f = rest (ap view same)
called (inr (fresh, _)) (inl (again, _)) f = absurd (both again fresh)
called (inr (_, a)) (inr (_, c)) f = f a c

module _ (platform : Platform) (library : Library) (columns : ExactColumns platform) where
  Step-Move :
      {db db' : Db}
      → HasBooks db
      → (s : Step platform library db db') → IsSolvent s
      → Move (view db) (view db')
  unfolding view balances
  Step-Move {db} books =
      Step-keeps platform library (λ d. Move (view db) (view d)) db (λ users events. rest refl)
        (λ draws call r d m room s.
          called (post_sandbox_funding-posts platform columns db d draws call r m s)
            (post_sandbox_funding-deposits platform draws call db d r columns books.sound m room s)
            (deposited-Move call.user_id r.asset.id call.amount))
        (λ draws call r d m s.
          called (create_order_reservation-posts platform columns db d draws call r m s)
            (create_order_reservation-holds platform draws call db d r columns books.sound m s)
            (held-Move call.user_id r.reserve_asset.id _))
        (λ draws user_id order_id r d s.
          called
            (cancel_order_reservation-posts platform columns db d draws user_id order_id r
              books.sound s)
            (cancel_order_reservation-frees platform draws user_id order_id db d r columns
              books.sound s)
            (freed-Move user_id r.reserve_asset.id r.order.reserved_amount))

  -- If the columns hold money exactly, the books are sound and the locked balances backed at the
  -- start, every amount that is funded or ordered is money when it is posted, and so are the
  -- balances with a funding's amount added, then whatever sessions do, taking turns, of which a
  -- funding, a reservation and a registration have two and every other call has one, what the
  -- tables say comes about by moves of the abstract ledger, none of them for a call that posts
  -- nothing: deposits, holds of what is available, and releases of what is held, each of a
  -- positive amount for one user in one asset, and each with exactly one transaction of its kind
  -- and two entries of that amount.
  pub Turns-Moves :
      {start : Db} {w : World}
      → HasBooks start
      → (t : Turns platform library (idle start) w) → AreSolventTurns t
      → Moves (view start) (view w.db)
  Turns-Moves books begin _ = none_yet
  Turns-Moves {start} books (next t s) (m, n) =
      let held = Turns-HasBooks platform library columns books t m in
      let before = Turns-Moves books t m in
      Turn-keeps (λ d. Moves (view start) (view d)) (Turns-IsCurrent t) before
        (λ _ step p. after before (Step-Move held step p)) s n

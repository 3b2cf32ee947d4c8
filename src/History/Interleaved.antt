-- ===== src/History/Interleaved.antt =====
-- Sessions that take turns, and whole calls one after another.
use crypto_ledger_sandbox.Prelude.{◌≡◌, refl, sym, subst, ◌∙◌}
use crypto_ledger_sandbox.Models.{BalanceBucket, Uuid}
use crypto_ledger_sandbox.Db.{Db, Platform}
use crypto_ledger_sandbox.Accounts.{unexplained, ExactColumns}
use crypto_ledger_sandbox.Accounts.Supply.{supply}
use crypto_ledger_sandbox.Api.Security.{Library}
use crypto_ledger_sandbox.Seed.Books.{HasBooks}
use crypto_ledger_sandbox.History.{Step, IsSolvent, Reach, here, later}
use crypto_ledger_sandbox.History.Current.{
  IsCurrent, waiting_funding, waiting_order, funding_step, order_step, registration_step,
  Turns-IsCurrent,
}
use crypto_ledger_sandbox.History.Books.{Step-HasBooks, Step-supply, Step-unexplained}
use crypto_ledger_sandbox.History.Turns.{
  World, idle, Turn, calls, reads_funding, reads_order, posts_funding, posts_order,
  reads_registration, posts_registration, Turns, begin, next, IsSolventTurn, AreSolventTurns,
}

module _ {platform : Platform} {library : Library} where
  Turn-Reach :
      {start : Db} {w w' : World}
      → IsCurrent w
      → Reach platform library start w.db
      → Turn platform library w w'
      → Reach platform library start w'.db
  Turn-Reach c r (calls s _ _ _) = later r s
  Turn-Reach {start} c r (reads_funding x d h e) =
      subst (λ (v : World). Reach platform library start v.db) (sym e) r
  Turn-Reach {start} c r (reads_order x d h e) =
      subst (λ (v : World). Reach platform library start v.db) (sym e) r
  Turn-Reach {start} {w} c r (posts_funding x before after waits e) =
      subst (λ (v : World). Reach platform library start v.db) (sym e)
        (later r (funding_step x w.db (waiting_funding x before after c waits)))
  Turn-Reach {start} {w} c r (posts_order x before after waits e) =
      subst (λ (v : World). Reach platform library start v.db) (sym e)
        (later r (order_step x w.db (waiting_order x before after c waits)))
  Turn-Reach {start} c r (reads_registration x free e) =
      subst (λ (v : World). Reach platform library start v.db) (sym e) r
  Turn-Reach {start} {w} c r (posts_registration x before after waits e) =
      subst (λ (v : World). Reach platform library start v.db) (sym e)
        (later r (registration_step x w.db))

  -- Whatever sessions do, taking turns, of which a funding, a reservation and a registration
  -- have two (what they read before they lock or write, and what they do from then on) and every
  -- other call has one, every state of the tables that they reach from one in which none is
  -- under way is reached by whole calls one after another.
  pub Turns-Reach :
      {start : Db} {w : World}
      → Turns platform library (idle start) w
      → Reach platform library start w.db
  Turns-Reach begin = here
  Turns-Reach (next t s) = Turn-Reach (Turns-IsCurrent t) (Turns-Reach t) s

  -- What every call that is solvent keeps, a turn keeps.
  pub Turn-keeps :
      {w w' : World} (P : Db → Type 0)
      → IsCurrent w
      → P w.db
      → ((db' : Db) (s : Step platform library w.db db') → IsSolvent s → P db')
      → (t : Turn platform library w w') → IsSolventTurn t
      → P w'.db
  Turn-keeps P c p kept (calls s _ _ _) m = kept _ s m
  Turn-keeps P c p kept (reads_funding x d h e) _ = subst (λ (v : World). P v.db) (sym e) p
  Turn-keeps P c p kept (reads_order x d h e) _ = subst (λ (v : World). P v.db) (sym e) p
  Turn-keeps {w} P c p kept (posts_funding x before after waits e) m =
      subst (λ (v : World). P v.db) (sym e)
        (kept _ (funding_step x w.db (waiting_funding x before after c waits)) m)
  Turn-keeps {w} P c p kept (posts_order x before after waits e) m =
      subst (λ (v : World). P v.db) (sym e)
        (kept _ (order_step x w.db (waiting_order x before after c waits)) m)
  Turn-keeps P c p kept (reads_registration x free e) _ = subst (λ (v : World). P v.db) (sym e) p
  Turn-keeps {w} P c p kept (posts_registration x before after waits e) m =
      subst (λ (v : World). P v.db) (sym e) (kept _ (registration_step x w.db) m)

module _ (platform : Platform) (library : Library) (columns : ExactColumns platform) where
  -- If the columns hold money exactly, the books are sound and the locked balances backed at the
  -- start, every amount that is funded or ordered is money when it is posted, and so are the
  -- balances with a funding's amount added, then in every state that sessions reach, taking
  -- turns, of which a funding, a reservation and a registration have two and every other call
  -- has one, the books are sound and the locked balances backed.
  pub Turns-HasBooks :
      {start : Db} {w : World}
      → HasBooks start
      → (t : Turns platform library (idle start) w) → AreSolventTurns t
      → HasBooks w.db
  Turns-HasBooks books begin _ = books
  Turns-HasBooks books (next t s) (m, n) =
      let held = Turns-HasBooks books t m in
      Turn-keeps HasBooks (Turns-IsCurrent t) held
        (λ _ step p. Step-HasBooks platform library columns held step p) s n

  -- If the columns hold money exactly, the books are sound and the locked balances backed at the
  -- start, every amount that is funded or ordered is money when it is posted, and so are the
  -- balances with a funding's amount added, then in every state that sessions reach, taking
  -- turns, of which a funding, a reservation and a registration have two and every other call
  -- has one, all wallets in an asset together hold what they held at the start.
  pub Turns-supply :
      {start : Db} {w : World} (a : Uuid)
      → HasBooks start
      → (t : Turns platform library (idle start) w) → AreSolventTurns t
      → supply a w.db ≡ supply a start
  Turns-supply a books begin _ = refl
  Turns-supply {start} a books (next t s) (m, n) =
      let held = Turns-HasBooks books t m in
      let same = Turns-supply a books t m in
      Turn-keeps (λ d. supply a d ≡ supply a start) (Turns-IsCurrent t) same
        (λ _ step p. Step-supply platform library columns a held step p ∙ same) s n

  -- If the columns hold money exactly, the books are sound and the locked balances backed at the
  -- start, every amount that is funded or ordered is money when it is posted, and so are the
  -- balances with a funding's amount added, then in every state that sessions reach, taking
  -- turns, of which a funding, a reservation and a registration have two and every other call
  -- has one, the part of a wallet's available and of its locked balance that no ledger entry
  -- explains is what it was at the start.
  pub Turns-unexplained :
      {start : Db} {w : World} (b : BalanceBucket) (k : Uuid)
      → HasBooks start
      → (t : Turns platform library (idle start) w) → AreSolventTurns t
      → unexplained b k w.db ≡ unexplained b k start
  Turns-unexplained b k books begin _ = refl
  Turns-unexplained {start} b k books (next t s) (m, n) =
      let held = Turns-HasBooks books t m in
      let same = Turns-unexplained b k books t m in
      Turn-keeps (λ d. unexplained b k d ≡ unexplained b k start) (Turns-IsCurrent t) same
        (λ _ step p. Step-unexplained platform library columns b k held step p ∙ same) s n

-- ===== src/History/Current.antt =====
-- What the sessions that wait for their second turn have read.
use mathlib.Core.List.{◌++◌ as append}
use crypto_ledger_sandbox.Prelude.{
  Option, none, some, List, [], ◌∷◌, ◌≡◌, refl, sym, ap, subst, ◌∙◌, inr, pos, leb_ℤ, find?, All,
  All-weaken, ◌==◌,
}
use crypto_ledger_sandbox.Models.{Order}
use crypto_ledger_sandbox.Db.{Db, Platform, ok, value_error, asset_not_found, run}
use crypto_ledger_sandbox.Db.Laws.{ok-value, >>=-ok, or_raise-bind, raise_if-bind}
use crypto_ledger_sandbox.Ledger.{
  Funding, FundingResult, active_with_code, find_funding_replay, fund_from_treasury,
}
use crypto_ledger_sandbox.Orders.{
  Reservation, reservation_of, amount_of, existing_order_replay, reserve_funds,
}
use crypto_ledger_sandbox.Orders.Outcomes.{IsAdmitted, active_asset-bind, reservation_amount-bind}
use crypto_ledger_sandbox.Api.Security.{Library}
use crypto_ledger_sandbox.Api.AuthRoutes.{register_unless}
use crypto_ledger_sandbox.Api.Raced.{register_unless-serial}
use crypto_ledger_sandbox.History.{Step, registers, funds, reserves}
use crypto_ledger_sandbox.History.Assets.{Step-assets}
use crypto_ledger_sandbox.History.Phases.{answer_or, replay_or, read_funding, read_order}
use crypto_ledger_sandbox.History.Serial.{IsRead, fund_from_treasury-serial, reserve_funds-serial}
use crypto_ledger_sandbox.History.Turns.{
  World, idle, Turn, calls, reads_funding, reads_order, posts_funding, posts_order,
  reads_registration, posts_registration, Registration, Turns, begin, next,
}

handed_funding :
    (replay : Option FundingResult) (x y : Funding) → answer_or replay y ≡ inr x → y ≡ x
handed_funding none x y h = cc
handed_funding (some r) x y h = cc

handed_order : (replay : Option Order) (x y : Reservation) → replay_or y replay ≡ inr x → y ≡ x
handed_order none x y h = cc
handed_order (some o) x y h = cc

read_funding-IsRead :
    (x : Funding) (db d : Db) → read_funding x.draws x.call db ≡ ok (inr x, d) → IsRead db x
unfolding read_funding
read_funding-IsRead x db d h =
    let (positive, h₁) =
      raise_if-bind (leb_ℤ x.call.amount (pos 0))
        (value_error "Funding amount must be greater than zero.") _ db h in
    let (asset, found, h₂) =
      or_raise-bind (find? (active_with_code x.call.asset_code) db.assets) asset_not_found _ db
        h₁ in
    let y : Funding = record { call = x.call; draws = x.draws; asset = asset } in
    let (replay, _, _, h₃) = >>=-ok (find_funding_replay x.call asset) _ db h₂ in
    subst (IsRead db) (handed_funding replay x y (ok-value h₃))
      (record { positive = positive; found = found })

read_order-IsAdmitted :
    (x : Reservation) (db d : Db)
    → read_order x.draws x.call db ≡ ok (inr x, d)
    → IsAdmitted x.draws x.call db x
unfolding read_order
read_order-IsAdmitted x db d h =
    let (base, b, h₁) = active_asset-bind x.call.base_asset_code _ db h in
    let (quote, q, h₂) = active_asset-bind x.call.quote_asset_code _ db h₁ in
    let (distinct, h₃) =
      raise_if-bind (base.id == quote.id) (value_error "Base and quote assets must be different.") _
        db h₂ in
    let (positive, h₄) = reservation_amount-bind x.call _ db h₃ in
    let y : Reservation =
      reservation_of x.draws x.call base quote
        (amount_of x.call.side x.call.price x.call.quantity) in
    let (replay, _, _, h₅) = >>=-ok (existing_order_replay base quote x.call) _ db h₄ in
    subst (IsAdmitted x.draws x.call db) (handed_order replay x y (ok-value h₅))
      (record { base = b; quote = q; distinct = distinct; positive = positive; shape = refl })

-- What the sessions that wait have read is still so.
pub record IsCurrent (w : World) : Type 0 where
  pub fundings : All (IsRead w.db) w.fundings
  pub orders : All (λ x. IsAdmitted x.draws x.call w.db x) w.orders

IsRead-assets : (db db' : Db) → db'.assets ≡ db.assets → (x : Funding) → IsRead db x → IsRead db' x
IsRead-assets db db' same x r = record {
  positive = r.positive;
  found = ap (find? (active_with_code x.call.asset_code)) same ∙ r.found;
}

IsAdmitted-assets :
    (db db' : Db)
    → db'.assets ≡ db.assets
    → (x : Reservation) → IsAdmitted x.draws x.call db x
    → IsAdmitted x.draws x.call db' x
IsAdmitted-assets db db' same x a = record {
  base = ap (find? (active_with_code x.call.base_asset_code)) same ∙ a.base;
  quote = ap (find? (active_with_code x.call.quote_asset_code)) same ∙ a.quote;
  distinct = a.distinct;
  positive = a.positive;
  shape = a.shape;
}

All-middle :
    {A : Type 0} (P : A → Type 0) (before : List A) (x : A) (after : List A)
    → All P (append before (x ∷ after))
    → P x × All P (append before after)
All-middle P [] x after a = a
All-middle P (y ∷ before) x after (p, a) =
    let (own, rest) = All-middle P before x after a in (own, (p, rest))

pub waiting_funding :
    {w : World} (x : Funding) (before after : List Funding)
    → IsCurrent w
    → w.fundings ≡ append before (x ∷ after)
    → IsRead w.db x
waiting_funding {w} x before after c waits =
    (All-middle (IsRead w.db) before x after (subst (All (IsRead w.db)) waits c.fundings)).0

pub waiting_order :
    {w : World} (x : Reservation) (before after : List Reservation)
    → IsCurrent w
    → w.orders ≡ append before (x ∷ after)
    → IsAdmitted x.draws x.call w.db x
waiting_order {w} x before after c waits =
    (All-middle (λ y. IsAdmitted y.draws y.call w.db y) before x after
      (subst (All (λ y. IsAdmitted y.draws y.call w.db y)) waits c.orders)).0

module _ {platform : Platform} {library : Library} where
  -- The second turn of a funding is a whole funding.
  abbrev pub funding_step :
      (x : Funding) (db : Db)
      → IsRead db x
      → Step platform library db (run (fund_from_treasury platform x) db).1
  funding_step x db read = funds x.draws x.call (fund_from_treasury-serial platform x db read)

  -- The second turn of a reservation is a whole reservation.
  abbrev pub order_step :
      (x : Reservation) (db : Db)
      → IsAdmitted x.draws x.call db x
      → Step platform library db (run (reserve_funds platform x) db).1
  order_step x db admitted = reserves x.draws x.call (reserve_funds-serial platform x db admitted)

  -- The second turn of a registration is a whole registration.
  abbrev pub registration_step :
      (x : Registration) (db : Db)
      → Step platform library db
          (register_unless platform library x.minutes x.now x.draws x.payload none db).1
  registration_step x db =
      registers x.minutes x.now x.draws x.payload (
        ap (λ p. p.1)
          (register_unless-serial platform library x.minutes x.now x.draws x.payload db))

  Step-IsRead :
      {db db' : Db}
      → Step platform library db db'
      → (xs : List Funding) → All (IsRead db) xs
      → All (IsRead db') xs
  Step-IsRead {db} {db'} s xs = All-weaken (IsRead-assets db db' (Step-assets s)) xs

  Step-IsAdmitted :
      {db db' : Db}
      → Step platform library db db'
      → (xs : List Reservation) → All (λ x. IsAdmitted x.draws x.call db x) xs
      → All (λ x. IsAdmitted x.draws x.call db' x) xs
  Step-IsAdmitted {db} {db'} s xs = All-weaken (IsAdmitted-assets db db' (Step-assets s)) xs

  Turn-IsCurrent : {w w' : World} → Turn platform library w w' → IsCurrent w → IsCurrent w'
  Turn-IsCurrent {w} {w'} (calls s e f _) c = record {
    fundings = subst (All (IsRead w'.db)) (sym e) (Step-IsRead s w.fundings c.fundings);
    orders =
        subst (All (λ x. IsAdmitted x.draws x.call w'.db x)) (sym f)
          (Step-IsAdmitted s w.orders c.orders);
  }
  Turn-IsCurrent {w} (reads_funding x d h e) c =
      subst IsCurrent (sym e)
        (record { fundings = (read_funding-IsRead x w.db d h, c.fundings); orders = c.orders })
  Turn-IsCurrent {w} (reads_order x d h e) c =
      subst IsCurrent (sym e)
        (record { fundings = c.fundings; orders = (read_order-IsAdmitted x w.db d h, c.orders) })
  Turn-IsCurrent {w} (posts_funding x before after waits e) c =
      let (read, rest) =
        All-middle (IsRead w.db) before x after (subst (All (IsRead w.db)) waits c.fundings) in
      let s = funding_step x w.db read in
      subst IsCurrent (sym e) (record {
        fundings = Step-IsRead s (append before after) rest;
        orders = Step-IsAdmitted s w.orders c.orders;
      })
  Turn-IsCurrent {w} (posts_order x before after waits e) c =
      let (admitted, rest) =
        All-middle (λ y. IsAdmitted y.draws y.call w.db y) before x after
          (subst (All (λ y. IsAdmitted y.draws y.call w.db y)) waits c.orders) in
      let s = order_step x w.db admitted in
      subst IsCurrent (sym e) (record {
        fundings = Step-IsRead s w.fundings c.fundings;
        orders = Step-IsAdmitted s (append before after) rest;
      })
  Turn-IsCurrent {w} (reads_registration x free e) c =
      subst IsCurrent (sym e) (record { fundings = c.fundings; orders = c.orders })
  Turn-IsCurrent {w} (posts_registration x before after waits e) c =
      let s = registration_step x w.db in
      subst IsCurrent (sym e) (record {
        fundings = Step-IsRead s w.fundings c.fundings;
        orders = Step-IsAdmitted s w.orders c.orders;
      })

  pub Turns-IsCurrent :
      {start : Db} {w : World} → Turns platform library (idle start) w → IsCurrent w
  Turns-IsCurrent begin = record { fundings = tt; orders = tt }
  Turns-IsCurrent (next t s) = Turn-IsCurrent s (Turns-IsCurrent t)

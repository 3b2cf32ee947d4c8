-- ===== src/Outbox/Confirmed.antt =====
-- The relay and an event that the publisher has not confirmed.
use crypto_ledger_sandbox.Prelude.{
  ℕ, Bool, Bool-cases, false, ◌&&◌, String, Option, Option-cases, none, some, List, [], ◌∷◌, ◌==◌,
  ==_iff, ◌≡◌, ◌≢◌, refl, ◌∙◌, inl, inr, any?, any?-update, update, arith,
}
use crypto_ledger_sandbox.Models.{Uuid, OutboxEvent}
use crypto_ledger_sandbox.Db.{Db}
use crypto_ledger_sandbox.Outbox.{
  Publisher, is_pending, first_pending, mark_failed, mark_published, settle, claim, truncate,
  publish_next_outbox_event,
}
use crypto_ledger_sandbox.Outbox.Relay.{run_outbox_relay}

-- The event has the identifier and is to be published.
abbrev pub is_pending_as : Uuid → OutboxEvent → Bool
is_pending_as k e = e.id == k && is_pending e

other_published :
    (k j : Uuid) (now : ℕ) (events : List OutboxEvent)
    → (j == k) ≡ false
    → any? (is_pending_as k) (update (λ d. d.id) j (mark_published now) events)
      ≡ any? (is_pending_as k) events
unfolding any? update
other_published k j now [] h = refl
other_published k j now (e ∷ events) h = ground (arith, other_published k j now events)

module _ (publisher : Publisher) (k : Uuid)
    (refuses : (e : OutboxEvent) → e.id ≡ k → publisher e ≢ none) where
  settled_pending :
      (answer : Option String) (now : ℕ) (e : OutboxEvent) (db : Db)
      → publisher e ≡ answer
      → any? (is_pending_as k) (settle answer now e db).1.events ≡ any? (is_pending_as k) db.events
  unfolding settle
  settled_pending (some message) now e db h =
      any?-update (is_pending_as k) (λ d. d.id) e.id (mark_failed (truncate 2000 message)) db.events
        (λ d. refl)
  settled_pending none now e db h = elim (Bool-cases (e.id == k)) [
    | inl same ↦ absurd (refuses e ((==_iff e.id k).0 same) h)
    | inr other ↦ other_published k e.id now db.events other
  ]

  unconfirmed_pending :
      (now : ℕ) (locked : OutboxEvent → Bool) (event_id : Option Uuid) (db : Db)
      → any? (is_pending_as k) (publish_next_outbox_event publisher now locked event_id db).1.events
        ≡ any? (is_pending_as k) db.events
  unfolding publish_next_outbox_event claim
  unconfirmed_pending now locked event_id db =
      elim (Option-cases (first_pending locked event_id db.events)) [
        | inl nothing ↦ rw nothing refl
        | inr (e, found) ↦ rw found (settled_pending (publisher e) now e db refl)
      ]

module _ (publisher : ℕ → Publisher) (k : Uuid)
    (refuses : (now : ℕ) (e : OutboxEvent) → e.id ≡ k → publisher now e ≢ none) where
  -- What the publisher always refuses stays to be published.
  pub run_outbox_relay-unconfirmed :
      (times : List ℕ) (db : Db)
      → any? (is_pending_as k) (run_outbox_relay publisher times db).events
        ≡ any? (is_pending_as k) db.events
  unfolding run_outbox_relay
  run_outbox_relay-unconfirmed [] db = refl
  run_outbox_relay-unconfirmed (now ∷ times) db =
      run_outbox_relay-unconfirmed times _
      ∙ unconfirmed_pending (publisher now) k (refuses now) now (λ _. false) none db

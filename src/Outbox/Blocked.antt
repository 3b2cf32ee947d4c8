-- ===== src/Outbox/Blocked.antt =====
-- The relay while the publisher refuses events.
use crypto_ledger_sandbox.Prelude.{
  ℕ, ◌+◌, Bool-cases, false, String, Option, none, some, List, [], ◌∷◌, ◌==◌, ◌≡◌, refl, ap, ◌∙◌,
  inl, inr, ==_refl, if◌then◌else◌, update, updated, arith,
}
use crypto_ledger_sandbox.Models.{Uuid, OutboxEvent}
use crypto_ledger_sandbox.Db.{Db}
use crypto_ledger_sandbox.Outbox.{
  Publisher, is_waiting, earlier, first_pending, settle, claim, truncate, publish_next_outbox_event,
}
use crypto_ledger_sandbox.Outbox.Relay.{run_outbox_relay, rounds}

-- The row after `times` attempts that failed with the text.
abbrev pub refused : ℕ → String → OutboxEvent → OutboxEvent
refused times message e = record e {
  publish_attempts = e.publish_attempts + times;
  last_error = some message;
}

module _ (k : Uuid) (times : ℕ) (message : String) where
  is_waiting-refused :
      (e : OutboxEvent)
      → is_waiting (λ _. false) none (if e.id == k then refused times message e else e)
        ≡ is_waiting (λ _. false) none e
  is_waiting-refused e = ground arith

  earlier-refused :
      (e : OutboxEvent) (o : Option OutboxEvent)
      → earlier
          (if e.id == k then refused times message e else e)
          (updated (λ d. d.id) k (refused times message) o)
        ≡ (if (earlier e o).id == k then refused times message (earlier e o) else earlier e o)
  earlier-refused e none = refl
  earlier-refused e (some d) = ground arith

  first_pending-refused :
      (events : List OutboxEvent)
      → first_pending (λ _. false) none (update (λ d. d.id) k (refused times message) events)
        ≡ updated (λ d. d.id) k (refused times message) (first_pending (λ _. false) none events)
  unfolding first_pending update
  first_pending-refused [] = refl
  first_pending-refused (e ∷ events) =
      rw (is_waiting-refused e, first_pending-refused events)
        (elim (Bool-cases (is_waiting (λ _. false) none e)) [
          | inl waits ↦ rw (waits, earlier-refused e (first_pending (λ _. false) none events)) refl
          | inr idle ↦ rw idle refl
        ])

refused_again :
    (k : Uuid) (n : ℕ) (message : String) (events : List OutboxEvent)
    → update (λ d. d.id) k (refused n message) (update (λ d. d.id) k (refused 1 message) events)
      ≡ update (λ d. d.id) k (refused (1 + n) message) events
unfolding update
refused_again k n message [] = refl
refused_again k n message (e ∷ events) = ground (arith, refused_again k n message events)

refused_round :
    (publisher : Publisher) (message : String) (now : ℕ) (db : Db) (e : OutboxEvent)
    → publisher e ≡ some message
    → first_pending (λ _. false) none db.events ≡ some e
    → (publish_next_outbox_event publisher now (λ _. false) none db).1
      ≡ record db { events = update (λ d. d.id) e.id (refused 1 (truncate 2000 message)) db.events }
unfolding publish_next_outbox_event claim settle
refused_round publisher message now db e h first = rw (first, h) refl

module _ (publisher : ℕ → Publisher) (message : String) where
  -- If an event is the first that is to be published, and the publisher refuses at every time
  -- every event with its identifier, with one text, then any positive number of rounds of the
  -- relay changes nothing but the rows with that identifier, whose attempts grow by the number
  -- of rounds and whose last error is the text, cut to 2000 characters: no other event is
  -- delivered.
  pub run_outbox_relay-blocked :
      (now : ℕ) (times : List ℕ) (db : Db) (e : OutboxEvent)
      → ((time : ℕ) (d : OutboxEvent) → d.id ≡ e.id → publisher time d ≡ some message)
      → first_pending (λ _. false) none db.events ≡ some e
      → run_outbox_relay publisher (now ∷ times) db ≡ record db {
        events =
            update
              (λ d. d.id)
              e.id
              (refused (rounds (now ∷ times)) (truncate 2000 message))
              db.events;
      }
  unfolding run_outbox_relay
  run_outbox_relay-blocked now [] db e refuses first =
      refused_round (publisher now) message now db e (refuses now e refl) first
  run_outbox_relay-blocked now (later ∷ times) db e refuses first =
      rw (refused_round (publisher now) message now db e (refuses now e refl) first) (
        run_outbox_relay-blocked later times _ (refused 1 (truncate 2000 message) e) refuses (
          first_pending-refused e.id 1 (truncate 2000 message) db.events
          ∙ rw (first, ==_refl e.id) refl)
        ∙ ap (λ events. record db { events = events })
            (refused_again e.id (rounds (later ∷ times)) (truncate 2000 message) db.events))

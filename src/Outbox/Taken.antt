-- ===== src/Outbox/Taken.antt =====
-- What `publish_next_outbox_event` of app/services/outbox.py takes and leaves in the table.
use crypto_ledger_sandbox.Prelude.{
  ℕ, ◌+◌, Bool, Bool-cases, true, false, String, Option, none, some, List, ◌==◌, ==_refl, ==_iff,
  ltb, leb, ◌≡◌, refl, sym, ap, ◌∙◌, inl, inr, ◌⊎◌, ◌&&◌, any?, find?, find?-any, find?-update_key,
  Unique, update, arith, if◌then◌else◌,
}
use crypto_ledger_sandbox.Models.{Uuid, OutboxEvent}
use crypto_ledger_sandbox.Db.{Db}
use crypto_ledger_sandbox.Outbox.{
  Publisher, is_pending, is_asked_for, is_waiting, precedes, mark_failed, mark_published, settle,
  truncate, publish_next_outbox_event,
}
use crypto_ledger_sandbox.Outbox.Delivery.{IsNext, publish_next_outbox_event-outcome}

-- An event that the call may take: it is in the table, has not been published, is not locked by
-- another worker, and is the one that is asked for, if one is.
pub record IsAvailable (locked : OutboxEvent → Bool) (event_id : Option Uuid)
    (events : List OutboxEvent) (e : OutboxEvent) : Type 0 where
  pub stored : find? (λ d. d.id == e.id) events ≡ some e
  pub unpublished : e.published_at ≡ none
  pub unlocked : locked e ≡ false
  pub asked_for : (event_id ≡ none) ⊎ (event_id ≡ some e.id)

-- Earlier, or of the same time and not of a greater identifier.
abbrev pub IsNoLater : OutboxEvent → OutboxEvent → Type 0
IsNoLater e d =
    (ltb e.created_at d.created_at ≡ true)
    ⊎ ((e.created_at ≡ d.created_at) × (leb e.id d.id ≡ true))

-- The event was published now, or it is to be published still and says why.
abbrev pub IsSettled : Option String → ℕ → OutboxEvent → Bool → OutboxEvent → Type 0
IsSettled response now e answer row =
    ((response ≡ none)
      × (answer ≡ true)
      × (row ≡ record e {
        publish_attempts = e.publish_attempts + 1;
        published_at = some now;
        last_error = none;
      }))
    ⊎ ((message : String) × (response ≡ some message)
        × (answer ≡ false)
        × (row ≡ record e {
          publish_attempts = e.publish_attempts + 1;
          last_error = some (truncate 2000 message);
        }))

-- What is left: the event has been settled, every other is as it was, and so is every other table.
pub record IsDelivery (response : Option String) (now : ℕ) (e : OutboxEvent) (db : Db)
    (answer : Bool) (db' : Db) : Type 0 where
  pub row : OutboxEvent
  pub stored : find? (λ d. d.id == e.id) db'.events ≡ some row
  pub settled : IsSettled response now e answer row
  pub others :
      (k : Uuid)
      → (k ≡ e.id) ⊎ (find? (λ d. d.id == k) db'.events ≡ find? (λ d. d.id == k) db.events)
  pub rest : db' ≡ record db { events = db'.events }

unset : (o : Option ℕ) → elim o [ none ↦ true | some _ ↦ false ] ≡ true → o ≡ none
unset none h = refl
unset (some n) h = cc

still_unset : (o : Option ℕ) → o ≡ none → elim o [ none ↦ true | some _ ↦ false ] ≡ true
still_unset none h = refl
still_unset (some n) h = cc

asked :
    (event_id : Option Uuid) (e : OutboxEvent)
    → is_asked_for event_id e ≡ true
    → (event_id ≡ none) ⊎ (event_id ≡ some e.id)
asked none e h = inl refl
asked (some k) e h = inr (ap some (sym ((==_iff e.id k).0 h)))

was_asked :
    (event_id : Option Uuid) (e : OutboxEvent)
    → (event_id ≡ none) ⊎ (event_id ≡ some e.id)
    → is_asked_for event_id e ≡ true
was_asked event_id e (inl any) = ap (λ o. is_asked_for o e) any
was_asked event_id e (inr this) = ap (λ o. is_asked_for o e) this ∙ ==_refl e.id

tested :
    (p q l : Bool)
    → (p && (q && (if l then false else true))) ≡ true
    → (p ≡ true) × (l ≡ false) × (q ≡ true)
tested p q l h = (ground arith, ground arith, ground arith)

passed :
    (p q l : Bool)
    → p ≡ true
    → q ≡ true
    → l ≡ false
    → (p && (q && (if l then false else true))) ≡ true
passed p q l h k m = ground arith

module _ (locked : OutboxEvent → Bool) (event_id : Option Uuid) (events : List OutboxEvent) where
  available_waits :
      (d : OutboxEvent) → IsAvailable locked event_id events d → is_waiting locked event_id d ≡ true
  available_waits d a =
      passed _ _ _ (still_unset d.published_at a.unpublished) (was_asked event_id d a.asked_for)
        a.unlocked

  none_to_take :
      any? (is_waiting locked event_id) events ≡ false
      → (d : OutboxEvent) → ¬ IsAvailable locked event_id events d
  none_to_take nothing d a =
      let waits = available_waits d a in
      let no_wait =
        find?-any (λ c. c.id == d.id) (is_waiting locked event_id) events a.stored nothing in
      absurd (ground arith)

  not_preceded : (d e : OutboxEvent) → precedes d e ≡ false → IsNoLater e d
  not_preceded d e h = elim (Bool-cases (ltb e.created_at d.created_at)) [
    | inl earlier ↦ inl earlier
    | inr later ↦ inr (ground arith, ground arith)
  ]

  IsNext-first :
      (e : OutboxEvent)
      → IsNext locked event_id events e
      → (d : OutboxEvent) → (¬ IsAvailable locked event_id events d) ⊎ IsNoLater e d
  IsNext-first e next d = elim (Bool-cases (precedes d e)) [
    | inr not_before ↦ inr (not_preceded d e not_before)
    | inl sooner ↦ inl (λ a.
        let waits = available_waits d a in
        let none_first =
          find?-any (λ c. c.id == d.id) (λ c. is_waiting locked event_id c && precedes c e) events
            a.stored next.first in
        absurd (ground arith))
  ]

  IsNext-IsAvailable :
      (e : OutboxEvent) → IsNext locked event_id events e → IsAvailable locked event_id events e
  IsNext-IsAvailable e next =
      let (pending, unlocked, asked_for) =
        tested (is_pending e) (is_asked_for event_id e) (locked e) next.waiting in
      record {
        stored = next.stored;
        unpublished = unset e.published_at pending;
        unlocked = unlocked;
        asked_for = asked event_id e asked_for;
      }

module _ (now : ℕ) (e : OutboxEvent) (db : Db)
    (stored : find? (λ (d : OutboxEvent). d.id == e.id) db.events ≡ some e) where
  updated_row :
      (f : OutboxEvent → OutboxEvent)
      → ((d : OutboxEvent) → (f d).id ≡ d.id)
      → find? (λ d. d.id == e.id) (update (λ d. d.id) e.id f db.events) ≡ some (f e)
  updated_row f keeps =
      find?-update_key (λ d. d.id) e.id e.id f db.events {x = e} keeps stored
      ∙ rw (==_refl e.id) refl

  other_rows :
      (f : OutboxEvent → OutboxEvent)
      → ((d : OutboxEvent) → (f d).id ≡ d.id)
      → (k : Uuid)
      → (k ≡ e.id)
        ⊎ (find? (λ d. d.id == k) (update (λ d. d.id) e.id f db.events)
            ≡ find? (λ d. d.id == k) db.events)
  other_rows f keeps k = elim (Bool-cases (k == e.id)) [
    | inl same ↦ inl ((==_iff k e.id).0 same)
    | inr other ↦
        inr (find?-update_key (λ d. d.id) e.id k f db.events {x = e} keeps stored ∙ rw other refl)
  ]

  settle-IsDelivery :
      (response : Option String)
      → IsDelivery response now e db (settle response now e db).0 (settle response now e db).1
  unfolding settle
  settle-IsDelivery none = record {
    row = mark_published now e;
    stored = updated_row (mark_published now) (λ d. refl);
    settled = inl (refl, refl, refl);
    others = other_rows (mark_published now) (λ d. refl);
    rest = refl;
  }
  settle-IsDelivery (some message) = record {
    row = mark_failed (truncate 2000 message) e;
    stored = updated_row (mark_failed (truncate 2000 message)) (λ d. refl);
    settled = inr (message, refl, refl, refl);
    others = other_rows (mark_failed (truncate 2000 message)) (λ d. refl);
    rest = refl;
  }

-- If the events' identifiers are unique, either no event of the table is unpublished, unlocked
-- and, if one is asked for, that one, and the call answers false and changes nothing, or it
-- takes such an event, no such event has an earlier creation time, or the same and a smaller
-- identifier, its row counts one attempt more, and if the publisher answers nothing the call
-- answers true and the row is marked as published now, without an error, and otherwise the call
-- answers false and the row has the first 2000 characters of the error; no other row and no
-- other table changes.
pub publish_next_outbox_event-takes :
    (publisher : Publisher) (now : ℕ) (locked : OutboxEvent → Bool) (event_id : Option Uuid)
    (db : Db)
    → Unique (λ e. e.id) db.events
    → (((d : OutboxEvent) → ¬ IsAvailable locked event_id db.events d)
        × (publish_next_outbox_event publisher now locked event_id db ≡ (false, db)))
      ⊎ ((e : OutboxEvent) × IsAvailable locked event_id db.events e
          × ((d : OutboxEvent) → (¬ IsAvailable locked event_id db.events d) ⊎ IsNoLater e d)
          × IsDelivery
              (publisher e)
              now
              e
              db
              (publish_next_outbox_event publisher now locked event_id db).0
              (publish_next_outbox_event publisher now locked event_id db).1)
publish_next_outbox_event-takes publisher now locked event_id db ids =
    elim (publish_next_outbox_event-outcome publisher now locked event_id db ids) [
      | inl (nothing, same) ↦ inl (none_to_take locked event_id db.events nothing, same)
      | inr (e, next, same) ↦ inr (
        e,
        IsNext-IsAvailable locked event_id db.events e next,
        IsNext-first locked event_id db.events e next,
        rw same (settle-IsDelivery now e db next.stored (publisher e)),
      )
    ]

-- ===== src/Outbox/Delivery.antt =====
-- Which event `publish_next_outbox_event` takes, and what it leaves pending.
use crypto_ledger_sandbox.Prelude.{
  ℕ, Bool, Bool-cases, true, false, ◌&&◌, String, Option, Option-cases, none, some, List, [], ◌∷◌,
  ◌==◌, ◌≡◌, refl, subst, inl, inr, ◌⊎◌, ==_refl, if◌then◌else◌, any?, find?, find?-any, total,
  total-update, Unique, pos, ◌+ℤ◌, ℤ, int_laws, arith,
}
use crypto_ledger_sandbox.Models.{Uuid, OutboxEvent}
use crypto_ledger_sandbox.Db.{Db}
use crypto_ledger_sandbox.Outbox.{
  Publisher, is_pending, is_waiting, precedes, earlier, first_pending, mark_failed, mark_published,
  settle, claim, truncate, publish_next_outbox_event,
}

-- The event that is taken: it waits, it is in the table, and no other that waits precedes it.
pub record IsNext (locked : OutboxEvent → Bool) (event_id : Option Uuid) (events : List OutboxEvent)
    (e : OutboxEvent) : Type 0 where
  pub waiting : is_waiting locked event_id e ≡ true
  pub stored : find? (λ d. d.id == e.id) events ≡ some e
  pub first : any? (λ d. is_waiting locked event_id d && precedes d e) events ≡ false

precedes_irrefl : (e : OutboxEvent) → precedes e e ≡ false
precedes_irrefl e = ground arith

precedes_through :
    (c d e : OutboxEvent) → precedes c e ≡ true → precedes d e ≡ false → precedes c d ≡ true
precedes_through c d e h k = ground arith

precedes_asym : (c d : OutboxEvent) → precedes c d ≡ true → precedes d c ≡ false
precedes_asym c d h = ground arith

any?-weaken :
    {A : Type 0} (p q : A → Bool) (xs : List A)
    → ((x : A) → p x ≡ true → q x ≡ true)
    → any? q xs ≡ false
    → any? p xs ≡ false
unfolding any?
any?-weaken p q [] f h = refl
any?-weaken p q (x ∷ xs) f h = ground (arith, f x, any?-weaken p q xs f)

module _ (locked : OutboxEvent → Bool) (event_id : Option Uuid) where
  -- If nothing waits, nothing is found.
  first_pending-none :
      (events : List OutboxEvent)
      → first_pending locked event_id events ≡ none
      → any? (is_waiting locked event_id) events ≡ false
  unfolding first_pending any?
  first_pending-none [] h = refl
  first_pending-none (e ∷ events) h = ground (arith, first_pending-none events)

  alone :
      (e : OutboxEvent) (events : List OutboxEvent)
      → is_waiting locked event_id e ≡ true
      → any? (is_waiting locked event_id) events ≡ false
      → IsNext locked event_id (e ∷ events) e
  unfolding find? any?
  alone e events waits others = record {
    waiting = waits;
    stored = rw (==_refl e.id) refl;
    first = ground (
      arith,
      precedes_irrefl e,
      any?-weaken (λ d. is_waiting locked event_id d && precedes d e) (is_waiting locked event_id)
          events (λ d h. ground arith) others,
    );
  }

  before_rest :
      (e d : OutboxEvent) (events : List OutboxEvent)
      → is_waiting locked event_id e ≡ true
      → precedes d e ≡ false
      → IsNext locked event_id events d
      → IsNext locked event_id (e ∷ events) e
  unfolding find? any?
  before_rest e d events waits order next = record {
    waiting = waits;
    stored = rw (==_refl e.id) refl;
    first = ground (
      arith,
      precedes_irrefl e,
      any?-weaken (λ c. is_waiting locked event_id c && precedes c e)
          (λ c. is_waiting locked event_id c && precedes c d) events
          (λ c h. ground (arith, precedes_through c d e)) next.first,
    );
  }

  from_rest :
      (e d : OutboxEvent) (events : List OutboxEvent)
      → any? (λ c. c.id == e.id) events ≡ false
      → (is_waiting locked event_id e && precedes e d) ≡ false
      → IsNext locked event_id events d
      → IsNext locked event_id (e ∷ events) d
  unfolding find? any?
  from_rest e d events fresh order next = record {
    waiting = next.waiting;
    stored = ground (
      arith,
      next.stored,
      find?-any (λ c. c.id == d.id) (λ c. c.id == e.id) events {x = d} next.stored fresh,
    );
    first = ground (arith, next.first);
  }

  combined :
      (e : OutboxEvent) (rest : Option OutboxEvent) (events : List OutboxEvent)
      → Unique (λ d. d.id) (e ∷ events)
      → is_waiting locked event_id e ≡ true
      → first_pending locked event_id events ≡ rest
      → ((d : OutboxEvent) → rest ≡ some d → IsNext locked event_id events d)
      → IsNext locked event_id (e ∷ events) (earlier e rest)
  combined e none events u waits h ih = alone e events waits (first_pending-none events h)
  combined e (some d) events u waits h ih = elim (Bool-cases (precedes d e)) [
    | inl sooner ↦
        rw sooner (from_rest e d events u.0 (rw (waits, precedes_asym d e sooner) refl) (ih d refl))
    | inr later ↦ rw later (before_rest e d events waits later (ih d refl))
  ]

  first_pending-IsNext :
      (events : List OutboxEvent) (e : OutboxEvent)
      → Unique (λ d. d.id) events
      → first_pending locked event_id events ≡ some e
      → IsNext locked event_id events e
  unfolding first_pending
  first_pending-IsNext [] e u h = cc
  first_pending-IsNext (d ∷ events) e u h = elim (Bool-cases (is_waiting locked event_id d)) [
    | inl waits ↦ subst (IsNext locked event_id (d ∷ events)) (ground arith) (
        combined d (first_pending locked event_id events) events u waits refl
          (λ c k. first_pending-IsNext events c u.1 k))
    | inr not_waiting ↦
        from_rest d e events u.0 (rw not_waiting refl)
          (first_pending-IsNext events e u.1 (rw not_waiting at h))
  ]

-- If the events' identifiers are unique, either no event waits that the call may take, and it
-- answers false and changes nothing, or it settles, with the publisher's answer, an event that
-- waits, is stored and is preceded by no other that waits, in the order of creation time and
-- identifier.
pub publish_next_outbox_event-outcome :
    (publisher : Publisher) (now : ℕ) (locked : OutboxEvent → Bool) (event_id : Option Uuid)
    (db : Db)
    → Unique (λ e. e.id) db.events
    → ((any? (is_waiting locked event_id) db.events ≡ false)
        × (publish_next_outbox_event publisher now locked event_id db ≡ (false, db)))
      ⊎ ((e : OutboxEvent) × IsNext locked event_id db.events e
          × (publish_next_outbox_event publisher now locked event_id db
              ≡ settle (publisher e) now e db))
unfolding publish_next_outbox_event claim
publish_next_outbox_event-outcome publisher now locked event_id db u =
    elim (Option-cases (first_pending locked event_id db.events)) [
      | inl nothing ↦ inl (first_pending-none locked event_id db.events nothing, rw nothing refl)
      | inr (e, found) ↦
          inr (e, first_pending-IsNext locked event_id db.events e u found, rw found refl)
    ]

-- How many events are to be published.
abbrev pub pending_weight : OutboxEvent → ℤ
pending_weight e = if is_pending e then pos 1 else pos 0

unfoldable pub pending_count : List OutboxEvent → ℤ
pending_count events = total pending_weight events

settled_weight : (e : OutboxEvent) → is_pending e ≡ true → pending_weight e ≡ pos 1
settled_weight e h = rw h refl

one_less : (t t' w v a : ℤ) → t' +ℤ w ≡ t +ℤ v → w ≡ pos 1 → v +ℤ a ≡ pos 1 → t ≡ t' +ℤ a
one_less t t' w v a e h k = grind (int_laws, e, h, k)

module _ (publisher : Publisher) (now : ℕ) (locked : OutboxEvent → Bool) (event_id : Option Uuid)
    (db : Db) (unique_ids : Unique (λ e. e.id) db.events) where
  settle-pending_count :
      (e : OutboxEvent) (answer : Option String)
      → IsNext locked event_id db.events e
      → pending_count db.events
        ≡ pending_count (settle answer now e db).1.events
          +ℤ (if (settle answer now e db).0 then pos 1 else pos 0)
  unfolding settle pending_count
  settle-pending_count e none next =
      one_less _ _ (pending_weight e) (pos 0) _
        (total-update (λ d. d.id == e.id) (λ d. d.id) pending_weight (mark_published now) db.events
          unique_ids next.stored)
        (settled_weight e (ground (arith, next.waiting))) (omega int_laws)
  settle-pending_count e (some message) next =
      one_less _ _ (pending_weight e) (pending_weight e) _
        (total-update (λ d. d.id == e.id) (λ d. d.id) pending_weight
          (mark_failed (truncate 2000 message)) db.events unique_ids next.stored)
        (settled_weight e (ground (arith, next.waiting)))
        (rw (settled_weight e (ground (arith, next.waiting))) (omega int_laws))

  -- If the events' identifiers are unique, a `publish_next_outbox_event` that answers true
  -- leaves exactly one event less to be published, and one that answers false leaves as many as
  -- before.
  pub publish_next_outbox_event-pending_count :
      pending_count db.events
      ≡ pending_count (publish_next_outbox_event publisher now locked event_id db).1.events
        +ℤ (if (publish_next_outbox_event publisher now locked event_id db).0 then pos 1 else pos 0)
  publish_next_outbox_event-pending_count =
      elim (publish_next_outbox_event-outcome publisher now locked event_id db unique_ids) [
        | inl (_, same) ↦ rw same (omega int_laws)
        | inr (e, next, same) ↦ rw same (settle-pending_count e (publisher e) next)
      ]

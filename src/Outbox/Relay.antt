-- ===== src/Outbox/Relay.antt =====
-- app/workers/outbox_relay.py: the relay, which publishes one event after the other.
use crypto_ledger_sandbox.Prelude.{
  ℕ, zero, suc, ◌⊎◌, ◌+◌, Bool, Bool-cases, true, false, ◌||◌, String, Option, none, some, List, [],
  ◌∷◌, ◌≡◌, refl, ap, subst, ◌∙◌, inl, inr, if◌then◌else◌, any?, update-Unique, total, Unique, pos,
  ◌+ℤ◌, ◌≤ℤ◌, ℤ, int_laws, arith,
}
use crypto_ledger_sandbox.Models.{OutboxEvent}
use crypto_ledger_sandbox.Db.{Db}
use crypto_ledger_sandbox.Outbox.{
  Publisher, is_pending, is_waiting, settle, mark_published, mark_failed, truncate,
  publish_next_outbox_event,
}
use crypto_ledger_sandbox.Outbox.Delivery.{
  pending_weight, pending_count, publish_next_outbox_event-outcome,
  publish_next_outbox_event-pending_count,
}

-- A round of the relay for each time: no other worker holds a row. What the publisher answers may
-- depend on the time. The loop of the program has no end, and sleeps after a round that delivers
-- nothing.
unfoldable pub run_outbox_relay : (ℕ → Publisher) → List ℕ → Db → Db
run_outbox_relay publisher [] db = db
run_outbox_relay publisher (now ∷ times) db =
    run_outbox_relay publisher times
      (publish_next_outbox_event (publisher now) now (λ _. false) none db).1

abbrev pub rounds : List ℕ → ℕ
rounds [] = 0
rounds (_ ∷ times) = 1 + rounds times

weight_nonneg : (e : OutboxEvent) → pos 0 ≤ℤ pending_weight e
weight_nonneg e = elim (Bool-cases (is_pending e)) [
  | inl h ↦ rw h (omega arith)
  | inr h ↦ rw h (omega arith)
]

none_more : (w t : ℤ) → pos 0 ≤ℤ w → pos 0 ≤ℤ t → w +ℤ t ≤ℤ pos 0 → (w ≤ℤ pos 0) × (t ≤ℤ pos 0)
none_more w t h k l = (omega (int_laws, h, k, l), omega (int_laws, h, k, l))

count_nonneg : (events : List OutboxEvent) → pos 0 ≤ℤ pending_count events
unfolding pending_count total
count_nonneg [] = omega arith
count_nonneg (e ∷ events) = omega (int_laws, weight_nonneg e, count_nonneg events)

not_pending : (e : OutboxEvent) → pending_weight e ≤ℤ pos 0 → is_pending e ≡ false
not_pending e h = elim (Bool-cases (is_pending e)) [
  | inl k ↦ absurd (omega (arith, rw k at h))
  | inr k ↦ k
]

nothing_pending :
    (events : List OutboxEvent) → pending_count events ≤ℤ pos 0 → any? is_pending events ≡ false
unfolding any? pending_count total
nothing_pending [] h = refl
nothing_pending (e ∷ events) h =
    let (w, t) =
      none_more (pending_weight e) (pending_count events) (weight_nonneg e) (count_nonneg events)
        h in
    rw (not_pending e w) (nothing_pending events t)

weight_idle : (e : OutboxEvent) → is_waiting (λ _. false) none e ≡ false → pending_weight e ≡ pos 0
weight_idle e h = elim (Bool-cases (is_pending e)) [
  | inl k ↦ absurd (ground arith)
  | inr k ↦ rw k refl
]

idle_parts : (p q : Bool) → (p || q) ≡ false → (p ≡ false) × (q ≡ false)
idle_parts p q h = (ground arith, ground arith)

count_idle :
    (events : List OutboxEvent)
    → any? (is_waiting (λ _. false) none) events ≡ false
    → pending_count events ≡ pos 0
unfolding any? pending_count total
count_idle [] h = refl
count_idle (e ∷ events) h =
    let (here, later) =
      idle_parts (is_waiting (λ _. false) none e) (any? (is_waiting (λ _. false) none) events) h in
    grind (int_laws, weight_idle e here, count_idle events later)

settle-Unique :
    (answer : Option String) (now : ℕ) (e : OutboxEvent) (db : Db)
    → Unique (λ d. d.id) db.events
    → Unique (λ d. d.id) (settle answer now e db).1.events
unfolding settle
settle-Unique none now e db u =
    update-Unique (λ d. d.id) e.id (mark_published now) db.events (λ d. refl) u
settle-Unique (some message) now e db u =
    update-Unique (λ d. d.id) e.id (mark_failed (truncate 2000 message)) db.events (λ d. refl) u

fewer : (t t' a : ℤ) (n : ℕ) → t ≡ t' +ℤ a → a ≡ pos 1 → t ≤ℤ pos (suc n) → t' ≤ℤ pos n
fewer t t' a n e k h =
    let e' : t ≡ t' +ℤ pos 1 = grind (int_laws, e, k) in
    let h' : t' +ℤ pos 1 ≤ℤ pos (suc n) = subst (λ s. s ≤ℤ pos (suc n)) e' h in omega (int_laws, h')

no_more : (t t' : ℤ) (b : Bool) (n : ℤ) → t ≡ t' +ℤ (if b then pos 1 else pos 0) → t ≤ℤ n → t' ≤ℤ n
no_more t t' true n e h =
    let h' : t' +ℤ pos 1 ≤ℤ n = subst (λ s. s ≤ℤ n) e h in omega (int_laws, h')
no_more t t' false n e h =
    let h' : t' +ℤ pos 0 ≤ℤ n = subst (λ s. s ≤ℤ n) e h in omega (int_laws, h')

settle_confirmed : (now : ℕ) (e : OutboxEvent) (db : Db) → (settle none now e db).0 ≡ true
unfolding settle
settle_confirmed now e db = refl

module _ (publisher : ℕ → Publisher) where
  -- There are as many rounds in which the publisher confirms every event.
  abbrev pub IsUpFor : ℕ → List ℕ → Type 0
  IsUpFor zero times = Unit
  IsUpFor (suc n) [] = ⊥
  IsUpFor (suc n) (now ∷ times) =
      (((e : OutboxEvent) → publisher now e ≡ none) × IsUpFor n times) ⊎ IsUpFor (suc n) times

  round-Unique :
      (now : ℕ) (db : Db)
      → Unique (λ e. e.id) db.events
      → Unique
          (λ e. e.id)
          (publish_next_outbox_event (publisher now) now (λ _. false) none db).1.events
  round-Unique now db u =
      elim (publish_next_outbox_event-outcome (publisher now) now (λ _. false) none db u) [
        | inl (idle, same) ↦ rw same u
        | inr (e, next, same) ↦ rw same (settle-Unique (publisher now e) now e db u)
      ]

  up_round :
      (now n : ℕ) (db : Db)
      → ((e : OutboxEvent) → publisher now e ≡ none)
      → Unique (λ e. e.id) db.events
      → pending_count db.events ≤ℤ pos (suc n)
      → pending_count (publish_next_outbox_event (publisher now) now (λ _. false) none db).1.events
        ≤ℤ pos n
  up_round now n db confirms u h =
      elim (publish_next_outbox_event-outcome (publisher now) now (λ _. false) none db u) [
        | inl (idle, same) ↦ rw same (rw (count_idle db.events idle) (omega arith))
        | inr (e, next, same) ↦
            let done = same ∙ ap (λ answer. settle answer now e db) (confirms e) in
            let left =
              publish_next_outbox_event-pending_count (publisher now) now (λ _. false) none db u in
            fewer _ _ _ n left
              (ap (λ p. if p.0 then pos 1 else pos 0) done
                ∙ ap (λ b. if b then pos 1 else pos 0) (settle_confirmed now e db))
              h
      ]

  any_round :
      (now n : ℕ) (db : Db)
      → Unique (λ e. e.id) db.events
      → pending_count db.events ≤ℤ pos n
      → pending_count (publish_next_outbox_event (publisher now) now (λ _. false) none db).1.events
        ≤ℤ pos n
  any_round now n db u h =
      no_more _ _ (publish_next_outbox_event (publisher now) now (λ _. false) none db).0 (pos n)
        (publish_next_outbox_event-pending_count (publisher now) now (λ _. false) none db u) h

  -- With a publisher that delivers in enough rounds, the relay leaves nothing to be published.
  pub run_outbox_relay-drains :
      (n : ℕ) (times : List ℕ) (db : Db)
      → Unique (λ e. e.id) db.events
      → pending_count db.events ≤ℤ pos n
      → IsUpFor n times
      → any? is_pending (run_outbox_relay publisher times db).events ≡ false
  unfolding run_outbox_relay
  run_outbox_relay-drains zero [] db u h up = nothing_pending db.events h
  run_outbox_relay-drains (suc n) [] db u h up = absurd up
  run_outbox_relay-drains zero (now ∷ times) db u h up =
      run_outbox_relay-drains zero times
        (publish_next_outbox_event (publisher now) now (λ _. false) none db).1
        (round-Unique now db u) (any_round now zero db u h) up
  run_outbox_relay-drains (suc n) (now ∷ times) db u h (inl (confirms, up)) =
      run_outbox_relay-drains n times
        (publish_next_outbox_event (publisher now) now (λ _. false) none db).1
        (round-Unique now db u) (up_round now n db confirms u h) up
  run_outbox_relay-drains (suc n) (now ∷ times) db u h (inr up) =
      run_outbox_relay-drains (suc n) times
        (publish_next_outbox_event (publisher now) now (λ _. false) none db).1
        (round-Unique now db u) (any_round now (suc n) db u h) up

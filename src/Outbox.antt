-- ===== src/Outbox.antt =====
-- app/services/outbox.py: the transactional outbox and its delivery.
pub mod Blocked
pub mod Confirmed
pub mod Delivery
pub mod Taken
pub mod Relay
use crypto_ledger_sandbox.Prelude.{
  ℕ, zero, suc, ◌+◌, Bool, true, false, ◌&&◌, Option, none, some, List, [], ◌∷◌, String, ◌++◌, ◌==◌,
  ltb, if◌then◌else◌, update, ◌⊎◌, inl, inr,
}
use crypto_ledger_sandbox.Models.{Uuid, OutboxEvent, Payload}
use crypto_ledger_sandbox.Db.{
  Db, Platform, Session, Result, ok, err, pure, select, ◌>>=◌, ◌>>◌, insert_event,
}

abbrev pub event_key : Platform → String → Uuid → String
event_key platform event_type aggregate_id = event_type ++ (":" ++ platform.uuid_str aggregate_id)

-- The keyword arguments of `enqueue_outbox_event`.
pub record EventCall : Type 0 where
  pub event_type : String
  pub aggregate_type : String
  pub aggregate_id : Uuid
  pub payload : Payload

-- What the row is given by default: its identifier and the time of the transaction.
pub record EventDraws : Type 0 where
  pub event_id : Uuid
  pub now : ℕ

abbrev pub new_event : Platform → EventDraws → EventCall → OutboxEvent
new_event platform draws call = record {
  id = draws.event_id;
  event_type = call.event_type;
  event_key = event_key platform call.event_type call.aggregate_id;
  aggregate_type = call.aggregate_type;
  aggregate_id = call.aggregate_id;
  payload = call.payload;
  created_at = draws.now;
  published_at = none;
  publish_attempts = 0;
  last_error = none;
}

unfoldable pub enqueue_outbox_event : Platform → EventDraws → EventCall → Session OutboxEvent
enqueue_outbox_event platform draws call = do
  insert_event (new_event platform draws call)
  pure (new_event platform draws call)

-- WHERE published_at IS NULL, and `OutboxEvent.id == event_id` if one is asked for.
abbrev pub is_pending : OutboxEvent → Bool
is_pending e = elim e.published_at [ none ↦ true | some _ ↦ false ]

abbrev pub is_asked_for : Option Uuid → OutboxEvent → Bool
is_asked_for none e = true
is_asked_for (some event_id) e = e.id == event_id

-- ORDER BY created_at, id
abbrev pub precedes : OutboxEvent → OutboxEvent → Bool
precedes d e =
    if ltb d.created_at e.created_at then true else d.created_at == e.created_at && ltb d.id e.id

abbrev pub earlier : OutboxEvent → Option OutboxEvent → OutboxEvent
earlier e none = e
earlier e (some d) = if precedes d e then d else e

-- The rows in `locked` are held by other workers, and SKIP LOCKED passes them over.
abbrev pub is_waiting : (OutboxEvent → Bool) → Option Uuid → OutboxEvent → Bool
is_waiting locked event_id e =
    is_pending e && (is_asked_for event_id e && (if locked e then false else true))

-- LIMIT 1
unfoldable pub first_pending :
    (OutboxEvent → Bool) → Option Uuid → List OutboxEvent → Option OutboxEvent
first_pending locked event_id [] = none
first_pending locked event_id (e ∷ events) =
    let rest = first_pending locked event_id events in
    if is_waiting locked event_id e then some (earlier e rest) else rest

-- The publisher answers nothing, or raises with a text.
abbrev pub Publisher : Type 0
Publisher = OutboxEvent → Option String

abbrev pub mark_failed : String → OutboxEvent → OutboxEvent
mark_failed message e = record e {
  publish_attempts = e.publish_attempts + 1;
  last_error = some message;
}

abbrev pub mark_published : ℕ → OutboxEvent → OutboxEvent
mark_published now e = record e {
  publish_attempts = e.publish_attempts + 1;
  published_at = some now;
  last_error = none;
}

-- `text[:n]`
unfoldable pub truncate : ℕ → String → String
truncate zero s = ""
truncate (suc n) String.[] = ""
truncate (suc n) (String.◌∷◌ c s) = String.◌∷◌ c (truncate n s)

-- The UPDATE of the claimed row, and the answer.
unfoldable pub settle : Option String → ℕ → OutboxEvent → Db → Bool × Db
unfolding truncate
settle (some message) now e db = (
  false,
  record db { events = update (λ d. d.id) e.id (mark_failed (truncate 2000 message)) db.events },
)
settle none now e db =
    (true, record db { events = update (λ d. d.id) e.id (mark_published now) db.events })

unfoldable pub claim : Publisher → ℕ → Option OutboxEvent → Db → Bool × Db
unfolding settle
claim publisher now none db = (false, db)
claim publisher now (some e) db = settle (publisher e) now e db

unfoldable pub publish_next_outbox_event :
    Publisher → ℕ → (OutboxEvent → Bool) → Option Uuid → Db → Bool × Db
unfolding first_pending claim
publish_next_outbox_event publisher now locked event_id db =
    claim publisher now (first_pending locked event_id db.events) db

-- ===== src/Events/Confirming.antt =====
-- The relay, between the start and the end of its publisher.
use crypto_ledger_sandbox.Prelude.{
  ℕ, zero, suc, true, false, String, Option, none, some, List, [], ◌∷◌, ◌≡◌, ◌≢◌, refl, ap, ◌⊎◌,
  inl, inr, any?, Unique, pos, ◌≤ℤ◌,
}
use crypto_ledger_sandbox.Models.{Uuid, OutboxEvent}
use crypto_ledger_sandbox.Db.{Db, Platform}
use crypto_ledger_sandbox.Config.{Settings, rabbitmq_url}
use crypto_ledger_sandbox.Outbox.{is_pending}
use crypto_ledger_sandbox.Outbox.Relay.{IsUpFor, run_outbox_relay-drains}
use crypto_ledger_sandbox.Outbox.Delivery.{pending_count}
use crypto_ledger_sandbox.Outbox.Confirmed.{is_pending_as, run_outbox_relay-unconfirmed}
use crypto_ledger_sandbox.Events.{
  Broker, Message, RabbitmqOutboxPublisher, init, aenter, message_of, publish_to, publish, deliver,
  relay,
}

module _ (broker : Broker) (platform : Platform) where
  module _ (k : Uuid)
      (refuses : (now : ℕ) (x : broker.Exchange) (m : Message) (routing_key : String)
        → m.message_id ≡ platform.uuid_str k
        → broker.publish now x m routing_key ≢ none) where
    publish-refuses :
        (exchange : Option broker.Exchange) (now : ℕ) (e : OutboxEvent)
        → e.id ≡ k
        → publish_to broker platform exchange now e ≢ none
    publish-refuses none now e same = λ h. cc
    publish-refuses (some x) now e same = refuses now x _ e.event_type (ap platform.uuid_str same)

    deliver-unconfirmed :
        (times : List ℕ) (started : Option String × RabbitmqOutboxPublisher broker) (db : Db)
        → any? (is_pending_as k) (deliver broker platform times started db).1.events
          ≡ any? (is_pending_as k) db.events
    unfolding publish
    deliver-unconfirmed times (some message, p) db = refl
    deliver-unconfirmed times (none, p) db =
        run_outbox_relay-unconfirmed (publish broker platform p) k
          (λ now e same. publish-refuses p.exchange now e same) times db

    -- If the broker confirms at no time a message with the identifier's text as its
    -- `message_id`, then the relay, whether its publisher starts or not and whatever its rounds,
    -- leaves an event with that identifier to be published exactly if there was one before: it
    -- marks no event with that identifier as published.
    pub relay-unconfirmed :
        (settings : Settings) (times : List ℕ) (db : Db)
        → any? (is_pending_as k) (relay broker platform settings times db).1.events
          ≡ any? (is_pending_as k) db.events
    unfolding relay
    relay-unconfirmed settings times db =
        deliver-unconfirmed times (aenter broker (init broker settings)) db

  -- The broker takes the relay's connection, channel and exchange.
  pub record IsServing (settings : Settings) : Type 0 where
    pub connection : broker.Connection
    pub channel : broker.Channel
    pub exchange : broker.Exchange
    pub connects : broker.connect_robust (rabbitmq_url settings) ≡ inr connection
    pub opens : broker.channel connection true ≡ inr channel
    pub declares :
        broker.declare_exchange channel settings.rabbitmq_events_exchange "topic" true
        ≡ inr exchange

  abbrev started : (settings : Settings) → IsServing settings → RabbitmqOutboxPublisher broker
  started settings s = record {
    settings = settings;
    connection = some s.connection;
    channel = some s.channel;
    exchange = some s.exchange;
  }

  aenter-serving :
      (settings : Settings) (s : IsServing settings)
      → aenter broker (init broker settings) ≡ (none, started settings s)
  unfolding aenter
  aenter-serving settings s = rw (s.connects, s.opens, s.declares) refl

  -- There are as many rounds in which the broker confirms every message.
  abbrev pub IsServingFor : broker.Exchange → ℕ → List ℕ → Type 0
  IsServingFor exchange zero times = Unit
  IsServingFor exchange (suc n) [] = ⊥
  IsServingFor exchange (suc n) (now ∷ times) =
      (((m : Message) (routing_key : String) → broker.publish now exchange m routing_key ≡ none)
        × IsServingFor exchange n times)
      ⊎ IsServingFor exchange (suc n) times

  serving-IsUpFor :
      (settings : Settings) (s : IsServing settings) (n : ℕ) (times : List ℕ)
      → IsServingFor s.exchange n times
      → IsUpFor (publish broker platform (started settings s)) n times
  unfolding publish
  serving-IsUpFor settings s zero times h = tt
  serving-IsUpFor settings s (suc n) [] h = h
  serving-IsUpFor settings s (suc n) (now ∷ times) (inl (confirms, h)) = inl (
    λ e. confirms (message_of broker platform e) e.event_type,
    serving-IsUpFor settings s n times h,
  )
  serving-IsUpFor settings s (suc n) (now ∷ times) (inr h) =
      inr (serving-IsUpFor settings s (suc n) times h)

  -- If the broker takes the relay's connection, channel and exchange, the events' identifiers
  -- are unique, and among the rounds are as many in which the broker confirms every message as
  -- there are events to be published, then the relay leaves no event to be published, whatever
  -- the broker answers in the other rounds.
  pub relay-drains :
      (settings : Settings) (n : ℕ) (times : List ℕ) (db : Db) (s : IsServing settings)
      → Unique (λ e. e.id) db.events
      → pending_count db.events ≤ℤ pos n
      → IsServingFor s.exchange n times
      → any? is_pending (relay broker platform settings times db).1.events ≡ false
  unfolding relay
  relay-drains settings n times db s u enough up = rw (aenter-serving settings s) (
      run_outbox_relay-drains (publish broker platform (started settings s)) n times db u enough
        (serving-IsUpFor settings s n times up))

-- ===== src/Events.antt =====
-- app/events/rabbitmq.py: the publisher of the outbox's events, and app/workers/outbox_relay.py's
-- use of it.
pub mod Confirming
use crypto_ledger_sandbox.Prelude.{
  ℕ, Bool, true, String, Option, none, some, List, [], ◌∷◌, ◌⊎◌, inl, inr,
}
use crypto_ledger_sandbox.Models.{OutboxEvent, Payload}
use crypto_ledger_sandbox.Db.{Db, Platform}
use crypto_ledger_sandbox.Outbox.{Publisher}
use crypto_ledger_sandbox.Outbox.Relay.{run_outbox_relay}
use crypto_ledger_sandbox.Config.{Settings, rabbitmq_url}

-- The dictionary that is sent.
pub record Body : Type 0 where
  pub event_id : String
  pub event_type : String
  pub event_key : String
  pub aggregate_type : String
  pub aggregate_id : String
  pub occurred_at : String
  pub payload : Payload

pub data DeliveryMode : Type 0 where
  not_persistent persistent : DeliveryMode

pub record Message : Type 0 where
  pub body : String
  pub content_type : String
  pub delivery_mode : DeliveryMode
  pub message_id : String
  pub type : String
  pub headers : List (String × String)

-- What the publisher calls and the repository does not hold: aio_pika, where a call that raises
-- answers the exception's text, and what the broker answers to a message may depend on the time; `json.dumps` with compact separators and sorted keys; and
-- `datetime.isoformat`.
pub record Broker : Type 1 where
  pub Connection : Type 0
  pub Channel : Type 0
  pub Exchange : Type 0
  pub connect_robust : String → String ⊎ Connection
  pub channel : Connection → Bool → String ⊎ Channel
  pub declare_exchange : Channel → String → String → Bool → String ⊎ Exchange
  pub close : Connection → Option String
  pub publish : ℕ → Exchange → Message → String → Option String
  pub dumps : Body → String
  pub isoformat : ℕ → String

module _ (broker : Broker) where
  pub record RabbitmqOutboxPublisher : Type 0 where
    pub settings : Settings
    pub connection : Option broker.Connection
    pub channel : Option broker.Channel
    pub exchange : Option broker.Exchange

  abbrev pub init : Settings → RabbitmqOutboxPublisher
  init settings = record { settings = settings; connection = none; channel = none; exchange = none }

  -- The steps of `__aenter__`: the exception's text if one raises, and the publisher as it is left.
  abbrev pub exchange_declared :
      RabbitmqOutboxPublisher → String ⊎ broker.Exchange → Option String × RabbitmqOutboxPublisher
  exchange_declared p (inl message) = (some message, p)
  exchange_declared p (inr exchange) = (none, record p { exchange = some exchange })

  abbrev pub channel_opened :
      RabbitmqOutboxPublisher → String ⊎ broker.Channel → Option String × RabbitmqOutboxPublisher
  channel_opened p (inl message) = (some message, p)
  channel_opened p (inr channel) =
      exchange_declared (record p { channel = some channel })
        (broker.declare_exchange channel p.settings.rabbitmq_events_exchange "topic" true)

  abbrev pub connected :
      RabbitmqOutboxPublisher → String ⊎ broker.Connection → Option String × RabbitmqOutboxPublisher
  connected p (inl message) = (some message, p)
  connected p (inr connection) =
      channel_opened (record p { connection = some connection }) (broker.channel connection true)

  unfoldable pub aenter : RabbitmqOutboxPublisher → Option String × RabbitmqOutboxPublisher
  aenter p = connected p (broker.connect_robust (rabbitmq_url p.settings))

  abbrev pub cleared : RabbitmqOutboxPublisher → RabbitmqOutboxPublisher
  cleared p = record p { connection = none; channel = none; exchange = none }

  abbrev pub closed :
      RabbitmqOutboxPublisher → Option String → Option String × RabbitmqOutboxPublisher
  closed p none = (none, cleared p)
  closed p (some message) = (some message, p)

  abbrev pub close_connection :
      RabbitmqOutboxPublisher → Option broker.Connection → Option String × RabbitmqOutboxPublisher
  close_connection p none = (none, cleared p)
  close_connection p (some connection) = closed p (broker.close connection)

  unfoldable pub aexit : RabbitmqOutboxPublisher → Option String × RabbitmqOutboxPublisher
  aexit p = close_connection p p.connection

module _ (broker : Broker) (platform : Platform) where
  abbrev pub body_of : OutboxEvent → Body
  body_of event = record {
    event_id = platform.uuid_str event.id;
    event_type = event.event_type;
    event_key = event.event_key;
    aggregate_type = event.aggregate_type;
    aggregate_id = platform.uuid_str event.aggregate_id;
    occurred_at = broker.isoformat event.created_at;
    payload = event.payload;
  }

  abbrev pub message_of : OutboxEvent → Message
  message_of event = record {
    body = broker.dumps (body_of event);
    content_type = "application/json";
    delivery_mode = persistent;
    message_id = platform.uuid_str event.id;
    type = event.event_type;
    headers = ("event_key", event.event_key) ∷ ("aggregate_type", event.aggregate_type) ∷ [];
  }

  abbrev pub publish_to : Option broker.Exchange → ℕ → Publisher
  publish_to none now event = some "RabbitMQ outbox publisher has not been started."
  publish_to (some exchange) now event =
      broker.publish now exchange (message_of event) event.event_type

  unfoldable pub publish : RabbitmqOutboxPublisher broker → ℕ → Publisher
  publish p now event = publish_to p.exchange now event

  abbrev pub deliver :
      List ℕ → Option String × RabbitmqOutboxPublisher broker → Db → Option String × Db
  deliver times (some message, p) db = (some message, db)
  deliver times (none, p) db = ((aexit broker p).0, run_outbox_relay (publish p) times db)

  -- `run_outbox_relay`: the rounds that the relay makes, at the times, until it is stopped, between
  -- the publisher's start and its end. What it raises, and the database that it leaves.
  unfoldable pub relay : Settings → List ℕ → Db → Option String × Db
  relay settings times db = deliver times (aenter broker (init broker settings)) db

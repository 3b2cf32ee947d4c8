-- ===== src/Tests/Brokers.antt =====
-- The relay with a broker that is away for a round, and with one that rejects an event.
use crypto_ledger_sandbox.Prelude.{
  ℕ, some, none, String, Option, [], ◌∷◌, ◌≡◌, ◌≢◌, refl, sym, subst, inl, inr, true, false, ltb,
  ◌==◌, str_eq, if◌then◌else◌, any?, update, total, Unique, pos, ◌≤ℤ◌, ◌+ℤ◌, arith, all_codes, not,
}
use crypto_ledger_sandbox.Models.{OutboxEvent}
use crypto_ledger_sandbox.Db.{Db}
use crypto_ledger_sandbox.Config.{Settings, rabbitmq_url}
use crypto_ledger_sandbox.Config.Quote.{quote}
use crypto_ledger_sandbox.Config.Urls.{user_info, rabbitmq_url-user_info}
use crypto_ledger_sandbox.Outbox.{is_pending, first_pending, truncate, Publisher}
use crypto_ledger_sandbox.Outbox.Relay.{run_outbox_relay}
use crypto_ledger_sandbox.Outbox.Delivery.{pending_count}
use crypto_ledger_sandbox.Outbox.Confirmed.{is_pending_as}
use crypto_ledger_sandbox.Outbox.Blocked.{refused, run_outbox_relay-blocked}
use crypto_ledger_sandbox.Events.{Broker, Message, relay}
use crypto_ledger_sandbox.Events.Confirming.{IsServing, relay-drains, relay-unconfirmed}
use crypto_ledger_sandbox.Tests.Sample.{sample_platform, seeded}

abbrev older : OutboxEvent
older = record {
  id = 3;
  event_type = "order.created";
  event_key = "order.created:3";
  aggregate_type = "order";
  aggregate_id = 5;
  payload = [];
  created_at = 100;
  published_at = none;
  publish_attempts = 0;
  last_error = none;
}

abbrev newer : OutboxEvent
newer = record older { id = 2; event_key = "order.canceled:3"; created_at = 200 }

abbrev waiting : Db
waiting = record seeded { events = newer ∷ older ∷ [] }

abbrev settings : Settings
settings = record {
  environment = "development";
  project_name = "Crypto Ledger Sandbox";
  postgres_db = "ledger";
  postgres_user = "ledger";
  postgres_password = "secret";
  postgres_host = "postgres";
  postgres_port = 5432;
  redis_host = "redis";
  redis_port = 6379;
  rabbitmq_default_user = "guest";
  rabbitmq_default_pass = "p@ss";
  rabbitmq_host = "rabbitmq";
  rabbitmq_port = 5672;
  rabbitmq_events_exchange = "crypto.ledger.events";
  jwt_secret_key = "secret";
  jwt_algorithm = "HS256";
  access_token_expire_minutes = 30;
}

abbrev broker_with : (ℕ → Message → Option String) → Broker
broker_with answer = record {
  Connection = Unit;
  Channel = Unit;
  Exchange = Unit;
  connect_robust = λ _. inr tt;
  channel = λ _ _. inr tt;
  declare_exchange = λ _ _ _ _. inr tt;
  close = λ _. none;
  publish = λ now _ m _. answer now m;
  dumps = λ _. "{}";
  isoformat = λ _. "2026-01-01";
}

-- Away until the time 501.
abbrev away : Broker
away = broker_with (λ now _. if ltb now 501 then some "The broker is away." else none)

abbrev verdict : String → Option String
verdict id = if str_eq id (sample_platform.uuid_str 3) then some "Rejected." else none

-- Rejects the message of the older event.
abbrev rejecting : Broker
rejecting = broker_with (λ _ m. verdict m.message_id)

waiting_ids : Unique (λ (e : OutboxEvent). e.id) waiting.events
unfolding any?
waiting_ids = (refl, (refl, tt))

waiting_count : pending_count waiting.events ≤ℤ pos 2
unfolding pending_count total ◌+ℤ◌
waiting_count = omega arith

serving : IsServing away sample_platform settings
serving = record {
  connection = tt;
  channel = tt;
  exchange = tt;
  connects = refl;
  opens = refl;
  declares = refl;
}

relay-drains_example :
    any? is_pending (relay away sample_platform settings (500 ∷ 501 ∷ 502 ∷ []) waiting).1.events
    ≡ false
relay-drains_example =
    relay-drains away sample_platform settings 2 (500 ∷ 501 ∷ 502 ∷ []) waiting serving waiting_ids
      waiting_count (inr (inl (λ _ _. refl, inl (λ _ _. refl, tt))))

rejected_text : ◌≢◌ {A = Option String} (some "Rejected.") none
rejected_text h = cc

rejects :
    (now : ℕ) (x : rejecting.Exchange) (m : Message) (routing_key : String)
    → m.message_id ≡ sample_platform.uuid_str 3
    → rejecting.publish now x m routing_key ≢ none
rejects now x m routing_key same = subst (λ i. verdict i ≢ none) (sym same) rejected_text

relay-unconfirmed_example :
    any?
      (is_pending_as 3)
      (relay rejecting sample_platform settings (500 ∷ 501 ∷ []) waiting).1.events
    ≡ any? (is_pending_as 3) waiting.events
relay-unconfirmed_example =
    relay-unconfirmed rejecting sample_platform 3 rejects settings (500 ∷ 501 ∷ []) waiting

abbrev refusing_older : ℕ → Publisher
refusing_older now e = if e.id == 3 then some "Rejected." else none

refuses_older : (now : ℕ) (e : OutboxEvent) → e.id ≡ 3 → refusing_older now e ≡ some "Rejected."
refuses_older now e same = rw same refl

older_first : first_pending (λ _. false) none waiting.events ≡ some older
unfolding first_pending
older_first = refl

run_outbox_relay-blocked_example :
    run_outbox_relay refusing_older (500 ∷ 501 ∷ []) waiting ≡ record waiting {
      events = update (λ d. d.id) 3 (refused 2 (truncate 2000 "Rejected.")) waiting.events;
    }
run_outbox_relay-blocked_example =
    run_outbox_relay-blocked refusing_older "Rejected." 500 (501 ∷ []) waiting older refuses_older
      older_first

host_free : all_codes (λ n. not (n == b'/')) settings.rabbitmq_host ≡ true
unfolding all_codes
host_free = refl

rabbitmq_url-user_info_example :
    user_info (rabbitmq_url settings) ≡ some (quote "guest", quote "p@ss")
rabbitmq_url-user_info_example = rabbitmq_url-user_info settings host_free

-- ===== src/Config.antt =====
-- app/core/config.py: the settings, and the URLs of the broker and of the database.
pub mod Quote
pub mod Quoted
pub mod Urls
use crypto_ledger_sandbox.Prelude.{
  ℕ, zero, suc, ◌/◌, ◌%◌, ◌≤◌, ◌<◌, ap, Bool, Bool-cases, true, false, String, ◌++◌, ltb, ◌≡◌, refl,
  inl, inr, arith,
}
use crypto_ledger_sandbox.Config.Quote.{quote, hex_digit, char_at}

-- The settings, but for OUTBOX_RELAY_POLL_SECONDS: the relay's rounds are given their times.
pub record Settings : Type 0 where
  pub environment : String
  pub project_name : String
  pub postgres_db : String
  pub postgres_user : String
  pub postgres_password : String
  pub postgres_host : String
  pub postgres_port : ℕ
  pub redis_host : String
  pub redis_port : ℕ
  pub rabbitmq_default_user : String
  pub rabbitmq_default_pass : String
  pub rabbitmq_host : String
  pub rabbitmq_port : ℕ
  pub rabbitmq_events_exchange : String
  pub jwt_secret_key : String
  pub jwt_algorithm : String
  pub access_token_expire_minutes : ℕ

-- The decimal digits of a number: `n + 1` steps are enough.
unfoldable pub digits_from : ℕ → ℕ → String
unfolding char_at
digits_from zero n = ""
digits_from (suc fuel) n = elim (ltb n 10) [
  | true ↦ hex_digit n
  | false ↦ digits_from fuel (n / 10) ++ hex_digit (n % 10)
]

unfoldable pub int_str : ℕ → String
unfolding digits_from
int_str n = digits_from (suc n) n

int_str_lem : int_str 5672 ≡ "5672"
unfolding int_str digits_from char_at
int_str_lem = refl

small : (n k : ℕ) → n ≤ k → k < 10 → ltb n 10 ≡ true
small n k h l = ground arith

smaller : (n k : ℕ) → ltb n 10 ≡ false → n ≤ suc k → n / 10 ≤ k
smaller n k h l = ground arith

-- More steps than the digits need change nothing.
digits_enough :
    (fuel more n : ℕ) → n ≤ fuel → n ≤ more → digits_from (suc fuel) n ≡ digits_from (suc more) n
unfolding digits_from
digits_enough zero more n h k = rw (digits_from, small n 0 h (omega arith)) refl
digits_enough (suc fuel) zero n h k = rw (digits_from, small n 0 k (omega arith)) refl
digits_enough (suc fuel) (suc more) n h k = elim (Bool-cases (ltb n 10)) [
  | inl few ↦ rw (digits_from, few) refl
  | inr many ↦
      rw (digits_from, many)
        (ap (λ s. s ++ hex_digit (n % 10))
          (digits_enough fuel more (n / 10) (smaller n fuel many h) (smaller n more many k)))
]

unfoldable pub rabbitmq_url : Settings → String
rabbitmq_url settings =
    let username = quote settings.rabbitmq_default_user in
    let password = quote settings.rabbitmq_default_pass in
    "amqp://"
    ++ (username
        ++ (":"
            ++ (password
                ++ ("@"
                    ++ (settings.rabbitmq_host
                        ++ (":" ++ (int_str settings.rabbitmq_port ++ "/")))))))

unfoldable pub database_url : Settings → String
database_url settings =
    "postgresql+asyncpg://"
    ++ (settings.postgres_user
        ++ (":"
            ++ (settings.postgres_password
                ++ ("@"
                    ++ (settings.postgres_host
                        ++ (":"
                            ++ (int_str settings.postgres_port
                                ++ ("/" ++ settings.postgres_db))))))))

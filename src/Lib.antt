-- ===== src/Lib.antt =====
-- Crypto ledger sandbox: the ledger, the orders and the transactional outbox.
--
-- The program is a FastAPI service over PostgreSQL. Its core are three services in app/services,
-- which read and write the tables of app/models in one database transaction per call. The routes of
-- app/api call them for the user of a token, and turn what they return or raise into an answer:
--
--   Decimal   Python's `Decimal` and the NUMERIC(38, 18) columns: whole numbers of units of 10^-36,
--             with the default context's rounding to 28 digits, half to even. A price or a quantity
--             has at most 18 decimal places, so a product has at most 36, and no digit is lost
--             before the context rounds.
--   Models    app/models: the enumerations, and a record for each mapped class.
--   Db        app/db/session.py and the constraints that app/models declares: the tables, a service
--             call as a function from the tables to an answer and new tables or an exception, and
--             the inserts and updates that the services make. `run` rolls back a call that raises.
--   Ledger    app/services/ledger.py: `find_funding_replay`, `post_sandbox_funding`. A child has
--             the ways in which a call succeeds (Outcomes), another what it leaves behind (Posted), and
--             a third the repetition of a call (Replay).
--   Orders    app/services/orders.py: `create_order_reservation` (Reserve) and
--             `cancel_order_reservation` (Cancel), with what they leave behind (Placed, Released),
--             the ways in which they succeed (Outcomes, CancelOutcomes) and the repetition of a
--             call (Replay, Recanceled), also at once with another (Waited).
--   Outbox    app/services/outbox.py: `enqueue_outbox_event`, which the orders call in their own
--             transaction, and `publish_next_outbox_event`, which takes the earliest event. Relay
--             is app/workers/outbox_relay.py: a round of `run_outbox_relay` for each of a list of
--             times, in place of its endless loop; Blocked and Confirmed are about publishers that
--             refuse.
--   Config    app/core/config.py: the settings and the two URLs. Quote is `urllib.parse.quote`, Quoted
--             and Urls are about where the parts of a URL begin and end.
--   Events    app/events/rabbitmq.py: the publisher, from `__aenter__` (aenter) to `__aexit__`
--             (aexit), and the message of an event. `relay` is the `async with` block of
--             app/workers/outbox_relay.py: the relay's rounds with that publisher, which
--             Confirming is about.
--   Accounts  the contract of the services over the wallets: a balance is what the ledger's entries
--             say (unexplained, net), and a locked balance is what the open orders hold (IsBacked).
--             Funding, Opening, Reserving and Releasing are about the first, Balanced about the
--             sums of the transactions, Backing, Unlocking, Untouched and Cancelable about the
--             second, Supply about all wallets of an asset together. Balances has an abstract
--             ledger that knows only what each user has of each asset, available and locked, and the
--             kinds and amounts that are posted; Holds, Deposits and Posts say which of its moves a
--             service makes.
--   Seed      app/scripts/seed_dev_data.py: `seed` is `main`, with the setting ENVIRONMENT and the
--             list DEVELOPMENT_ASSETS as arguments.
--   Api       app/api and app/schemas: the requests with the constraints of their fields (Schemas),
--             the routes as functions from the tables to an answer and new tables (OrderRoutes,
--             WalletRoutes, AuthRoutes; SystemRoutes is app/main.py), and the user of a token (Security: app/core/security.py
--             and app/api/deps.py). Repeats is about requests made twice, Changes about errors,
--             SignIn about registration, login and tokens, Raced about two
--             registrations at once, Listing, OwnRows and Rearranged about the list of balances.
--   History   the calls of the services and registrations one after another: `Step` is one of
--             them, committed or rolled back, `Reach` any number, and `IsSolvent` bounds their amounts.
--             Phases cuts a funding and a reservation in two, at their first lock, and a
--             registration is cut before its insert; Turns has the histories of sessions that
--             interleave between the two: a `World` has the tables and the sessions that have read
--             and wait. Serial, Current, Interleaved, Moves and Net say how these relate to whole
--             calls; Books, Assets and Calls are what they need of `Step`.
--   Migrations
--             alembic/versions: the tables (Tables), what `upgrade` and `downgrade` of each revision
--             do (Versions), and how PostgreSQL takes these operations (Schema): a table brings the
--             types of its enumerations along, and leaves them behind when it is dropped. Applied
--             and Ready say when an operation succeeds, Back is about downgrades.
--   Prelude   what the parts share: tests, signed integers, texts, tables as lists of rows.
--   Tests     a sample database, runs of the services on it, and the theorems applied to them.
--
-- A handler's function has the handler's name. The values that a call draws (identifiers from
-- `uuid4`, the random part of a reference, the time) are arguments of it. An `await` that reads with
-- a lock is a query of the tables: a call runs alone on the rows that it locks. So the second phase of
-- a call, which begins with the lock on the wallet that it pays from and ends with the commit, is one
-- turn; under PostgreSQL's READ COMMITTED its queries see what is committed when it begins.
-- A cancellation is one turn as well, although it takes two locks, first the order's and then the
-- wallet's, and reads the asset between: what other sessions commit to the wallet while it waits for
-- the second lock comes before that turn.
--
-- Parameters, for code that the repository does not hold: `Platform` has PostgreSQL's conversion to
-- NUMERIC(38, 18), the texts of UUIDs and decimals, and SHA-256. `ExactColumns` is the documented
-- property of the conversion that some theorems need: it keeps an amount that has at most 18 decimal
-- places and is below 10^10 (IsMoney). That bound leaves sums within the context's 28 digits. The
-- publisher of the outbox and the rows that other workers have locked are arguments too. `Broker` has
-- aio_pika's calls, `json.dumps` and `isoformat`; what a broker answers to a message may depend on the
-- time of the round, and `IsServing` and `IsServingFor` say that it is up.
-- `HoldsRequests` is the same for what the fields of a request admit. `Library` has the hashing of
-- passwords, the encoding of tokens and the parsing of UUIDs, and `IsLawful` what their
-- documentation says of them, with times in whole seconds. `order_by_code` is the database's ORDER BY
-- of the listing, as a function that puts rows in another order. The sample platform of Tests rounds half away from zero and has these properties, and the
-- sample library writes tokens and hashes in the plain.
--
-- The loops of the program are queries, and the seed's over its list. `Decimal` has a fuel: it is the number itself, which
-- exceeds the count of its digits, and the rounding needs a step per digit. The digits of a port in a
-- URL are made in the same way.
--
-- Not modelled: alembic/env.py, which connects and runs alembic; how app/main.py puts the application
-- together, and FastAPI's dispatch; how the settings are read from the environment; pydantic's check of
-- an email address; what the seed prints; the lengths of VARCHAR columns and the range of INTEGER
-- columns, of which `publish_attempts` is one; the timestamps other than the
-- outbox's; letters outside ASCII in `upper` and `lower`; two second phases at once on different
-- wallets, and commits while an event is being delivered.
pub mod Prelude
pub mod Decimal
pub mod Models
pub mod Db
pub mod Ledger
pub mod Outbox
pub mod Config
pub mod Events
pub mod Orders
pub mod Accounts
pub mod Seed
pub mod Api
pub mod History
pub mod Migrations
pub mod Tests

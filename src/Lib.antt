-- ===== src/Lib.antt =====
-- CoffeeBuddy, a Slack assistant for coffee runs: people of a channel order in a run, the run is
-- closed, and one of those who ordered is chosen to fetch the coffee.
--
-- The program is Python under src/coffeebuddy/. Its services work on a SQLAlchemy session; here a
-- session is a record of the tables (Schema), and a method is a function of the session that
-- returns a result or an exception, with the session as it is then (Effects). What was written
-- before an exception stays written, as it does in the program until the caller rolls back.
--
-- - Prelude and its children: Boolean tests and list functions over the native numbers; Rows and
--   Keyed have the lemmas on tables and their primary keys.
-- - Text, Uuid: Python's `str` and `uuid.UUID`, as far as the program calls them.
-- - Schema: infra/db/models.py. Schema/Valid has the UNIQUE constraints as an invariant.
-- - Preferences: services/preferences/service.py, the last order of a user in a channel.
-- - Orders: core/orders/. Models has the data classes, exceptions and the validator, Repository
--   the repositories, Service the service; the other children are named for what they prove.
--   Submitting an order writes it, and the preference if it is confirmed; cancelling keeps the row.
-- - Fairness: services/fairness/. Selector has the parts that touch no session, Service the
--   service. It chooses the runner and counts the run.
-- - Runs: core/runs/, which closes a run. It calls the fairness service.
-- - Admin: api/admin/ and core/audit/logger.py. Config has the settings of a patch and their ranges,
--   Service the three operations, which log what they do, for any authorizer; Authorizer has the
--   one by roles and allow-list.
-- - Number, Time: Python's `int` with its text, and `datetime`. Text/Dict has `dict` with texts as
--   keys, Text/Utf8 the encoding of texts.
-- - Kafka: infra/kafka/. Topics, Config and Models have the data, Producer and Consumer the harnesses
--   round a client of aiokafka, which is given by how its calls answer.
-- - Reminders: Scheduler is jobs/reminders/scheduler.py, which publishes the reminders of a run;
--   Worker is infra/kafka/reminder_worker.py, which sends each when it is due, as the handler of a
--   consumer (Delivery); Plan is about the reminders of a run, Wait about the sleeps.
-- - Database: infra/db/session.py: Credentials and their URL, Vault with the provider that reads
--   them, Config with DatabaseConfig.
-- - Slack: api/slack_runs/, models/run.py and events/run.py. A request is verified (Signature), its
--   text divided (Shlex) and read (Parsers), its run stored and announced (Service) and shown
--   (Messages); Dependencies has the session round it, Router the whole.
-- - Tests: the operations on a small example.
--
-- The answers of the clock, of `uuid4()` and of the database come from outside; they are functions in
-- the session (Schema.Outside). Those of the database are its collation, its ORDER BY, of which the
-- theorems suppose that it gives the rows that it is given, and whether it takes a row of the audit
-- table: where it does not, the flush raises, and what was set before stays set in the session. The
-- theorems about new rows suppose that `uuid4()` does not repeat itself. A datetime is a number of microseconds with its offset from UTC,
-- a UUID its integer, and a table the list of its rows in any order. The theorems on the statistics
-- ask that the identifiers are below 2 ^ 128, as all UUIDs are. A clock that is read several times
-- by the parser of a command gives the same time each time. `time.time()` is a number of
-- microseconds, without the rounding of a float.
--
-- Loops are recursion on a list, or on the attempts that are left. Only the wait of the reminder
-- worker has fuel, three rounds: its first sleep leaves at most the tolerance, or less than nothing,
-- and its second nothing, if a sleep lasts at least as long as it is asked to.
--
-- Parameters stand for what is not in the repository: pydantic's dumping and validation, the
-- clients of Kafka and Vault, the database and the publisher behind the slash command, and of
-- Python's library HMAC with SHA-256, `str.lower`, `datetime.fromisoformat`, `isoformat` and
-- `strftime`, and `parse_qs`. Coroutines are functions: the events between which they wait are an
-- explicit list, as with the messages of a consumer and the stop event.
--
-- Not modelled: the connection pool and the migrations, FastAPI and its wiring, Kafka's client, and
-- logging.
pub mod Prelude
pub mod Effects
pub mod Text
pub mod Number
pub mod Time
pub mod Uuid
pub mod Schema
pub mod Preferences
pub mod Orders
pub mod Runs
pub mod Fairness
pub mod Admin
pub mod Kafka
pub mod Reminders
pub mod Database
pub mod Slack
pub mod Tests

-- ===== src/Lib.antt =====
-- A model of the Empyrean V2 backend, which takes the readings of air-quality nodes, scores and
-- indexes them, raises alerts, and serves them to authenticated users.
--
-- The program's parts and how they interact: nodes publish readings over MQTT, a Celery task scores
-- a reading with the fuzzy engine (fuzzy/) and rates it on the EPA index (tasks/aqi.py), and a beat
-- task turns fresh indices into alerts (tasks/alerts.py), which the API lists and acknowledges
-- (api/alerts.py), mqtt/publisher.py publishes, and api/ws/ broadcasts. Other beat tasks aggregate,
-- purge and train the forecasts (tasks/aggregation.py, tasks/forecast.py), and routes export readings
-- and change the settings that the alerts and the purge read (api/export.py, api/admin.py). The API's
-- routes stand behind the decorators of api/jwt.py; api/auth.py and api/profile.py hand out and revoke
-- the tokens that these check.
--
-- Files:
--   Base           what all modules share: tests on native numbers, lists, results of code that may
--                  raise, integers, and floats as hundredths with the values that are not finite.
--   Fuzzy          fuzzy/membership.py (Membership), fuzzy/rules.py (Rules), fuzzy/tsukamoto.py
--                  (Tsukamoto: `infer`, `fuzzy_score`); the other modules are proofs.
--   Aqi            tasks/aqi.py (Bands: `_subindex`, `_aqi_for`, `compute_aqi`).
--   Alerts         models/alert.py and `_upsert_alert` (Table), `check_thresholds` of tasks/alerts.py
--                  (Check), api/alerts.py (Routes).
--   Access         the user rows and what api/jwt.py keeps in Redis (Store), tokens, blocklist and
--                  decorators (Guard); Revocation and Protection are proofs.
--   Tokens         the tables of api/auth.py (Store), registering, logging in, refreshing and logging
--                  out (Session), the reset link (Reset).
--   Limits         api/rate_limit.py (Window: `rate_limit`, with its key, its script and its headers).
--   Mqtt           mqtt/client.py: subscribing and readiness (Subscriptions), `_on_message` with the
--                  limiter and `_enqueue` (Inbound), handlers, worker and drain (Worker).
--   Pipeline       tasks/process_reading.py: the enrichment (Enrich) and the task (Task).
--   Publisher      mqtt/publisher.py (Queue): `_get_client`, `_queue_failed_message`,
--                  `_retry_failed_messages` and `publish_alert`; the other modules are proofs.
--   Aggregation    tasks/aggregation.py: `hourly_aggregate` (Rollup), and the retention purge and the
--                  sweeps of tokens (Retention); the other modules are proofs.
--   Ws             api/ws/manager.py (Manager) and api/ws/routes.py (Session): the handshake of
--                  `alerts_ws` and its loop; the other modules are proofs.
--   Forecast       tasks/forecast.py: models and retraining (Model), `generate_forecast` (Predict);
--                  api/forecast.py (Route); the other modules are proofs.
--   Admin          api/admin.py: the settings and `update_settings` (Settings); the other modules are
--                  proofs.
--   Export         api/export.py: the CSV text and its chunks (Csv), the cooldown and the route
--                  (Route); the other modules are proofs, with a reader of CSV (Reader).
--   Profile        api/profile.py: `change_password` and `delete_profile` (Account), and what they end.
--
-- How code becomes definitions: a row is a record, a table a list of rows, a statement a function on
-- the list; a handler takes the state and gives the new state with its response, an exception or a
-- problem response being an `err`. A transaction that raises gives the old state back. Ids, names,
-- digests and tokens that are only compared are natural numbers. Times are natural numbers: seconds
-- or milliseconds, as each file says. A reading's numbers are exact: an input counts hundredths,
-- a membership grade is a whole number of 1/20000, which every slope of the rule base divides, and
-- the score is rounded once, to hundredths, half to even; the anomaly test compares squares. Binary
-- rounding of floats is not modelled.
--
-- Loops are recursion on the list that they walk: in mqtt/client.py, the attempts to
-- enqueue and to dispatch count down from the bounds of the code, which make them end.
--
-- Parameters: pyjwt.decode, hashlib.sha256, bcrypt.checkpw, the texts that `secrets` makes, the
-- regression of the forecasts, the parsers and printers of numbers and dates, the encoder and the
-- renderer of messages, the order and the constraints of the database, what Celery does with a task,
-- which calls of `publish_alert` return where the alerts call it, and clocks. Two digests differ only
-- where a theorem says so.
--
-- Not modelled: binary rounding, logging, timing padding, and the transport of HTTP, SQL and Redis;
-- start-up, TLS and the push of a node's configuration in mqtt/client.py; the response
-- cache, the routes for nodes and readings, the update of a profile, and the health diagnostics of
-- api/admin.py, which no modelled part calls for its result; the application factory, settings,
-- scripts, migrations and tracing, which are input and output.
pub mod Base
pub mod Fuzzy
pub mod Aqi
pub mod Alerts
pub mod Access
pub mod Tokens
pub mod Limits
pub mod Mqtt
pub mod Pipeline
pub mod Publisher
pub mod Aggregation
pub mod Ws
pub mod Forecast
pub mod Admin
pub mod Export
pub mod Profile

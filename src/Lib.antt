-- ===== src/Lib.antt =====
-- TenantFlow API: a model of the multi-tenant back end under app/, and what is proved of it.
--
-- The program is a FastAPI service over PostgreSQL, with Redis for rate limits, Celery jobs for
-- mail and webhooks, and Stripe for billing. Users belong to organizations through memberships
-- with a role; projects, tasks, attachments, webhook endpoints, subscriptions and audit rows are
-- an organization's. Every endpoint of an organization goes through `require_permission`.
--
-- The parts, and the files that model them:
--   Prelude            numbers, texts and lists, and tables with their SQL statements
--   Core               app/core: errors and their responses (main.py), permissions, settings,
--                      access tokens, dependencies, cursors and the base64 that they use
--   Db                 app/db: a record for each table (Models), the constraints of an INSERT or
--                      UPDATE (Constraints), and requests as actions (Session)
--   Migrations         alembic/versions: the tables that the migration makes, and its operations on a
--                      catalogue of tables and indexes
--   Infra              app/infra: the token bucket of the Lua script, and idempotency keys
--   Audit              app/modules/audit: service.py, and the list of router.py
--   Auth, Organizations, Projects, Tasks, Files, Webhooks, Billing
--                      app/modules, each with its service.py and router.py; Webhooks.Signing is
--                      signing.py, Billing.Client app/integrations/stripe_client.py, and
--                      Files.Keys app/integrations/storage.py; Files.Bucket is
--                      scripts/init_minio.py
--   Workers            app/workers/tasks.py: deliveries, clean-up, mail (app/integrations/email.py), and
--                      the tasks round them
--   Observability      app/observability/metrics.py: counters in Redis, and the gauges of a scrape
--   Http               app/core/middleware.py, app/observability/middleware.py and app/main.py: what
--                      surrounds the endpoints, and the health endpoints
--   Access, Tenancy    proofs over the endpoints: who may call them, what they may touch
--   Examples           a concrete organization, on which the theorems are applied
-- A function of the program keeps its name; an endpoint is a function of its Router module that
-- takes the bearer token and includes the dependencies of the endpoint.
--
-- How the program is modelled:
--   An action maps a World (the database, what is on the Celery queue, the buckets, counters) to a
--   result and the next World. An exception is a result; what was written before it is still
--   there until `request`, the transaction of get_session, rolls the database back. Messages
--   that were published and buckets are not rolled back. Requests run one after another; the
--   two transactions of a delivery job are apart, so that jobs can overlap. Between them the job keeps
--   its own object of the delivery, as its session does (expire_on_commit=False, and session.get
--   answers the object that is there): the second transaction decides by that object, and writes only
--   the columns that it changes in it (`flush_changes`).
--   The clock, uuid4, secrets, argon2, PyJWT, the hashes, case folding, Lua's numbers and the
--   broker are the record `Platform`, an argument of everything; DNS, Fernet, S3 and Stripe are records of
--   theirs. The n-th call of the clock, of uuid4 and of the secrets is the n-th value of a
--   stream, without any assumption on it: a clash of ids is an IntegrityError.
--   A table is the list of its rows. A SELECT of one row is the first row that passes; writing an
--   attribute of a row is an UPDATE by its id. UUIDs and times are numbers (times in seconds).
--   The bucket counts in the numbers of Redis's Lua, whose rounded operations are a parameter.
--   The scope of an idempotency key is the record of its words and ids, not the joined text.
-- All recursion is on lists, numbers and options; beside the thirty attempts of the bucket script, only
-- `walk`, a client that follows cursors, has a number of requests to spend, and its theorem says how
-- many are enough.
--
-- Texts are strings; where their characters matter (cursors, signatures) they are lists of codes. The
-- fuel of Decimal's digits is the number itself, which is enough for its divisions by ten. The
-- migration runs on a catalogue that keeps names, columns and constraints;
-- types and checks stand in it as they are written. A primary key is named by the convention of
-- app/db/base.py. The middlewares are functions on applications, and
-- an exception passes through them as a result.
--
-- Not modelled: updated_at, the lengths of VARCHAR columns and of texts that pydantic limits where
-- no function tests them, durations, the format of the logs, traces and the text of an exported metric,
-- SMTP, the Stripe and S3 SDKs, the environment of Alembic, Celery's own scheduling, CORS, and the
-- clean-up of idle Redis keys.
pub mod Prelude
pub mod Core
pub mod Db
pub mod Migrations
pub mod Infra
pub mod Audit
pub mod Organizations
pub mod Webhooks
pub mod Projects
pub mod Tasks
pub mod Access
pub mod Tenancy
pub mod Files
pub mod Auth
pub mod Billing
pub mod Workers
pub mod Observability
pub mod Http
pub mod Examples

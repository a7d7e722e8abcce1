-- ===== src/Lib.antt =====
-- smotryashchiy: a monitoring server with its agents. The development models the parts that decide
-- who may use the server, that carry an agent's measurements to it without losing them, that hand the
-- operator's commands to a host, that probe targets, and that count the visits of tracked sites.
--
-- How the parts interact. A request passes the guards (Auth.Guards), which ask the auth service
-- (Auth.Service) whether its cookie names a live session. Login and the step-up check of the
-- operator's actions (Auth.Handlers) ask the login limiter (Auth.LoginLimiter) first and report the
-- outcome to it; the anonymous endpoints share the token buckets of RateLimit. On the agent's side,
-- batches go into a queue on disk (Agent.Spool), and the sender (Agent.Sender) looks at the oldest,
-- sends it and removes it when the server answered for it. The server decodes and normalizes a batch
-- (Telemetry.Ingest, Telemetry.Normalize), stores it in one transaction (Telemetry.Storage), and passes
-- what was new to the live streams (Telemetry.Hub). A host got its place in the tunnel, through which
-- batches come, by a one-time secret (Telemetry.Enrollment). The operator queues a command, after the step-up
-- check where its kind needs one (Operator.Handlers); the service (Operator.Service) validates it and
-- keeps it in its store (Operator.Store), where the host claims it and answers it. The prober
-- (Uptime.Service) keeps one worker for each target of its store (Uptime.Store); its workers share the
-- slots for checks. A public beacon of a tracked site is collected by Analytics.Service, which derives
-- everything from the request (Analytics.Beacon, Analytics.Agents, Analytics.Channels) and stores a
-- pageview within its visit (Analytics.Store).
--
-- Files and code:
--   Base, Assoc, Sorting, Eviction: numbers, lists, bytes, Go maps as association lists, an
--     interface for `slices.SortFunc`, and the map after the oldest part of its keys is deleted.
--   Sql: what the stores use of database/sql: statements that may fail, and transactions; Sql.Atomic
--     and Sql.Fixes: what these leave alone; Sql.Keeps: what of the tables they keep true.
--   RateLimit: internal/platform/ratelimit/ratelimit.go (New, Allow, makeRoom).
--   Auth.LoginLimiter: internal/auth/interfaces/http/login_limiter.go (retryAfter, failure, makeRoom,
--     success).
--   Auth.Service: internal/auth/application/service.go, internal/auth/domain/session.go,
--     internal/auth/infrastructure/store.go.
--   Auth.Handlers: internal/auth/interfaces/http/handlers.go (login, StepUp, sessionState, logout);
--     Auth.Handlers.Requests: the same login and StepUp in parts, for requests in flight together.
--   Auth.Guards: internal/auth/interfaces/http/middleware.go.
--   Agent.Disk, Agent.Spool: internal/agent/spool/spool.go (writeAtomic; Add, Peek, Remove).
--   Agent.Sender: internal/agent/sender.go (Link, Drain, fail, Backoff), with what the other goroutines
--     of internal/agent/runner.go do in between (`Doing`: Add, and Link for the operator's poller).
--   Telemetry.Batch: internal/telemetry/domain/types.go; Telemetry.Normalize: validate.go (Normalize).
--   Telemetry.Ingest: internal/telemetry/domain/decode.go (DecodeBatch) and
--     internal/telemetry/application/ingest.go (Ingest), ports.go.
--   Telemetry.Hub: internal/telemetry/application/hub.go.
--   Telemetry.Maintenance: internal/telemetry/application/maintenance.go (Rollup, the cutoffs of Purge).
--   Telemetry.Storage: internal/telemetry/infrastructure/store.go (Store), with the tables and keys of
--     internal/platform/db/migrations/0002_telemetry.sql and 0009_documents.sql.
--   Telemetry.Enrollment: internal/telemetry/application/enrollment.go and
--     internal/telemetry/infrastructure/enrollment.go, with the keys of 0004_enrollment.sql among the
--     migrations; Telemetry.Enrollment.History: any sequence of calls.
--   Operator.Command, Operator.Validate, Operator.Incident, Operator.Audit:
--     internal/operator/domain/domain.go.
--   Operator.Store, Operator.Records: internal/operator/infrastructure/store.go, with the triggers of
--     internal/platform/db/migrations/0010_operator.sql; Operator.Store.Life: the life of a command.
--   Operator.Service: internal/operator/application/service.go; Operator.History: any sequence of
--     calls on it. Operator.Handlers: internal/operator/interfaces/http/handlers.go (queue).
--   Uptime.Target: internal/uptime/domain/domain.go; Uptime.Store:
--     internal/uptime/infrastructure/store.go, with the keys of
--     internal/platform/db/migrations/0005_uptime.sql; Uptime.Service:
--     internal/uptime/application/service.go, where `move` is any step of the handlers, of Run
--     (reconcile, purge) or of a worker.
--   Analytics.Beacon: internal/analytics/domain/domain.go; Analytics.Agents and Analytics.Channels:
--     internal/analytics/application/versions.go, channels.go and the User-Agent part of service.go;
--     Analytics.Service: service.go; Analytics.Store: internal/analytics/infrastructure/store.go, with
--     the keys of 0006_analytics.sql and 0011_analytics_v2.sql among the migrations; Analytics.Query:
--     internal/analytics/domain/query.go (Validate).
--
-- Conventions. A string is its bytes. A time is the natural number of nanoseconds since Go's zero
-- time, and the clock's reading is an argument. A map is an association list; nothing depends on its
-- order but what Go leaves to the order of iteration. A method under its mutex is one step. The
-- login and the step-up check take the limiter's mutex twice: what other requests do in between is an
-- argument (`Turns`) of the handlers, and a `move` of Auth.Handlers.Requests is one part of one request. The
-- differences of times and of byte counts are of natural numbers and stop at zero; the invariants say
-- where they are exact.
--
-- A table is a list of rows, a statement a function on the tables, which fails where a schedule says so
-- and then changes nothing; a transaction puts the tables back when it ends in an error. Stored times
-- are milliseconds up to the epoch, that is whole milliseconds since Go's zero time. A call of the
-- operator's service is given one reading of the clock. The prober's workers are a list; the map of its
-- Run holds the ones that are not cancelled. The identifiers and secrets that the code draws at random
-- are arguments, none where drawing fails.
--
-- Code outside the repository is a parameter: x/time/rate (`Rate`), bcrypt (`Bcrypt`), encoding/json
-- for a queued record (`Codec`), the parsing of URLs and media types (`Http`), sorting (`Sorter`), and
-- of UTF-8, JSON, white space, lower case, URLs, ports, time zones, SHA-256, base64, tunnel keys and places what a batch, a
-- command, a target, a beacon or an enrollment needs (each part's `Library`, and `Json`). The store behind `Ingest` is an
-- interface (`Repository`). The operating system is a disk with a schedule of failing calls, the
-- network a script of dials and replies, so that a theorem for every schedule is one for every
-- failure.
--
-- Fuel. `drain` takes one unit for each look at the queue: each round but the last takes a batch off,
-- so that more fuel than there are batches, queued and still to be added, is enough. The script of what
-- is added beside it is a finite list. `roll_hours` takes one for each hour. A purge loop
-- takes one for each batch of deletions, and is through with one more than there are rows of the kinds
-- that it deletes. The search for a free address takes one for each address of the subnet.
--
-- Not modelled: the queries of telemetry and the tables that triggers keep beside its rows,
-- the checker of the prober and the delays of its workers, the reports of analytics and its database of
-- places, the collectors of the agent, the HTTP server and configuration; the directory
-- scan when the queue is opened; the timer loop of the sender and of the maintenance jobs; the deletions of the telemetry purge, of
-- which only the cutoffs are modelled; the parsing
-- of client addresses; the attributes of cookies; hashing itself.
pub mod Base
pub mod Assoc
pub mod Sorting
pub mod Eviction
pub mod RateLimit
pub mod Auth
pub mod Agent
pub mod Telemetry
pub mod Analytics
pub mod Operator
pub mod Sql
pub mod Uptime

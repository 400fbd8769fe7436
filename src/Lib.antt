-- ===== src/Lib.antt =====
-- CrisisLink, the coordination backend of disaster response: a model of its core in cubical type
-- theory, with theorems about it. Paths are those of the repository.
--
-- The program is a set of services over one PostgreSQL database. Incidents are reported
-- (internal/incident), rescue units are kept in a registry (internal/unit) and assigned to
-- incidents by dispatches (internal/dispatch), people are admitted to shelters (internal/victim,
-- internal/shelter), groups are booked on vehicles (internal/transport). Each transaction leaves an
-- event in an outbox (internal/outbox), which a relay publishes (internal/relay) and consumers
-- process once (internal/consumer). Units report their positions to Redis (internal/presence).
-- Users log in (internal/auth), and handlers answer their requests behind the roles that the routes
-- of internal/server/server.go ask for; a gateway limits the requests of each client.
--
-- Common: Boolean tests, signed integers, lists and a stable sort. Table: a database table as a
-- list of rows under their keys, with the statements that the repositories send and their laws.
-- Store.Rows: the rows, which are the structs of the model.go files, and the database. Store.Tx: a
-- transaction is a function from the database to an error or to an answer and a database; an error
-- carries no database, which is the deferred Rollback of each repository method.
--
-- Units, Incidents, Shelters, Victims, Transports: the repository and the service of each package.
-- Units.Versions is the order on units that their version column keeps, Victims.Capacity and
-- Transports.Seats are the invariants of capacity, Transports.Cancellation is about CancelBooking,
-- Incidents.Reports about the deduplication of reports.
--
-- Dispatches: the status machine and the statements of internal/dispatch. Transactions has Reserve,
-- ReserveOptimistic and AdvanceStatus of repository.go, Reassignment has reassign.go, Service has
-- service.go and reassign_service.go. Outcomes, Optimistic and Replaced say what each transaction
-- did when it committed; Invariant and Preservation are about the invariant WellFormed: the ids are
-- unique, no unit has two active dispatches, the unit of an active dispatch is not available, and
-- the incident of an active dispatch is not waiting. Safety, Contention, Rely, Mirror, Lifecycle,
-- Equivalence (of the two ways to reserve) and Rerouting (of the service) are what follows; Triage
-- is about the dispatch that a preemption ends, Ranking about the units that are offered; Refusals
-- lists the errors of the transactions, and Overwrite is about UpdateStatus of an incident with a
-- reservation in its middle.
--
-- Outbox, Outbox.Publishing: WriteTx, PublishBatch and Relay.drain; Outbox.Backoff and
-- Outbox.Budget are about the retries. Inbox is ProcessOnce and Consumer, Inbox.Once about repeated
-- deliveries. Roles is internal/platform/authz, Geo internal/platform/geo, Scoring
-- internal/scoring, with the ranking of shelters in Scoring.Allocation; Victims.Register has the
-- reads of internal/victim.
--
-- Presence is internal/presence: keys that expire and an index that does not. RateLimit is the
-- script of internal/platform/middleware/ratelimit_redis.go; RateLimit.Bound is about one clock,
-- RateLimit.Skew about two. Auth is internal/auth with AuthRequired, RequireRole and ActorFrom of
-- internal/platform/middleware; Auth.Accounts and Auth.Requests are about the accounts,
-- Auth.Session about logins and tokens. Http.Dispatching, Http.Registers, Http.Creation,
-- Http.Reading and Http.Accounts are handlers (the handler.go files) from the decoded body on, with
-- Http.Live for the reads of presence and Http.Trails for those of the consumers' tables;
-- Http.Access and Http.Privacy are about what they let whom do and see. Registers has the paged
-- queries of the repositories, Outbox.Backlog those of the admin pages; Outbox.Due, Outbox.Settled,
-- Outbox.Chances, Outbox.Claims and Outbox.Drained are about the loop of the relay.
--
-- Api is the protected part of internal/server/server.go: a route with its arguments, AuthRequired,
-- the check of the :id, the roles and the handler. Api.Reads and Api.Routes tell the routes that
-- change something from those that do not, Api.Served names the requests of System that a caller
-- may make, Api.Runs is about runs of calls, Api.Access about callers without a role, Api.Override
-- about an operator's override of a unit's status. Gateway is the chain of cmd/gateway/main.go with
-- the turns of its proxy. Cache is internal/platform/cache with internal/shelter/cache.go:
-- Cache.Staleness and Cache.Fresh run readers and writers in interleaved steps, Cache.Shelters and
-- Cache.Transparent whole operations of ShelterService. Consumers has the two groups of
-- cmd/consumer/main.go with the tables that they write (internal/audit and internal/notification).
--
-- System puts the parts together. System.Requests runs any of the program's writes, one after
-- another; System.Sound is the conjunction of the components' invariants, System.Registered,
-- System.Admitted, System.Filed and System.Reachable keep it through every request, System.Race and
-- System.Rivalry through an optimistic reservation with runs of requests before its compare-and-
-- swap. Tests has small databases, and the theorems at them.
--
-- How the model stands to the code. Transactions run one after another, each of them at once. Those
-- that take the same row lock do so in PostgreSQL too, in the order in which they get it; but a
-- transaction also reads rows that it has not locked (Reserve the status of its incident, Reassign
-- the number of active dispatches), and what others commit between such a read and its COMMIT is
-- not modelled. Two paths are open to others, in parameters: the optimistic reservation, which
-- takes no lock before its compare-and-swap (Rivals: what is committed up to the swap, and nothing
-- from the swap to the COMMIT), and UpdateStatus of an incident, between its read and its write.
-- NearbyLive has what others do to Redis between its round trips, Relay.drain what is committed and
-- how much time passes between its batches; a single batch has the time of its transaction. Ids are
-- UUIDs that are only compared: they are numbers, and the generated one is an argument; a malformed
-- id is the answer `none` in a path and in the unit of a dispatch, and is not modelled in other
-- bodies. Times are seconds, coordinates whole micro-degrees, INTEGER columns are unbounded natural
-- numbers. Floats of the scoring are exact fractions with a common denominator. The keys, the
-- references and the partial unique index of the dispatches table are part of its INSERT; CHECK
-- constraints are not assumed. Parameters are the distances that PostGIS and Redis measure, the
-- live locator, the latitudes that Redis indexes, the answers of the broker, the effects of
-- consumers, and bcrypt and the JWT library. The requests of System.Requests leave out an
-- operator's override of a unit's status, which may free a unit that is on its way (Api.Override),
-- and a rival between the read and the write of an incident's UpdateStatus. The rate limiter's
-- floats are exact numbers of nanoseconds and billionths of a token; a bucket's rate is a whole
-- number. Relay.drain and the retries of Consumer.process are recursions on fuel; the retries of
-- ReserveOptimistic and of Consumer.process have the source's own bounds. The drain loop needs more
-- fuel than the live events have attempts left, and one more each. The gateway's counter is a word
-- of 64 bits, and its turns are fair up to 2⁶³ requests. A cached shelter lives for at most 72
-- seconds, a minute and its jitter; what a text sorts by, and how many characters it has, are
-- parameters.
--
-- Not modelled: the decoding of bodies and of JSON, the transport of the gateway's proxy, the
-- middleware for CORS, logs and panics, Kafka with its dead-letter topic and the sleeps between
-- attempts, metrics, configuration, seed data, migrations, the start-up and shutdown of the
-- commands, and the web client: glue, or libraries that the code calls.
pub mod Common
pub mod Table
pub mod Store
pub mod Geo
pub mod Units
pub mod Outbox
pub mod Incidents
pub mod Registers
pub mod Dispatches
pub mod Shelters
pub mod Victims
pub mod Transports
pub mod Inbox
pub mod Consumers
pub mod Presence
pub mod RateLimit
pub mod Auth
pub mod Http
pub mod Api
pub mod Gateway
pub mod Cache
pub mod Roles
pub mod Scoring
pub mod System
pub mod Tests

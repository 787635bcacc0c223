-- ===== src/Lib.antt =====
-- Verification of dalikamata: the domain's query engine, its two repositories, the crawlers of
-- Bitbucket and Jenkins, the component files, the NATS ports and the metrics.
--
-- dalikamata collects repositories, commits, pull requests, workflows and their runs from Bitbucket
-- and Jenkins, stores them in a repository of the domain, and answers queries and aggregations over
-- them. A crawler publishes events to a NATS stream; the domain's port consumes them and adds each
-- to the repository, in memory or in SQLite; the API and the metrics service send it queries through
-- the query port. A query filters the field maps of the entities, sorts, cuts a page and emits; an
-- aggregation groups or counts the field maps that the filter keeps. Workflows have no owner of
-- their own: it is resolved, at query time, from repo to component to team.
--
-- Which file models what:
--   Query/Value, Builders, FieldNames   internal/domain/query/value.go, filter.go, sort.go,
--     builders.go, fields.go: values, filters, field maps
--   Query/Compare, Match, Sort   internal/domain/query/evaluator.go: compareFieldValue and
--     compareAny; Match and its operators; Less, SortBy and Paginate
--   Query/OwnerKey   internal/domain/query/owner.go: OwnerKey and SplitOwnerKey
--   Query/Semantics   the meaning of a filter, and which filters fit a field map
--   Query/Aggregation, Grouping, Histogram, Aggregator   internal/domain/query/aggregation.go,
--     result.go, aggregator.go: EvaluateAggs, applyTerms, applyDateHistogram, applyHistogram
--   Model   internal/domain/model: the entities
--   Repo/Memory, Owners, Queries   internal/domain/repo/memory.go: the state and its writes; the
--     owner lookup; the queries and Aggregate (snake case for Go's names: add_component for
--     AddComponent)
--   Repo/Index   the ownership indexes through the writes
--   Repo/Projection   internal/domain/repo/projection.go
--   Sqlite/Tables, Writes, Loads, Queries   internal/domain/repo/sqlite.go and schema.sql: the
--     tables and their statements; the writes (sql_add_repo for AddRepo); the scans of rows into
--     entities; the queries. Sqlite/Written   the tables beside the repository in memory, through
--     the writes of both
--   Service   internal/domain/service.go and ports.go: the handlers of events and of queries
--   Nats/Messages, QueryPort, QueryClient   internal/domain/nats/query_port.go, query_client.go:
--     the messages of a query, the server that answers it and the client that collects the answer.
--     Nats/Protocol   the two together
--   Nats/EventPort, Publish   internal/domain/nats/port.go, publish.go: the consumers of
--     the ingest subjects; the publisher with its retries. Nats/Redelivery   a message that arrives
--     twice
--   Jenkins/Api, Jobs, Builds, Crawler   internal/ingest/jenkins/models.go, crawler.go: what the
--     server answers; job discovery and its tree; what a build tells; the crawl
--   Metrics/Queries, Samples, Service   internal/metrics/service.go: the three aggregations; the
--     samples of their results; the caches and the refresh loop
--   Api/Fields, Params   internal/api/query_params.go: the fields that a request may filter by; the
--     query string as a query. Api/Checked, Parsed   which fields an accepted one names
--   Api/Server   internal/api/server.go: the handlers. Server/Asked   which queries they send
--   Config   internal/config/component, internal/ingest/config/crawler.go
--   Bitbucket   internal/ingest/bitbucket/crawler.go, models.go and the client's paginate
--   Platform   what Go's runtime provides: float64, time.Time, the order of a `range` over a map
--   Prelude   shared helpers: of them Texts, Cuts and Paths are Go's strings and path functions,
--     Steps the calls on a world; Tests   a platform of numbers and runs on it
--
-- How the code is modelled. A map is an association list without a key twice, and a `range` over it
-- visits it in an order that the platform leaves open. A method that changes the repository holds
-- its lock for the whole call, so it is one function from state to state; the clock's reading is an
-- argument. An error is a constructor that keeps what the message says. A context is the answers to
-- the polls of ctx.Err(), emit a step on a state of the caller's, and a panic of a slice expression
-- the outcome `none`, where the bound of `items[:to]` is the length. The crawlers' calls of other services are steps on a world, which may answer anything;
-- so are the aggregator of the metrics and the stream that a publisher publishes to. The replies of
-- the query server stand in the client's inbox in the order they are sent, and each poll of the
-- client's subscription takes the next one or runs into its timeout. The codecs of messages and of
-- columns (encoding/json, time at RFC 3339) are parameters. Logging is left out. Integers of
-- queries are unbounded, since the code only compares them; the counters of histograms wrap at
-- 2^64, and the metrics' intervals are int64 nanoseconds whose doubling wraps.
--
-- Every loop is structural recursion but three. The client's pagination follows the offsets that the
-- server names, so it has fuel: a run needs one unit for each page, so a server whose answer ends
-- has an amount that is enough. Jenkins job discovery follows the folders that the server names, so
-- it has fuel: the nesting depth of the folders is enough. A publisher's attempts are a number that
-- the caller's deadline allows, one unit for each.
--
-- Not modelled: HTTP, NATS, SQL and file access, the API's routes and pages, the cursor stores,
-- wiring and command lines, which are I/O; the fake servers and the test helpers; and two maps'
-- sharing of one slice, since the lists here are values.
pub mod Prelude
pub mod Platform
pub mod Query
pub mod Model
pub mod Repo
pub mod Config
pub mod Api
pub mod Bitbucket
pub mod Jenkins
pub mod Sqlite
pub mod Service
pub mod Metrics
pub mod Nats
pub mod Tests

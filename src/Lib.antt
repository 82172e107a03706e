-- ===== src/Lib.antt =====
-- A model of the SimpleTrack analytics service, the runtime data plane that accepts events, and
-- proofs about it.
--
-- The program. A source of events (a web site, say) is owned by a control plane, which gives it a
-- public write key. internal/controlplane turns a write key into the source's trusted
-- configuration. internal/collectapi serves HTTP: /collect publishes an event under the scope of
-- the resolved source, and the internal readback routes answer queries under a bearer token.
-- internal/runtime assembles the service and writes events to routed tables.
--
-- The files.
--   Base: shared names, Boolean tests, results, signed 64-bit integers with the wrap-around
--     written out, maps as association lists, text with strings.TrimSpace, ToLower and EqualFold,
--     and the loop that keeps first occurrences.
--   ControlPlane/Source: SourceConfig and Normalize (internal/controlplane/resolver.go).
--   ControlPlane/Policy: AllowsOrigin, AllowsPropertyFilter, AllowsReadback.
--   ControlPlane/Validate: validateSourceConfig and the errors of the package.
--   ControlPlane/Memory, ControlPlane/SchemaBound: MemoryResolver and SchemaBoundResolver.
--   ControlPlane/Http: HTTPResolver (internal/controlplane/http_resolver.go), and in
--     ControlPlane/Http/Endpoint its constructor with the checks of the endpoint.
--   CollectApi/Credentials: QueryCredential, normalizeQueryCredentials and authorizeQueryToken
--     (internal/collectapi/query_auth.go).
--   CollectApi/Request: what handlers read of a request (internal/collectapi/handler.go).
--   CollectApi/Storage: the queries and rows of analytics-core's stores, as records.
--   CollectApi/Handler: the handler with its collaborators, its state and its error replies.
--   CollectApi/Gates: token, write key, origin and policy checks (internal/collectapi/query.go).
--   CollectApi/Params, CollectApi/Filters: the query arguments, the property filters.
--   CollectApi/Evidence, CollectApi/Readback, CollectApi/Routes: the responses, the calls of the
--     stores, and handleRealtime, handleEvents, handleGoals and handleProperties.
--   CollectApi/Collect: handleCollect with its stages and errors (internal/collectapi/handler.go).
--   CollectApi/Metrics: the Prometheus text and its labels
--     (internal/collectapi/kafka_metrics.go).
--   CollectApi/Kafka: the snapshot of the Kafka event bus, in Kafka/Select its samples and in
--     Kafka/Routes the two routes (internal/collectapi/kafka_diagnostics.go, kafka_metrics.go).
--   CollectApi/Static: NewApp and the static answers (internal/collectapi/handler.go).
--   CollectApi/App: the options, their checks and the registered routes
--     (internal/collectapi/handler.go).
--   Runtime/TableWriter: DynamicTableEnsuringWriter, with requireClickHouseTable
--     (internal/runtime/dynamic_table_writer.go, internal/runtime/worker.go).
--   Runtime/Credentials, Runtime/Resolver, Runtime/Bus, Runtime/Assembly: how New puts the service
--     together (internal/runtime/runtime.go, internal/runtime/kafka_bus.go).
--   Runtime/Options, Runtime/Clients: the clients of external systems that are opened and closed meanwhile, and
--     what they are opened with.
--   Runtime/Stores: the ingestion processor and the readers of the readback routes
--     (internal/runtime/worker.go, internal/runtime/runtime.go).
--   Runtime/Schema: the routed tables of the enabled sources (internal/runtime/worker.go).
--   Runtime/Selectors: the property selectors of the query builder; Runtime/KafkaStats: the copy of
--     the Kafka statistics; Runtime/MemoryBus: the bus of local demos
--     (internal/runtime/runtime.go, internal/runtime/memory_bus.go).
--   Geoip: the place of a client address (internal/geoip/resolver.go).
--   Main: the life of the process (cmd/simpletrack-analytics-service/main.go).
--   Config: LoadFromEnv with its settings, credentials and checks (internal/config/config.go).
--   Tests: runs of the model and instances of the theorems.
--
-- Conventions. A Go string is a list of code points: strings are taken to be valid UTF-8. The case
-- tables of package unicode beyond ASCII are the parameter CaseTable, whose laws are those of the
-- tables. Times are nanoseconds. A method that changes its receiver takes the state and returns
-- it; what lies outside the repository (the HTTP client, the clock, JSON) is a record of functions
-- over a world W, with its laws as hypotheses. A handler is an Action: it changes a state that
-- records the calls of the resolver and of the stores, and ends in a response or an error reply.
-- A Go map is an association list with no key twice; where the program walks one, the order is a
-- parameter. The assembly of the service numbers the clients that it opens, and a call of a library
-- is a value that the parameter of libraries answers. What a message formats is left out of it.
-- A time before the year 1 is not represented.
-- All loops are recursions on lists, and strconv.Itoa is one on the digits left: no fuel is needed.
--
-- The log lines of a handler are data. Calls of the table writer are taken one after the other:
-- its mutex makes the part that creates tables atomic.
--
-- Not modelled: encoding and decoding of JSON and of times, the storage and queue libraries of
-- analytics-core, the HTTP server, and the browser tracker.
pub mod Base
pub mod ControlPlane
pub mod CollectApi
pub mod Runtime
pub mod Config
pub mod Geoip
pub mod Main
pub mod Tests

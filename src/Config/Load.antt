-- ===== src/Config/Load.antt =====
-- internal/config/config.go: LoadFromEnv.
pub mod Checked
pub mod Accepted
use anaysitics_service.Base.{
  Bool, true, false, ◌&&◌, ◌||◌, not, ◌==◌, List, [], ◌∷◌, Result, ok, ◌>>=◌, ◌>>◌, if◌then◌else◌,
}
use anaysitics_service.Base.Text.{Text, Text_eq, text, is_empty, trim_space, CaseTable}
use anaysitics_service.Config.{Environment, Config, QueryTokenCredential}
use anaysitics_service.Config.Credentials.{query_credentials_from_env, query_token_values}
use anaysitics_service.Config.Defaults.{read_settings}
use anaysitics_service.Config.Kafka.{validate_kafka_security_config}
use anaysitics_service.ControlPlane.Validate.{Error, require}

-- `len(values) == 0`
abbrev pub none_of {ℓ} : {A : Type ℓ} → List A → Bool
none_of [] = true
none_of (x ∷ xs) = false

-- `if test { block }`
abbrev pub when : Bool → Result Error (Unit {0}) → Result Error (Unit {0})
when test block = if test then block else ok tt

-- The checks of the event bus.
unfoldable pub check_event_bus : ⦃cases : CaseTable⦄ → Config → Result Error (Unit {0})
check_event_bus c = do
  require (not (c.event_bus == text "redis" && is_empty c.redis_addr))
      "ANALYTICS_SERVICE_REDIS_ADDR is required when ANALYTICS_SERVICE_EVENTBUS=redis"
  require (not (c.event_bus == text "kafka" && none_of c.kafka_brokers))
      "ANALYTICS_SERVICE_KAFKA_BROKERS is required when ANALYTICS_SERVICE_EVENTBUS=kafka"
  when (c.event_bus == text "kafka") (validate_kafka_security_config c)
  require (not (c.event_bus == text "direct" && not c.allow_in_memory_bus))
      "ANALYTICS_SERVICE_ALLOW_IN_MEMORY_BUS=true is required for direct event bus mode"
  require
      (c.event_bus == text "redis" || c.event_bus == text "kafka" || c.event_bus == text "direct")
      "ANALYTICS_SERVICE_EVENTBUS must be redis, kafka, or direct"

-- The checks of the two Kafka routes.
unfoldable pub check_kafka_routes : Config → Result Error (Unit {0})
check_kafka_routes c = do
  when c.kafka_diagnostics_enabled (do
    require (c.event_bus == text "kafka")
        "ANALYTICS_SERVICE_KAFKA_DIAGNOSTICS_ENABLED requires ANALYTICS_SERVICE_EVENTBUS=kafka"
    require (not (none_of c.query_credentials))
        "ANALYTICS_SERVICE_QUERY_TOKEN or ANALYTICS_SERVICE_QUERY_TOKENS_JSON is required when ANALYTICS_SERVICE_KAFKA_DIAGNOSTICS_ENABLED=true")
  when c.kafka_metrics_enabled (do
    require (c.event_bus == text "kafka")
        "ANALYTICS_SERVICE_KAFKA_METRICS_ENABLED requires ANALYTICS_SERVICE_EVENTBUS=kafka"
    require (not (none_of c.query_credentials))
        "ANALYTICS_SERVICE_QUERY_TOKEN or ANALYTICS_SERVICE_QUERY_TOKENS_JSON is required when ANALYTICS_SERVICE_KAFKA_METRICS_ENABLED=true")

-- The checks of the source resolver.
unfoldable pub check_resolver : Config → Result Error (Unit {0})
check_resolver c = do
  require (c.source_resolver == text "memory" || c.source_resolver == text "http")
      "ANALYTICS_SERVICE_SOURCE_RESOLVER must be memory or http"
  when (c.source_resolver == text "http") (do
    require (not (is_empty c.control_plane_url))
        "ANALYTICS_SERVICE_CONTROL_PLANE_URL is required when ANALYTICS_SERVICE_SOURCE_RESOLVER=http"
    require (not (is_empty c.control_plane_token))
        "ANALYTICS_SERVICE_CONTROL_PLANE_TOKEN is required when ANALYTICS_SERVICE_SOURCE_RESOLVER=http")

-- The checks of readback and of ingestion.
unfoldable pub check_stores : Config → Result Error (Unit {0})
check_stores c = do
  when c.query_enabled (do
    require (not (none_of c.query_tokens))
        "ANALYTICS_SERVICE_QUERY_TOKEN or ANALYTICS_SERVICE_QUERY_TOKENS_JSON is required when ANALYTICS_SERVICE_QUERY_ENABLED=true"
    require (not (is_empty c.click_house_addr))
        "ANALYTICS_SERVICE_CLICKHOUSE_ADDR is required when ANALYTICS_SERVICE_QUERY_ENABLED=true")
  when c.ingestion_enabled (do
    require (not (c.event_bus == text "direct"))
        "ANALYTICS_SERVICE_INGESTION_ENABLED requires ANALYTICS_SERVICE_EVENTBUS=redis or kafka"
    require (not (is_empty c.worker_group))
        "ANALYTICS_SERVICE_WORKER_GROUP is required when ingestion is enabled"
    require (not (is_empty c.worker_consumer))
        "ANALYTICS_SERVICE_WORKER_CONSUMER is required when ingestion is enabled"
    require (not (is_empty c.my_sql_dsn))
        "ANALYTICS_SERVICE_MYSQL_DSN is required when ingestion is enabled"
    require (not (is_empty c.click_house_addr))
        "ANALYTICS_SERVICE_CLICKHOUSE_ADDR is required when ingestion is enabled")

-- The last checks, which follow the decoding of the sources.
unfoldable pub check_sources : Config → Result Error (Unit {0})
check_sources c = do
  require (not (c.source_resolver == text "memory" && none_of c.sources))
      "ANALYTICS_SERVICE_SOURCES_JSON is required when ANALYTICS_SERVICE_SOURCE_RESOLVER=memory"
  require (not (c.ingestion_enabled && none_of c.sources && not (c.source_resolver == text "http")))
      "ANALYTICS_SERVICE_SOURCES_JSON is required when ingestion is enabled"

-- The sources, or what is there if the variable is blank.
unfoldable pub decode_sources : Environment → Config → Result Error Config
decode_sources env c =
    let raw = trim_space (env.getenv (text "ANALYTICS_SERVICE_SOURCES_JSON")) in
    if is_empty raw
    then ok c
    else do sources ← env.unmarshal_sources raw; ok (record c { sources = sources })

abbrev pub with_credentials : Config → List QueryTokenCredential → Config
with_credentials c query_credentials = record c {
  query_credentials = query_credentials;
  query_tokens = query_token_values query_credentials;
}

-- LoadFromEnv
unfoldable pub load_from_env : ⦃cases : CaseTable⦄ → Environment → Result Error Config
load_from_env env = do
  let settings = read_settings env
  query_credentials ← query_credentials_from_env env settings.query_token
  let c = with_credentials settings query_credentials
  check_event_bus c
  check_kafka_routes c
  check_resolver c
  check_stores c
  c' ← decode_sources env c
  check_sources c'
  ok c'

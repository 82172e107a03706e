-- ===== src/Config/Defaults.antt =====
-- internal/config/config.go: the settings with their defaults, before any check.
use anaysitics_service.Base.{ℕ, ◌*◌, true, false, []}
use anaysitics_service.Base.Int.{pos}
use anaysitics_service.Base.Text.{Text, text, CaseTable, to_lower}
use anaysitics_service.Config.{Environment, Config}
use anaysitics_service.Config.Env.{
  env_string, env_bool, env_int, env_duration, default_worker_consumer,
}
use anaysitics_service.Config.Names.{parse_csv}
use anaysitics_service.ControlPlane.Source.{second}

abbrev pub default_addr : Text
default_addr = text ":8080"

abbrev pub default_collect_path : Text
default_collect_path = text "/collect"

abbrev pub default_health_path : Text
default_health_path = text "/healthz"

abbrev pub default_tracker_path : Text
default_tracker_path = text "/tracker.js"

abbrev pub default_events_path : Text
default_events_path = text "/v1/events"

abbrev pub default_goals_path : Text
default_goals_path = text "/v1/goals"

abbrev pub default_realtime_path : Text
default_realtime_path = text "/v1/realtime"

abbrev pub default_properties_path : Text
default_properties_path = text "/v1/properties"

abbrev pub default_kafka_diag_path : Text
default_kafka_diag_path = text "/v1/kafka/diagnostics"

abbrev pub default_kafka_metrics_path : Text
default_kafka_metrics_path = text "/v1/kafka/metrics"

abbrev pub default_swagger_path : Text
default_swagger_path = text "/swagger"

abbrev pub default_openapi_file : Text
default_openapi_file = text "api/openapi.yaml"

abbrev pub default_tracker_file : Text
default_tracker_file = text "public/tracker.js"

abbrev pub default_event_bus : Text
default_event_bus = text "redis"

abbrev pub default_redis_stream : Text
default_redis_stream = text "analytics.events"

abbrev pub default_dead_letters : Text
default_dead_letters = text "analytics.events.dead"

abbrev pub default_kafka_topic : Text
default_kafka_topic = text "analytics.events"

abbrev pub default_kafka_dead_topic : Text
default_kafka_dead_topic = text "analytics.events.dead"

abbrev pub default_kafka_client_id : Text
default_kafka_client_id = text "simpletrack-analytics-service"

abbrev pub default_worker_group : Text
default_worker_group = text "simpletrack-analytics-service"

abbrev pub default_table_prefix : Text
default_table_prefix = text "events"

abbrev pub default_resolver : Text
default_resolver = text "memory"

-- time.Millisecond
abbrev millisecond : ℕ
millisecond = 1_000_000

-- The literal at the start of LoadFromEnv; the fields that it does not name have the zero value.
unfoldable pub read_settings : ⦃cases : CaseTable⦄ → Environment → Config
read_settings env = record {
  addr = env_string env (text "ANALYTICS_SERVICE_ADDR") default_addr;
  collect_path = env_string env (text "ANALYTICS_SERVICE_COLLECT_PATH") default_collect_path;
  health_path = env_string env (text "ANALYTICS_SERVICE_HEALTH_PATH") default_health_path;
  tracker_path = env_string env (text "ANALYTICS_SERVICE_TRACKER_PATH") default_tracker_path;
  events_path = env_string env (text "ANALYTICS_SERVICE_EVENTS_PATH") default_events_path;
  goals_path = env_string env (text "ANALYTICS_SERVICE_GOALS_PATH") default_goals_path;
  realtime_path = env_string env (text "ANALYTICS_SERVICE_REALTIME_PATH") default_realtime_path;
  properties_path =
      env_string env (text "ANALYTICS_SERVICE_PROPERTIES_PATH") default_properties_path;
  swagger_enabled = env_bool env (text "ANALYTICS_SERVICE_SWAGGER_ENABLED") false;
  swagger_path = env_string env (text "ANALYTICS_SERVICE_SWAGGER_PATH") default_swagger_path;
  openapi_file = env_string env (text "ANALYTICS_SERVICE_OPENAPI_FILE") default_openapi_file;
  tracker_file = env_string env (text "ANALYTICS_SERVICE_TRACKER_FILE") default_tracker_file;
  trust_forwarded_headers = env_bool env (text "ANALYTICS_SERVICE_TRUST_FORWARDED_HEADERS") false;
  geoip_mmdb_file = env_string env (text "ANALYTICS_SERVICE_GEOIP_MMDB_FILE") [];
  event_bus = to_lower (env_string env (text "ANALYTICS_SERVICE_EVENTBUS") default_event_bus);
  allow_in_memory_bus = env_bool env (text "ANALYTICS_SERVICE_ALLOW_IN_MEMORY_BUS") false;
  redis_addr = env_string env (text "ANALYTICS_SERVICE_REDIS_ADDR") [];
  redis_password = env_string env (text "ANALYTICS_SERVICE_REDIS_PASSWORD") [];
  redis_db = env_int env (text "ANALYTICS_SERVICE_REDIS_DB") (pos 0);
  redis_stream = env_string env (text "ANALYTICS_SERVICE_REDIS_STREAM") default_redis_stream;
  redis_dead_letter_stream =
      env_string env (text "ANALYTICS_SERVICE_REDIS_DEAD_LETTER_STREAM") default_dead_letters;
  redis_block = env_duration env (text "ANALYTICS_SERVICE_REDIS_BLOCK") (pos second);
  redis_read_count = env_int env (text "ANALYTICS_SERVICE_REDIS_READ_COUNT") (pos 10);
  redis_max_attempts = env_int env (text "ANALYTICS_SERVICE_REDIS_MAX_ATTEMPTS") (pos 5);
  kafka_brokers = parse_csv (env_string env (text "ANALYTICS_SERVICE_KAFKA_BROKERS") []);
  kafka_topic = env_string env (text "ANALYTICS_SERVICE_KAFKA_TOPIC") default_kafka_topic;
  kafka_dead_letter_topic =
      env_string env (text "ANALYTICS_SERVICE_KAFKA_DEAD_LETTER_TOPIC") default_kafka_dead_topic;
  kafka_client_id =
      env_string env (text "ANALYTICS_SERVICE_KAFKA_CLIENT_ID") default_kafka_client_id;
  kafka_max_attempts = env_int env (text "ANALYTICS_SERVICE_KAFKA_MAX_ATTEMPTS") (pos 5);
  kafka_retry_backoff =
      env_duration env (text "ANALYTICS_SERVICE_KAFKA_RETRY_BACKOFF") (pos (250 * millisecond));
  kafka_workers = env_int env (text "ANALYTICS_SERVICE_KAFKA_WORKERS") (pos 100);
  kafka_queue_size = env_int env (text "ANALYTICS_SERVICE_KAFKA_QUEUE_SIZE") (pos 200);
  kafka_commit_interval =
      env_duration env (text "ANALYTICS_SERVICE_KAFKA_COMMIT_INTERVAL") (pos second);
  kafka_tls_enabled = env_bool env (text "ANALYTICS_SERVICE_KAFKA_TLS_ENABLED") false;
  kafka_tls_server_name = env_string env (text "ANALYTICS_SERVICE_KAFKA_TLS_SERVER_NAME") [];
  kafka_tls_ca_file = env_string env (text "ANALYTICS_SERVICE_KAFKA_TLS_CA_FILE") [];
  kafka_tls_cert_file = env_string env (text "ANALYTICS_SERVICE_KAFKA_TLS_CERT_FILE") [];
  kafka_tls_key_file = env_string env (text "ANALYTICS_SERVICE_KAFKA_TLS_KEY_FILE") [];
  kafka_tls_insecure_skip_verify =
      env_bool env (text "ANALYTICS_SERVICE_KAFKA_TLS_INSECURE_SKIP_VERIFY") false;
  kafka_sasl_enabled = env_bool env (text "ANALYTICS_SERVICE_KAFKA_SASL_ENABLED") false;
  kafka_sasl_mechanism =
      to_lower (env_string env (text "ANALYTICS_SERVICE_KAFKA_SASL_MECHANISM") (text "plain"));
  kafka_sasl_username = env_string env (text "ANALYTICS_SERVICE_KAFKA_SASL_USERNAME") [];
  kafka_sasl_password = env_string env (text "ANALYTICS_SERVICE_KAFKA_SASL_PASSWORD") [];
  kafka_sasl_handshake = env_bool env (text "ANALYTICS_SERVICE_KAFKA_SASL_HANDSHAKE") true;
  kafka_diagnostics_enabled =
      env_bool env (text "ANALYTICS_SERVICE_KAFKA_DIAGNOSTICS_ENABLED") false;
  kafka_diagnostics_path =
      env_string env (text "ANALYTICS_SERVICE_KAFKA_DIAGNOSTICS_PATH") default_kafka_diag_path;
  kafka_metrics_enabled = env_bool env (text "ANALYTICS_SERVICE_KAFKA_METRICS_ENABLED") false;
  kafka_metrics_path =
      env_string env (text "ANALYTICS_SERVICE_KAFKA_METRICS_PATH") default_kafka_metrics_path;
  ingestion_enabled = env_bool env (text "ANALYTICS_SERVICE_INGESTION_ENABLED") false;
  worker_group = env_string env (text "ANALYTICS_SERVICE_WORKER_GROUP") default_worker_group;
  worker_consumer =
      env_string env (text "ANALYTICS_SERVICE_WORKER_CONSUMER") (default_worker_consumer env);
  my_sql_dsn = env_string env (text "ANALYTICS_SERVICE_MYSQL_DSN") [];
  my_sql_auto_migrate = env_bool env (text "ANALYTICS_SERVICE_MYSQL_AUTO_MIGRATE") false;
  click_house_addr = env_string env (text "ANALYTICS_SERVICE_CLICKHOUSE_ADDR") [];
  click_house_database =
      env_string env (text "ANALYTICS_SERVICE_CLICKHOUSE_DATABASE") (text "default");
  click_house_user = env_string env (text "ANALYTICS_SERVICE_CLICKHOUSE_USER") (text "default");
  click_house_password = env_string env (text "ANALYTICS_SERVICE_CLICKHOUSE_PASSWORD") [];
  click_house_table_prefix =
      env_string env (text "ANALYTICS_SERVICE_CLICKHOUSE_TABLE_PREFIX") default_table_prefix;
  click_house_auto_migrate = env_bool env (text "ANALYTICS_SERVICE_CLICKHOUSE_AUTO_MIGRATE") false;
  property_indexing = env_bool env (text "ANALYTICS_SERVICE_PROPERTY_INDEXING") true;
  property_cataloging = env_bool env (text "ANALYTICS_SERVICE_PROPERTY_CATALOGING") true;
  source_resolver =
      to_lower (env_string env (text "ANALYTICS_SERVICE_SOURCE_RESOLVER") default_resolver);
  control_plane_url = env_string env (text "ANALYTICS_SERVICE_CONTROL_PLANE_URL") [];
  control_plane_token = env_string env (text "ANALYTICS_SERVICE_CONTROL_PLANE_TOKEN") [];
  control_plane_timeout =
      env_duration env (text "ANALYTICS_SERVICE_CONTROL_PLANE_TIMEOUT") (pos (3 * second));
  control_plane_cache_ttl =
      env_duration env (text "ANALYTICS_SERVICE_CONTROL_PLANE_CACHE_TTL") (pos (5 * second));
  control_plane_allow_insecure_loopback =
      env_bool env (text "ANALYTICS_SERVICE_CONTROL_PLANE_ALLOW_INSECURE_LOOPBACK") false;
  control_plane_allow_insecure_private_network =
      env_bool env (text "ANALYTICS_SERVICE_CONTROL_PLANE_ALLOW_INSECURE_PRIVATE_NETWORK") false;
  query_enabled = env_bool env (text "ANALYTICS_SERVICE_QUERY_ENABLED") false;
  query_token = env_string env (text "ANALYTICS_SERVICE_QUERY_TOKEN") [];
  query_tokens = [];
  query_credentials = [];
  sources = [];
}

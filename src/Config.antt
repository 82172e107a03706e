-- ===== src/Config.antt =====
-- internal/config/config.go: the settings of the process, as the environment gives them.
pub mod Env
pub mod Names
pub mod Defaults
pub mod Credentials
pub mod Kafka
pub mod Load
use anaysitics_service.Base.{ℕ, Bool, List, Option, Result}
use anaysitics_service.Base.Int.{ℤ}
use anaysitics_service.Base.Text.{Text}
use anaysitics_service.ControlPlane.Policy.{ReadbackRoute}
use anaysitics_service.ControlPlane.Source.{SourceConfig}
use anaysitics_service.ControlPlane.Validate.{Error}

-- QueryTokenCredential; a time.Time is the number of nanoseconds since the zero time.
pub record QueryTokenCredential : Type 0 where
  pub id : Text
  pub token : Text
  pub not_before : ℕ
  pub expires_at : ℕ
  pub scopes : List ReadbackRoute
  pub allowed_write_keys : List Text

-- The struct into which an object of the rotation list is decoded.
pub record EncodedCredential : Type 0 where
  pub id : Text
  pub token : Text
  pub not_before : Text
  pub expires_at : Text
  pub scopes : List Text
  pub write_keys : List Text

-- What the process finds around it: os.Getenv, os.Hostname, and the parsers of packages time and
-- encoding/json. A json.RawMessage is its text.
pub record Environment : Type 0 where
  pub getenv : Text → Text
  pub hostname : Option Text
  pub parse_duration : Text → Option ℤ
  pub parse_time : Text → Result Error ℕ
  pub unmarshal_items : Text → Result Error (List Text)
  pub unmarshal_string : Text → Result Error Text
  pub unmarshal_credential : Text → Result Error EncodedCredential
  pub unmarshal_sources : Text → Result Error (List SourceConfig)

-- Config; an `int` and a time.Duration have 64 bits.
pub record Config : Type 0 where
  pub addr : Text
  pub collect_path : Text
  pub health_path : Text
  pub tracker_path : Text
  pub events_path : Text
  pub goals_path : Text
  pub realtime_path : Text
  pub properties_path : Text
  pub swagger_enabled : Bool
  pub swagger_path : Text
  pub openapi_file : Text
  pub tracker_file : Text
  pub trust_forwarded_headers : Bool
  pub geoip_mmdb_file : Text
  pub event_bus : Text
  pub allow_in_memory_bus : Bool
  pub redis_addr : Text
  pub redis_password : Text
  pub redis_db : ℤ
  pub redis_stream : Text
  pub redis_dead_letter_stream : Text
  pub redis_block : ℤ
  pub redis_read_count : ℤ
  pub redis_max_attempts : ℤ
  pub kafka_brokers : List Text
  pub kafka_topic : Text
  pub kafka_dead_letter_topic : Text
  pub kafka_client_id : Text
  pub kafka_max_attempts : ℤ
  pub kafka_retry_backoff : ℤ
  pub kafka_workers : ℤ
  pub kafka_queue_size : ℤ
  pub kafka_commit_interval : ℤ
  pub kafka_tls_enabled : Bool
  pub kafka_tls_server_name : Text
  pub kafka_tls_ca_file : Text
  pub kafka_tls_cert_file : Text
  pub kafka_tls_key_file : Text
  pub kafka_tls_insecure_skip_verify : Bool
  pub kafka_sasl_enabled : Bool
  pub kafka_sasl_mechanism : Text
  pub kafka_sasl_username : Text
  pub kafka_sasl_password : Text
  pub kafka_sasl_handshake : Bool
  pub kafka_diagnostics_enabled : Bool
  pub kafka_diagnostics_path : Text
  pub kafka_metrics_enabled : Bool
  pub kafka_metrics_path : Text
  pub ingestion_enabled : Bool
  pub worker_group : Text
  pub worker_consumer : Text
  pub my_sql_dsn : Text
  pub my_sql_auto_migrate : Bool
  pub click_house_addr : Text
  pub click_house_database : Text
  pub click_house_user : Text
  pub click_house_password : Text
  pub click_house_table_prefix : Text
  pub click_house_auto_migrate : Bool
  pub property_indexing : Bool
  pub property_cataloging : Bool
  pub source_resolver : Text
  pub control_plane_url : Text
  pub control_plane_token : Text
  pub control_plane_timeout : ℤ
  pub control_plane_cache_ttl : ℤ
  pub control_plane_allow_insecure_loopback : Bool
  pub control_plane_allow_insecure_private_network : Bool
  pub query_enabled : Bool
  pub query_token : Text
  pub query_tokens : List Text
  pub query_credentials : List QueryTokenCredential
  pub sources : List SourceConfig

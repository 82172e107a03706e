-- ===== src/Runtime/Options.antt =====
-- internal/runtime: the options with which the clients of libraries are opened.
use anaysitics_service.Base.{Bool, List, Option}
use anaysitics_service.Base.Int.{ℤ}
use anaysitics_service.Base.Text.{Text, CaseTable, to_lower}
use anaysitics_service.Config.{Config}

-- redis.Options
pub record RedisOptions : Type 0 where
  pub addr : Text
  pub password : Text
  pub db : ℤ

unfoldable pub redis_options : Config → RedisOptions
redis_options c = record { addr = c.redis_addr; password = c.redis_password; db = c.redis_db }

-- redisstream.Options
pub record RedisStreamOptions : Type 0 where
  pub stream : Text
  pub block : ℤ
  pub count : ℤ
  pub ensure_consumer : Bool
  pub max_attempts : ℤ
  pub dead_letter_stream : Text

unfoldable pub redis_stream_options : Config → RedisStreamOptions
redis_stream_options c = record {
  stream = c.redis_stream;
  block = c.redis_block;
  count = c.redis_read_count;
  ensure_consumer = c.ingestion_enabled;
  max_attempts = c.redis_max_attempts;
  dead_letter_stream = c.redis_dead_letter_stream;
}

-- A tls.Config, by what the service sets.
pub record TlsConfig : Type 0 where
  pub server_name : Text
  pub insecure_skip_verify : Bool
  pub has_root_cas : Bool
  pub has_certificate : Bool

-- kafkaeventbus.Options
pub record KafkaOptions : Type 0 where
  pub brokers : List Text
  pub topic : Text
  pub dead_letter_topic : Text
  pub client_id : Text
  pub max_attempts : ℤ
  pub retry_backoff : ℤ
  pub workers : ℤ
  pub queue_size : ℤ
  pub commit_interval : ℤ
  pub tls_enabled : Bool
  pub tls_config : Option TlsConfig
  pub sasl_enabled : Bool
  pub sasl_mechanism : Text
  pub sasl_username : Text
  pub sasl_password : Text
  pub sasl_handshake : Bool

unfoldable pub kafka_options : ⦃cases : CaseTable⦄ → Config → Option TlsConfig → KafkaOptions
kafka_options c tls_config = record {
  brokers = c.kafka_brokers;
  topic = c.kafka_topic;
  dead_letter_topic = c.kafka_dead_letter_topic;
  client_id = c.kafka_client_id;
  max_attempts = c.kafka_max_attempts;
  retry_backoff = c.kafka_retry_backoff;
  workers = c.kafka_workers;
  queue_size = c.kafka_queue_size;
  commit_interval = c.kafka_commit_interval;
  tls_enabled = c.kafka_tls_enabled;
  tls_config = tls_config;
  sasl_enabled = c.kafka_sasl_enabled;
  sasl_mechanism = to_lower c.kafka_sasl_mechanism;
  sasl_username = c.kafka_sasl_username;
  sasl_password = c.kafka_sasl_password;
  sasl_handshake = c.kafka_sasl_handshake;
}

-- clickhousedriver.Options
pub record ClickHouseOptions : Type 0 where
  pub addr : Text
  pub database : Text
  pub username : Text
  pub password : Text

unfoldable pub click_house_options : Config → ClickHouseOptions
click_house_options c = record {
  addr = c.click_house_addr;
  database = c.click_house_database;
  username = c.click_house_user;
  password = c.click_house_password;
}

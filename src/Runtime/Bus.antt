-- ===== src/Runtime/Bus.antt =====
-- internal/runtime/runtime.go and kafka_bus.go: the event bus.
pub mod Balanced
use anaysitics_service.Base.{
  Bool, true, false, ◌||◌, not, ◌==◌, List, [], ◌∷◌, Option, none, some, Result, err, if◌then◌else◌,
}
use anaysitics_service.Base.Action.{◌>>=◌, ◌>>◌, give, stop}
use anaysitics_service.Base.Text.{Text, Text_eq, text, is_empty, CaseTable}
use anaysitics_service.Config.{Config}
use anaysitics_service.ControlPlane.Source.{join_comma}
use anaysitics_service.ControlPlane.Validate.{failure}
use anaysitics_service.Runtime.Options.{
  TlsConfig, redis_options, redis_stream_options, kafka_options,
}
use anaysitics_service.Runtime.Clients.{
  Client, redis_client, kafka_provider, StartError, failed, ping, build, build_redis_bus, read_file,
  load_key_pair, Libraries, Assembling, perform, connect, or_close,
}

pub data EventBus : Type 0 where
  redis_bus kafka_bus : Client → EventBus
  memory_bus : EventBus

module _ {W : Type 0} (libs : Libraries W) where
  -- Whether a pool of authorities was read from the file; a system pool that is missing is replaced.
  unfoldable pub load_root_cas : Text → Assembling W Bool
  load_root_cas ca_file = if is_empty ca_file then give false else (do
    perform libs (read_file ca_file)
    perform libs (build "certificate pool from the PEM file")
    give true)

  unfoldable pub load_certificate : Text → Text → Assembling W Bool
  load_certificate cert_file key_file =
      if not (is_empty cert_file) || not (is_empty key_file)
      then (do perform libs (load_key_pair cert_file key_file); give true)
      else give false

  -- newKafkaTLSConfig
  unfoldable pub new_kafka_tls_config : Config → Assembling W (Option TlsConfig)
  new_kafka_tls_config c = if not c.kafka_tls_enabled then give none else (do
    has_root_cas ← load_root_cas c.kafka_tls_ca_file
    has_certificate ← load_certificate c.kafka_tls_cert_file c.kafka_tls_key_file
    give (
        some (record {
          server_name = c.kafka_tls_server_name;
          insecure_skip_verify = c.kafka_tls_insecure_skip_verify;
          has_root_cas = has_root_cas;
          has_certificate = has_certificate;
        })))

  -- newRedisBus
  unfoldable pub new_redis_bus : Config → Assembling W EventBus
  new_redis_bus c = do
    client ← connect libs (redis_client (redis_options c))
    or_close libs client (perform libs (ping client))
    or_close libs client (perform libs (build_redis_bus (redis_stream_options c)))
    give (redis_bus client)

  -- newKafkaBus
  unfoldable pub new_kafka_bus : ⦃cases : CaseTable⦄ → Config → Assembling W EventBus
  new_kafka_bus c = do
    tls_config ← new_kafka_tls_config c
    bus ← connect libs (kafka_provider (kafka_options c tls_config))
    give (kafka_bus bus)

  -- newEventBus
  unfoldable pub new_event_bus : ⦃cases : CaseTable⦄ → Config → Assembling W EventBus
  new_event_bus c =
      if c.event_bus == text "redis"
      then new_redis_bus c
      else if c.event_bus == text "kafka"
      then new_kafka_bus c
      else if c.event_bus == text "direct"
      then give memory_bus
      else stop (failed (failure "unsupported event bus"))

-- The closers that are returned beside a bus.
unfoldable pub bus_closers : EventBus → List Client
bus_closers (redis_bus client) = client ∷ []
bus_closers (kafka_bus client) = client ∷ []
bus_closers memory_bus = []

-- kafkaBusFromEventBus
unfoldable pub kafka_bus_from_event_bus : EventBus → Option Client
kafka_bus_from_event_bus (redis_bus client) = none
kafka_bus_from_event_bus (kafka_bus client) = some client
kafka_bus_from_event_bus memory_bus = none

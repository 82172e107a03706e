-- ===== src/Runtime/Bus/Balanced.antt =====
-- internal/runtime/runtime.go and kafka_bus.go: the event bus leaves open its client, and nothing when it
-- fails.
use anaysitics_service.Base.{◌||◌, not, ◌==◌}
use anaysitics_service.Base.Action.{Satisfies-bind, Satisfies-if}
use anaysitics_service.Base.Text.{Text_eq, text, is_empty, CaseTable}
use anaysitics_service.Config.{Config}
use anaysitics_service.Runtime.Options.{redis_options, kafka_options}
use anaysitics_service.Runtime.Clients.{redis_client, kafka_provider, Libraries}
use anaysitics_service.Runtime.Clients.Balanced.{
  IsBalanced, perform-IsBalanced, connect-IsBalanced, or_close-IsBalanced,
}
use anaysitics_service.Runtime.Stores.Balanced.{IsPlain, then-IsPlain, give-IsPlain, if-IsPlain}
use anaysitics_service.Runtime.Bus.{
  load_root_cas, load_certificate, new_kafka_tls_config, new_redis_bus, new_kafka_bus,
  new_event_bus, bus_closers,
}

module _ {W : Type 0} ⦃cases : CaseTable⦄ (libs : Libraries W) where
  new_kafka_tls_config-IsPlain : (c : Config) → IsPlain libs (new_kafka_tls_config libs c)
  unfolding new_kafka_tls_config load_root_cas load_certificate
  new_kafka_tls_config-IsPlain c = if-IsPlain libs (not c.kafka_tls_enabled) (give-IsPlain libs _) (
      then-IsPlain libs
        (if-IsPlain libs (is_empty c.kafka_tls_ca_file) (give-IsPlain libs _) (
          then-IsPlain libs (perform-IsBalanced libs _)
            (λ _. then-IsPlain libs (perform-IsBalanced libs _) (λ _. give-IsPlain libs _))))
        (λ roots.
          then-IsPlain libs
            (if-IsPlain libs
              (not (is_empty c.kafka_tls_cert_file) || not (is_empty c.kafka_tls_key_file))
              (then-IsPlain libs (perform-IsBalanced libs _) (λ _. give-IsPlain libs _))
              (give-IsPlain libs _))
            (λ certificate. give-IsPlain libs _)))

  new_redis_bus-IsBalanced : (c : Config) → IsBalanced bus_closers (new_redis_bus libs c)
  unfolding new_redis_bus bus_closers
  new_redis_bus-IsBalanced c base =
      Satisfies-bind (connect-IsBalanced libs (redis_client (redis_options c)) base) (λ client.
        Satisfies-bind (or_close-IsBalanced libs client _ (perform-IsBalanced libs _) base) (λ _.
          Satisfies-bind (or_close-IsBalanced libs client _ (perform-IsBalanced libs _) base)
            (λ _. record { run = λ s h. h })))

  new_kafka_bus-IsBalanced : (c : Config) → IsBalanced bus_closers (new_kafka_bus libs c)
  unfolding new_kafka_bus bus_closers
  new_kafka_bus-IsBalanced c base =
      Satisfies-bind (new_kafka_tls_config-IsPlain c base) (λ tls_config.
        Satisfies-bind (connect-IsBalanced libs (kafka_provider (kafka_options c tls_config)) base)
          (λ bus. record { run = λ s h. h }))

  pub new_event_bus-IsBalanced : (c : Config) → IsBalanced bus_closers (new_event_bus libs c)
  unfolding new_event_bus bus_closers
  new_event_bus-IsBalanced c base =
      Satisfies-if (c.event_bus == text "redis") (λ _. new_redis_bus-IsBalanced c base)
        (λ _.
          Satisfies-if (c.event_bus == text "kafka") (λ _. new_kafka_bus-IsBalanced c base)
            (λ _.
              Satisfies-if (c.event_bus == text "direct") (λ _. record { run = λ s h. h })
                (λ _. record { run = λ s h. h })))

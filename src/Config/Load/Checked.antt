-- ===== src/Config/Load/Checked.antt =====
-- internal/config/config.go: the settings that LoadFromEnv accepts.
use anaysitics_service.Base.{
  ◌≡◌, refl, ◌↔◌, ◌⊎◌, Bool, true, false, not, ◌&&◌, ◌||◌, ◌==◌, ==_sound, Result, ok, ◌>>◌, arith,
  String,
}
use anaysitics_service.Base.Text.{Text, Text_eq, text, text_eq, text_eq_iff, is_empty, CaseTable}
use anaysitics_service.Config.{Config}
use anaysitics_service.Config.Kafka.{validate_kafka_security_config}
use anaysitics_service.Config.Kafka.Secured.{IsSecured, validate_kafka_security_config_iff}
use anaysitics_service.Config.Load.{
  none_of, when, check_event_bus, check_kafka_routes, check_resolver, check_stores, check_sources,
}
use anaysitics_service.ControlPlane.Validate.{Error, require}

pub when_iff :
    (test : Bool) (block : Result Error (Unit {0}))
    → (when test block ≡ ok tt) ↔ (test ≡ true → block ≡ ok tt)
when_iff true block = (λ h _. h, λ h. h refl)
when_iff false block = (λ h e. absurd (cc), λ h. refl)

-- At most one of the names fits.
bus_names :
    (bus : Text)
    → ((bus ≡ text "redis") → (bus == text "kafka") || (bus == text "direct") ≡ false)
      × ((bus ≡ text "kafka") → (bus == text "redis") || (bus == text "direct") ≡ false)
      × ((bus ≡ text "direct") → (bus == text "redis") || (bus == text "kafka") ≡ false)
unfolding text text_eq
bus_names bus = (λ e. rw e refl, λ e. rw e refl, λ e. rw e refl)

-- Accepted events are put in a queue that lasts, unless the direct mode is allowed.
abbrev pub HasBus : ⦃cases : CaseTable⦄ → Config → Type 0
HasBus c =
    ((c.event_bus ≡ text "redis") × (is_empty c.redis_addr ≡ false))
    ⊎ (((c.event_bus ≡ text "kafka") × (none_of c.kafka_brokers ≡ false) × IsSecured c)
        ⊎ ((c.event_bus ≡ text "direct") × (c.allow_in_memory_bus ≡ true)))

-- The checks over the tests that they are made of.
bus_rule :
    (r k d no_addr no_brokers allowed : Bool) (v : Result Error (Unit {0})) (m1 m2 m3 m4 : String)
    → (r ≡ true → (k || d) ≡ false)
    → (k ≡ true → (r || d) ≡ false)
    → (d ≡ true → (r || k) ≡ false)
    → ((do
      require (not (r && no_addr)) m1
      require (not (k && no_brokers)) m2
      when k v
      require (not (d && not allowed)) m3
      require (r || k || d) m4)
        ≡ ok tt)
      ↔ (((r ≡ true) × (no_addr ≡ false))
          ⊎ (((k ≡ true) × (no_brokers ≡ false) × (v ≡ ok tt)) ⊎ ((d ≡ true) × (allowed ≡ true))))
bus_rule r k d no_addr no_brokers allowed v m1 m2 m3 m4 f g h = ground arith

check_event_bus_tests :
    ⦃cases : CaseTable⦄ (c : Config)
    → (check_event_bus c ≡ ok tt) ↔ (
        (((c.event_bus == text "redis") ≡ true) × (is_empty c.redis_addr ≡ false))
        ⊎ ((((c.event_bus == text "kafka") ≡ true)
              × (none_of c.kafka_brokers ≡ false)
              × (validate_kafka_security_config c ≡ ok tt))
            ⊎ (((c.event_bus == text "direct") ≡ true) × (c.allow_in_memory_bus ≡ true))))
unfolding check_event_bus
check_event_bus_tests c =
    let (is_redis, is_kafka, is_direct) = bus_names c.event_bus in
    bus_rule _ _ _ _ _ _ _ _ _ _ _ (λ e. is_redis (==_sound _ _ e)) (λ e. is_kafka (==_sound _ _ e))
      (λ e. is_direct (==_sound _ _ e))

pub check_event_bus_iff : ⦃cases : CaseTable⦄ (c : Config) → (check_event_bus c ≡ ok tt) ↔ HasBus c
check_event_bus_iff c = ground (
  arith,
  check_event_bus_tests c,
  validate_kafka_security_config_iff c,
  text_eq_iff c.event_bus (text "redis"),
  text_eq_iff c.event_bus (text "kafka"),
  text_eq_iff c.event_bus (text "direct"),
)

-- The Kafka routes have a Kafka bus behind them and a credential in front of them.
abbrev pub HasKafkaRoutes : Config → Type 0
HasKafkaRoutes c =
    (c.kafka_diagnostics_enabled || c.kafka_metrics_enabled) ≡ true
    → (c.event_bus ≡ text "kafka") × (none_of c.query_credentials ≡ false)

pub check_kafka_routes_iff : (c : Config) → (check_kafka_routes c ≡ ok tt) ↔ HasKafkaRoutes c
unfolding check_kafka_routes
check_kafka_routes_iff c = ground (arith, text_eq_iff c.event_bus (text "kafka"))

differ : text_eq (text "memory") (text "http") ≡ false
unfolding text text_eq
differ = refl

-- A source of source configurations.
abbrev pub HasResolver : Config → Type 0
HasResolver c =
    (c.source_resolver ≡ text "memory")
    ⊎ ((c.source_resolver ≡ text "http")
        × (is_empty c.control_plane_url ≡ false)
        × (is_empty c.control_plane_token ≡ false))

pub check_resolver_iff : (c : Config) → (check_resolver c ≡ ok tt) ↔ HasResolver c
unfolding check_resolver
check_resolver_iff c = ground (
  arith,
  text_eq_iff c.source_resolver (text "memory"),
  text_eq_iff c.source_resolver (text "http"),
  only_one,
)
  where
    only_one : c.source_resolver ≡ text "memory" → text_eq c.source_resolver (text "http") ≡ false
    only_one e = rw e differ

-- Readback has a token and a store; ingestion has a durable bus, a consumer, and both stores.
abbrev pub HasStores : Config → Type 0
HasStores c =
    (c.query_enabled ≡ true
      → (none_of c.query_tokens ≡ false) × (is_empty c.click_house_addr ≡ false))
    × (c.ingestion_enabled ≡ true
        → ¬ (c.event_bus ≡ text "direct")
          × (is_empty c.worker_group ≡ false)
          × (is_empty c.worker_consumer ≡ false)
          × (is_empty c.my_sql_dsn ≡ false)
          × (is_empty c.click_house_addr ≡ false))

pub check_stores_iff : (c : Config) → (check_stores c ≡ ok tt) ↔ HasStores c
unfolding check_stores
check_stores_iff c = ground (arith, text_eq_iff c.event_bus (text "direct"))

-- A fixed list of sources, unless they are asked for one by one.
abbrev pub HasSources : Config → Type 0
HasSources c =
    (c.source_resolver ≡ text "memory")
      ⊎ (c.ingestion_enabled ≡ true) × ¬ (c.source_resolver ≡ text "http")
    → none_of c.sources ≡ false

pub check_sources_iff : (c : Config) → (check_sources c ≡ ok tt) ↔ HasSources c
unfolding check_sources
check_sources_iff c = ground (
  arith,
  text_eq_iff c.source_resolver (text "memory"),
  text_eq_iff c.source_resolver (text "http"),
)

-- ===== src/Config/Load/Accepted.antt =====
-- internal/config/config.go: what LoadFromEnv returns.
use anaysitics_service.Base.{
  ◌≡◌, refl, ◌↔◌, Bool, true, false, List, Result, ok, err, ◌>>=◌, >>=-iff, >>-iff, ◌>>◌, subst,
  sym, if◌then◌else◌,
}
use anaysitics_service.Base.Text.{CaseTable}
use anaysitics_service.Config.{Environment, Config, QueryTokenCredential}
use anaysitics_service.Config.Credentials.{query_credentials_from_env}
use anaysitics_service.Config.Defaults.{read_settings}
use anaysitics_service.Config.Kafka.{
  validate_kafka_security_config, has_kafka_tls_material, has_kafka_sasl_material,
}
use anaysitics_service.Config.Load.{
  with_credentials, decode_sources, load_from_env, check_event_bus, check_kafka_routes,
  check_resolver, check_stores, check_sources,
}
use anaysitics_service.Config.Load.Checked.{
  HasBus, HasKafkaRoutes, HasResolver, HasStores, HasSources, check_event_bus_iff,
  check_kafka_routes_iff, check_resolver_iff, check_stores_iff, check_sources_iff,
}
use anaysitics_service.ControlPlane.Source.{SourceConfig}
use anaysitics_service.ControlPlane.Validate.{Error}

pub record IsAccepted ⦃cases : CaseTable⦄ (c : Config) : Type 0 where
  pub bus : HasBus c
  pub kafka_routes : HasKafkaRoutes c
  pub resolver : HasResolver c
  pub stores : HasStores c
  pub sources : HasSources c

-- Only the sources change.
pub decode_sources_keeps :
    (env : Environment) (c c' : Config)
    → decode_sources env c ≡ ok c'
    → (sources : List SourceConfig) × (record c { sources = sources } ≡ c')
unfolding decode_sources
decode_sources_keeps env c c' h = keeps _ (env.unmarshal_sources _) h
  where
    keeps :
        (blank : Bool) (r : Result Error (List SourceConfig))
        → (if blank then ok c else (r >>= λ sources. ok (record c { sources = sources }))) ≡ ok c'
        → (sources : List SourceConfig) × (record c { sources = sources } ≡ c')
    keeps true r h = (c.sources, cc)
    keeps false (ok sources) h = (sources, cc)
    keeps false (err e) h = absurd (cc)

-- The checks before the sources are decoded do not look at them.
Early : ⦃cases : CaseTable⦄ → Config → Type 0
Early c =
    (check_event_bus c ≡ ok tt)
    × (check_kafka_routes c ≡ ok tt)
    × (check_resolver c ≡ ok tt)
    × (check_stores c ≡ ok tt)

Early-decode_sources :
    ⦃cases : CaseTable⦄ (env : Environment) (c c' : Config)
    → decode_sources env c ≡ ok c'
    → Early c ≡ Early c'
unfolding Early check_event_bus check_kafka_routes check_resolver check_stores
    validate_kafka_security_config has_kafka_tls_material has_kafka_sasl_material
Early-decode_sources env c c' h =
    let (sources, same) = decode_sources_keeps env c c' h in rw (sym same) refl

IsAccepted_iff :
    ⦃cases : CaseTable⦄ (c : Config) → (Early c × (check_sources c ≡ ok tt)) ↔ IsAccepted c
unfolding Early
IsAccepted_iff c = (
  λ ((p, q, r, s), t). record {
    bus = (check_event_bus_iff c).0 p;
    kafka_routes = (check_kafka_routes_iff c).0 q;
    resolver = (check_resolver_iff c).0 r;
    stores = (check_stores_iff c).0 s;
    sources = (check_sources_iff c).0 t;
  },
  λ a. (
    (
      (check_event_bus_iff c).1 a.bus,
      (check_kafka_routes_iff c).1 a.kafka_routes,
      (check_resolver_iff c).1 a.resolver,
      (check_stores_iff c).1 a.stores,
    ),
    (check_sources_iff c).1 a.sources,
  ),
)

-- What follows the credentials.
checked_iff :
    ⦃cases : CaseTable⦄ (env : Environment) (c d : Config)
    → ((do
      check_event_bus c
      check_kafka_routes c
      check_resolver c
      check_stores c
      c' ← decode_sources env c
      check_sources c'
      ok c')
        ≡ ok d)
      ↔ ((decode_sources env c ≡ ok d) × IsAccepted d)
unfolding Early
checked_iff env c d = (
  λ h.
      let (p, h) = (>>-iff _ _ d).0 h in
      let (q, h) = (>>-iff _ _ d).0 h in
      let (r, h) = (>>-iff _ _ d).0 h in
      let (s, h) = (>>-iff _ _ d).0 h in
      let (c', e, h) = (>>=-iff (decode_sources env c) _ d).0 h in
      let (t, h) = (>>-iff _ _ d).0 h in
      let same : c' ≡ d = cc in
      let decoded = subst (λ x. decode_sources env c ≡ ok x) same e in
      (
        decoded,
        (IsAccepted_iff d).0 (
          subst (λ early. early) (Early-decode_sources env c d decoded) (p, q, r, s),
          subst (λ c'. check_sources c' ≡ ok tt) same t,
        ),
      ),
  λ (decoded, a).
      let (early, t) = (IsAccepted_iff d).1 a in
      let (p, q, r, s) =
        subst (λ early. early) (sym (Early-decode_sources env c d decoded)) early in
      (>>-iff _ _ d).1 (
        p,
        (>>-iff _ _ d).1 (
          q,
          (>>-iff _ _ d).1 (
            r,
            (>>-iff _ _ d).1 (
              s,
              (>>=-iff (decode_sources env c) _ d).1 (d, decoded, (>>-iff _ _ d).1 (t, refl)),
            ),
          ),
        ),
      ),
)

-- A configuration is returned exactly if the credentials and the sources can be decoded, and they
-- make, with the settings, a configuration with all that is checked: a durable queue unless the direct
-- mode is allowed, TLS and SASL settings that fit each other for Kafka, a Kafka bus and a credential for each Kafka route, a source of source
-- configurations, a token and a store for readback, and both stores, a consumer and a durable queue
-- for ingestion.
pub load_from_env_iff :
    ⦃cases : CaseTable⦄ (env : Environment) (c : Config)
    → (load_from_env env ≡ ok c) ↔ (
        (credentials : List QueryTokenCredential) × (query_credentials_from_env env
            (read_settings env).query_token
          ≡ ok credentials)
        × (decode_sources env (with_credentials (read_settings env) credentials) ≡ ok c)
        × IsAccepted c)
unfolding load_from_env
load_from_env_iff env c = (
  λ h.
      let (credentials, p, q) = (>>=-iff (query_credentials_from_env env _) _ c).0 h in
      let (r, a) = (checked_iff env _ c).0 q in (credentials, p, r, a),
  λ (credentials, p, r, a).
      (>>=-iff (query_credentials_from_env env _) _ c).1
        (credentials, p, (checked_iff env _ c).1 (r, a)),
)

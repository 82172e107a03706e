-- ===== src/CollectApi/App.antt =====
-- internal/collectapi/handler.go: the options of the application, and the routes that it serves.
pub mod Paths
pub mod Accepted
pub mod Registered
use anaysitics_service.Base.{
  Bool, true, false, ◌||◌, ◌&&◌, not, nat_eq, List, [], ◌∷◌, ◌++◌, Option, none, some, Result, ok,
  err, ◌>>=◌, ◌>>◌, if◌then◌else◌, String,
}
use anaysitics_service.Base.Table.{find}
use anaysitics_service.Base.Text.{Text, text, is_empty, trim_space}
use anaysitics_service.ControlPlane.SchemaBound.{Resolver}
use anaysitics_service.CollectApi.Credentials.{QueryCredential, normalize_query_credentials}
use anaysitics_service.CollectApi.Gates.{no_credentials}
use anaysitics_service.CollectApi.Handler.{KafkaSource}
use anaysitics_service.Geoip.{GeoLocation}
use anaysitics_service.CollectApi.Storage.{EventReader, PropertyCatalogReader}

-- Options, in a world W with an event bus of type Bus. The clock and the user agent parser are passed
-- on unread.
pub record Options (W Bus : Type 0) : Type 0 where
  pub collect_path : Text
  pub health_path : Text
  pub tracker_path : Text
  pub events_path : Text
  pub goals_path : Text
  pub realtime_path : Text
  pub properties_path : Text
  pub kafka_diagnostics_path : Text
  pub kafka_metrics_path : Text
  pub swagger_enabled : Bool
  pub swagger_path : Text
  pub openapi_file : Text
  pub trust_forwarded_headers : Bool
  pub tracker_script : Text
  pub resolver : Option (Resolver W)
  pub bus : Option Bus
  pub query_reader : Option (EventReader W)
  pub property_catalog : Option (PropertyCatalogReader W)
  pub query_token : Text
  pub query_tokens : List Text
  pub query_credentials : List QueryCredential
  pub kafka_diagnostics : Option (KafkaSource W)
  pub kafka_metrics : Option (KafkaSource W)
  pub geo_resolver : Option (Text → Option GeoLocation)

-- errors.New, with the names that a message is put together from.
pub data OptionsError : Type 0 where
  refused : String → OptionsError
  must_start_with_slash : String → OptionsError
  conflicts : String → String → OptionsError

abbrev pub demand : Bool → OptionsError → Result OptionsError (Unit {0})
demand true e = ok tt
demand false e = err e

-- `if path == "" { path = fallback }`
abbrev pub or_path : Text → Text → Text
or_path path fallback = if is_empty path then fallback else path

abbrev pub given : {A : Type 0} → Option A → Bool
given none = false
given (some a) = true

-- strings.HasPrefix(path, "/")
abbrev pub has_slash : Text → Bool
has_slash [] = false
has_slash (c ∷ s) = nat_eq c b'/'

unfoldable pub is_route_path : Text → Bool
is_route_path path = not (is_empty (trim_space path) || not (has_slash path))

-- An entry of the map `paths`, by its path, with its name.
abbrev pub Named : Type 0
Named = Text × String

abbrev pub when_given : {A : Type 0} → Bool → A → List A → List A
when_given true entry rest = entry ∷ rest
when_given false entry rest = rest

-- What follows `prior := seen[path]`.
abbrev pub no_conflict : String → Option String → Result OptionsError (Unit {0})
no_conflict name none = ok tt
no_conflict name (some prior) = err (conflicts name prior)

-- The loop over the paths, in the order in which the map is walked.
unfoldable pub check_paths : List Named → List Named → Result OptionsError (Unit {0})
check_paths seen [] = ok tt
check_paths seen ((path, name) ∷ rest) = do
  demand (is_route_path path) (must_start_with_slash name)
  no_conflict name (find path seen)
  check_paths ((path, name) ∷ seen) rest

module _ {W Bus : Type 0} where
  -- The defaults at the start of newHandler.
  unfoldable pub with_defaults : Options W Bus → Options W Bus
  with_defaults opts = record opts {
    collect_path = or_path opts.collect_path (text "/collect");
    health_path = or_path opts.health_path (text "/healthz");
    tracker_path = or_path opts.tracker_path (text "/tracker.js");
    events_path = or_path opts.events_path (text "/v1/events");
    goals_path = or_path opts.goals_path (text "/v1/goals");
    realtime_path = or_path opts.realtime_path (text "/v1/realtime");
    properties_path = or_path opts.properties_path (text "/v1/properties");
    kafka_diagnostics_path = or_path opts.kafka_diagnostics_path (text "/v1/kafka/diagnostics");
    kafka_metrics_path = or_path opts.kafka_metrics_path (text "/v1/kafka/metrics");
    swagger_path = or_path opts.swagger_path (text "/swagger");
  }

  -- The collapse of the legacy tokens into the credentials.
  unfoldable pub with_credentials : Options W Bus → Options W Bus
  with_credentials opts = record opts {
    query_credentials =
        normalize_query_credentials opts.query_token opts.query_tokens opts.query_credentials;
    query_tokens = [];
  }

  unfoldable pub route_paths : Options W Bus → List Named
  route_paths opts =
      (opts.collect_path, "collect path")
      ∷ (opts.health_path, "health path")
      ∷ (opts.tracker_path, "tracker path")
      ∷ (opts.events_path, "events path")
      ∷ (opts.goals_path, "goals path")
      ∷ (opts.realtime_path, "realtime path")
      ∷ (opts.properties_path, "properties path")
      ∷ when_given (given opts.kafka_diagnostics)
          (opts.kafka_diagnostics_path, "kafka diagnostics path")
          (when_given (given opts.kafka_metrics) (opts.kafka_metrics_path, "kafka metrics path")
            (when_given opts.swagger_enabled (opts.swagger_path, "swagger path") []))

  unfoldable pub has_read_routes : Options W Bus → Bool
  has_read_routes opts =
      given opts.query_reader
      || given opts.property_catalog
      || given opts.kafka_diagnostics
      || given opts.kafka_metrics

  module _ (order : List Named → List Named) where
    -- validateRoutePaths; `order` is the order in which the map is walked.
    unfoldable pub validate_route_paths : Options W Bus → Result OptionsError (Unit {0})
    validate_route_paths opts = do
      check_paths [] (order (route_paths opts))
      demand (not (opts.swagger_enabled && is_empty (trim_space opts.openapi_file)))
          (refused "openapi file is required when swagger is enabled")

    -- newHandler; a handler is its options.
    unfoldable pub new_handler : Options W Bus → Result OptionsError (Options W Bus)
    new_handler opts = do
      demand (given opts.resolver) (refused "control-plane resolver is required")
      demand (given opts.bus) (refused "event bus is required")
      let opts' = with_credentials (with_defaults opts)
      demand (not (has_read_routes opts' && no_credentials opts'.query_credentials))
          (refused "query token is required when internal read routes are configured")
      validate_route_paths opts'
      ok opts'

-- What a route calls, under which method, or under a prefix.
pub data Target : Type 0 where
  health tracker collect realtime events goals properties : Target
  kafka_diagnostics_route kafka_metrics_route swagger : Target

-- Handler.registerRoutes, the routes in the order in which they are added; what no route takes is
-- answered by status 404.
unfoldable pub register_routes : {W Bus : Type 0} → Options W Bus → List (Text × Target)
register_routes opts =
    (opts.health_path, health)
    ∷ (opts.tracker_path, tracker)
    ∷ (opts.collect_path, collect)
    ∷ (opts.realtime_path, realtime)
    ∷ (opts.events_path, events)
    ∷ (opts.goals_path, goals)
    ∷ (opts.properties_path, properties)
    ∷ when_given (given opts.kafka_diagnostics)
        (opts.kafka_diagnostics_path, kafka_diagnostics_route)
        (when_given (given opts.kafka_metrics) (opts.kafka_metrics_path, kafka_metrics_route)
          (when_given opts.swagger_enabled (opts.swagger_path, swagger) []))

-- ===== src/Runtime/Assembly.antt =====
-- internal/runtime/runtime.go: the assembly of the runtime, its start and its end.
pub mod Balanced
pub mod Authorized
use anaysitics_service.Base.{
  Bool, true, false, ◌||◌, ◌&&◌, not, ◌==◌, List, [], ◌∷◌, ◌++◌, Option, none, some, Result, ok,
  err, String, if◌then◌else◌,
}
use anaysitics_service.Base.Action.{◌>>=◌, ◌>>◌, give, stop, settled}
use anaysitics_service.Base.Text.{Text, Text_eq, text, is_empty, trim_space, CaseTable}
use anaysitics_service.CollectApi.App.{Options, OptionsError, Named, new_handler}
use anaysitics_service.CollectApi.Handler.{KafkaSource}
use anaysitics_service.CollectApi.Storage.{EventReader, PropertyCatalogReader}
use anaysitics_service.CollectApi.Static.{App, new_app}
use anaysitics_service.CollectApi.Kafka.{KafkaDiagnosticsResponse}
use anaysitics_service.Config.{Config}
use anaysitics_service.ControlPlane.Http.Endpoint.{Addressing}
use anaysitics_service.ControlPlane.SchemaBound.{Resolver}
use anaysitics_service.ControlPlane.Validate.{Error, failure}
use anaysitics_service.Geoip.{Names, GeoReader, resolve}
use anaysitics_service.Runtime.Bus.{EventBus, new_event_bus, bus_closers, kafka_bus_from_event_bus}
use anaysitics_service.Runtime.Clients.{
  Client, geoip_reader, StartError, failed, bad_options, read_file, Libraries, Process, Assembling,
  perform, connect, close_all, or_close_all, optional_client,
}
use anaysitics_service.Runtime.Credentials.{to_query_credentials}
use anaysitics_service.Runtime.KafkaStats.{Stats, kafka_diagnostics_response_from_stats}
use anaysitics_service.Runtime.Resolver.{SourceResolver, new_source_resolver}
use anaysitics_service.Runtime.Stores.{
  Processor, new_query_reader, new_property_catalog_reader, new_ingestion_processor,
}

-- How what was assembled answers, in a world W, the contents of a file, and the order in which the
-- names of a place are walked.
pub record Parts (W : Type 0) : Type 0 where
  pub addressing : Addressing
  pub contents : Text → Text
  pub resolves : SourceResolver → Resolver W
  pub reads : Client → EventReader W
  pub catalogs : Client → PropertyCatalogReader W
  pub stats : Client → W → Stats × W
  pub geo_reader : Client → GeoReader
  pub walk_names : Names → Names

-- Runtime, where `worker` tells whether the worker was started.
pub record Runtime (W : Type 0) : Type 0 where
  pub app : App W EventBus
  pub processor : Option Processor
  pub kafka_bus : Option Client
  pub closers : List Client
  pub worker : Bool

abbrev pub map_option : {A B : Type 0} → (A → B) → Option A → Option B
map_option f none = none
map_option f (some a) = some (f a)

-- An error of another part.
abbrev pub as_start_error : {E A : Type 0} → (E → StartError) → Result E A → Result StartError A
as_start_error f (ok a) = ok a
as_start_error f (err e) = err (f e)

-- newKafkaDiagnosticsSource and newKafkaMetricsSource, which differ in the setting and the message.
unfoldable pub new_kafka_source :
    {W : Type 0}
    → Parts W
    → Bool
    → String
    → Option Client
    → Result StartError (Option (KafkaSource W))
new_kafka_source parts false message kafka_bus = ok none
new_kafka_source parts true message none = err (failed (failure message))
new_kafka_source {W} parts true message (some bus) = ok (some (λ w. snapshot (parts.stats bus w)))
  where
    snapshot : Stats × W → Option KafkaDiagnosticsResponse × W
    snapshot (stats, w) = (some (kafka_diagnostics_response_from_stats stats), w)

-- What the assembly has opened before the application is built.
pub record Opened (W : Type 0) : Type 0 where
  pub resolver : SourceResolver
  pub bus : EventBus
  pub kafka_diagnostics : Option (KafkaSource W)
  pub kafka_metrics : Option (KafkaSource W)
  pub geo : Option Client
  pub query_reader : Option Client
  pub property_catalog : Option Client
  pub closers : List Client

-- The options of New. A nil *geoip.Resolver makes an interface that is not nil, so that a resolver is
-- always given.
unfoldable pub app_options : {W : Type 0} → Parts W → Config → Opened W → Options W EventBus
app_options parts c o = record {
  collect_path = c.collect_path;
  health_path = c.health_path;
  tracker_path = c.tracker_path;
  events_path = c.events_path;
  goals_path = c.goals_path;
  realtime_path = c.realtime_path;
  properties_path = c.properties_path;
  kafka_diagnostics_path = c.kafka_diagnostics_path;
  kafka_metrics_path = c.kafka_metrics_path;
  swagger_enabled = c.swagger_enabled;
  swagger_path = c.swagger_path;
  openapi_file = c.openapi_file;
  trust_forwarded_headers = c.trust_forwarded_headers;
  tracker_script = parts.contents c.tracker_file;
  resolver = some (parts.resolves o.resolver);
  bus = some o.bus;
  query_reader = map_option parts.reads o.query_reader;
  property_catalog = map_option parts.catalogs o.property_catalog;
  query_token = c.query_token;
  query_tokens = c.query_tokens;
  query_credentials = to_query_credentials c.query_credentials;
  kafka_diagnostics = o.kafka_diagnostics;
  kafka_metrics = o.kafka_metrics;
  geo_resolver = some (resolve parts.walk_names (map_option parts.geo_reader o.geo));
}

module _ {W : Type 0} ⦃cases : CaseTable⦄ (libs : Libraries W) (parts : Parts W) where
  -- newGeoResolver, with NewResolver
  unfoldable pub new_geo_resolver : Config → Assembling W (Option Client)
  new_geo_resolver c = if is_empty c.geoip_mmdb_file then give none else (do
    client ← connect libs (geoip_reader (trim_space c.geoip_mmdb_file))
    give (some client))

  -- The first part of New, up to the options of the application.
  unfoldable pub open_parts : Config → Assembling W (Opened W)
  open_parts c = do
    resolver ← settled (as_start_error failed (new_source_resolver parts.addressing c))
    geo ← or_close_all libs [] (new_geo_resolver c)
    let with_geo = [] ++ optional_client geo
    bus ← or_close_all libs with_geo (new_event_bus libs c)
    let with_bus = with_geo ++ bus_closers bus
    let kafka_bus = kafka_bus_from_event_bus bus
    diagnostics ← or_close_all libs with_bus (
        settled (
          new_kafka_source parts c.kafka_diagnostics_enabled
            "kafka diagnostics require a Kafka event bus" kafka_bus))
    metrics ← or_close_all libs with_bus (
        settled (
          new_kafka_source parts c.kafka_metrics_enabled "kafka metrics require a Kafka event bus"
            kafka_bus))
    or_close_all libs with_bus (perform libs (read_file c.tracker_file))
    reader ← or_close_all libs with_bus (new_query_reader libs c)
    let with_reader = with_bus ++ optional_client reader
    catalog ← or_close_all libs with_reader (new_property_catalog_reader libs c)
    give (record {
      resolver = resolver;
      bus = bus;
      kafka_diagnostics = diagnostics;
      kafka_metrics = metrics;
      geo = geo;
      query_reader = reader;
      property_catalog = catalog;
      closers = with_reader ++ optional_client catalog;
    })

  -- What follows newIngestionProcessor.
  unfoldable pub processor_or_close :
      Result StartError Processor × List Client → Assembling W (Option Processor × List Client)
  processor_or_close (ok processor, closers) = give (some processor, closers)
  processor_or_close (err e, closers) = or_close_all libs closers (stop e)

  unfoldable pub new_processor :
      Config → List Client → Assembling W (Option Processor × List Client)
  new_processor c closers =
      if c.ingestion_enabled
      then (new_ingestion_processor libs c closers >>= processor_or_close)
      else give (none, closers)

  -- New; `order` is the order in which the map of the route paths is walked.
  unfoldable pub new_runtime : (List Named → List Named) → Config → Assembling W (Runtime W)
  new_runtime order c = do
    opened ← open_parts c
    app ←
        or_close_all libs opened.closers
          (settled (as_start_error bad_options (new_app order (app_options parts c opened))))
    (processor, closers) ← new_processor c opened.closers
    give (record {
      app = app;
      processor = processor;
      kafka_bus = kafka_bus_from_event_bus opened.bus;
      closers = closers;
      worker = false;
    })

  -- Runtime.Close of a runtime that is there.
  unfoldable pub close_runtime : Runtime W → Process W → List StartError × Process W
  close_runtime r s = close_all libs r.closers s

-- Runtime.Start, with the number of workers that it starts.
unfoldable pub start : {W : Type 0} → Runtime W → Runtime W × Bool
start {W} r = start_with r.processor r.worker
  where
    start_with : Option Processor → Bool → Runtime W × Bool
    start_with none worker = (r, false)
    start_with (some processor) true = (r, false)
    start_with (some processor) false = (record r { worker = true }, true)

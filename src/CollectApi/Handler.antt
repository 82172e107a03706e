-- ===== src/CollectApi/Handler.antt =====
-- internal/collectapi: the handler with what it calls, its state, and the replies it writes.
use anaysitics_service.Base.{ℕ, Bool, List, ◌∷◌, Option, Result, ok, err}
use anaysitics_service.Base.Action.{Action}
use anaysitics_service.Base.Int.{ℤ}
use anaysitics_service.Base.Text.{Text, text}
use anaysitics_service.ControlPlane.Source.{SourceConfig}
use anaysitics_service.ControlPlane.Policy.{ReadbackRoute}
use anaysitics_service.ControlPlane.Validate.{Error, source_not_found, source_disabled}
use anaysitics_service.CollectApi.Credentials.{QueryCredential}
use anaysitics_service.CollectApi.Kafka.{KafkaDiagnosticsResponse}
use anaysitics_service.CollectApi.Request.{HttpRequest, AddressParser, client_ip}
use anaysitics_service.CollectApi.Storage.{
  RealtimeQuery, EventListQuery, EventCountQuery, PropertyCatalogQuery, EventReader,
  PropertyCatalogReader, ReadError, invalid_event_query, read_failed,
}

-- An `any` that encoding/json decoded; a float64 stands for its bits.
pub data JsonValue : Type 0 where
  json_null json_nested : JsonValue
  json_string : Text → JsonValue
  json_number : ℕ → JsonValue
  json_bool : Bool → JsonValue

pub record PropertyFilterPayload : Type 0 where
  pub scope : Text
  pub name : Text
  pub type : Text
  pub operator : Text
  pub value : JsonValue

-- The parsers and printers of libraries: time, encoding/json, `%q` of fmt, and of analytics-core the
-- check of an event name and the text of storage.ErrInvalidEventQuery.
pub record Codecs : Type 0 where
  pub parse_rfc3339_nano : Text → Option ℤ
  pub parse_rfc3339 : Text → Option ℤ
  pub format_rfc3339_nano : ℤ → Text
  pub decode_property_filter : Text → Option PropertyFilterPayload
  pub json_valid : Text → Bool
  pub json_quote : Text → Option Text
  pub invalid_query_text : Text
  pub quoted : Text → Text
  pub event_name_error : Text → Option Text
  pub addresses : AddressParser

-- KafkaDiagnosticsSource and KafkaMetricsSource; a snapshot that is not ok is none.
abbrev pub KafkaSource : Type 0 → Type 0
KafkaSource W = W → Option KafkaDiagnosticsResponse × W

-- Handler, with the options that its methods use; W is the world outside.
pub record Handler (W : Type 0) : Type 0 where
  pub query_credentials : List QueryCredential
  pub trust_forwarded_headers : Bool
  pub codecs : Codecs
  pub now : W → ℕ × W
  pub resolve : Text → W → Result Error SourceConfig × W
  pub query_reader : Option (EventReader W)
  pub property_catalog : Option (PropertyCatalogReader W)
  pub kafka_diagnostics : Option (KafkaSource W)
  pub kafka_metrics : Option (KafkaSource W)

-- The lines that log.Printf writes.
pub data LogLine : Type 0 where
  accepted_rotated_token : Text → Text → Text → Text → Text → Text → LogLine
  rejected_expired_token rejected_not_yet_valid_token : Text → Text → Text → LogLine
  rejected_out_of_scope_token : Text → Text → List ReadbackRoute → Text → LogLine
  rejected_out_of_source_token : Text → Text → List Text → Text → LogLine
  rejected_unknown_token : Text → Text → LogLine
  resolve_source_failed : Error → LogLine
  query_failed : ReadError → LogLine
  property_catalog_query_failed : ℕ → LogLine

-- A query that was run, or a snapshot of the Kafka provider that was taken.
pub data Read : Type 0 where
  read_realtime : RealtimeQuery → Read
  read_events : EventListQuery → Read
  read_count : EventCountQuery → Read
  read_catalog : PropertyCatalogQuery → Read
  read_kafka : Read

-- The world, and what the handlers did: lines logged, keys resolved with the answer, queries run;
-- the last first.
pub record ServerState (W : Type 0) : Type 0 where
  pub world : W
  pub logged : List LogLine
  pub resolved : List (Text × Result Error SourceConfig)
  pub reads : List Read

-- ErrorResponse with its status.
pub record ErrorReply : Type 0 where
  pub status : ℕ
  pub error : Text

abbrev pub reply : ℕ → Text → ErrorReply
reply status error = record { status = status; error = error }

-- A handler stops with an error response, or goes on.
abbrev pub Handling : Type 0 → Type 0 → Type 0
Handling W A = Action (ServerState W) ErrorReply A

module _ {W : Type 0} where
  abbrev pub log : LogLine → Handling W (Unit {0})
  log line s = (ok tt, record s { logged = line ∷ s.logged })

  -- What a service returned, with the state after it.
  abbrev pub after : {A : Type 0} → ServerState W → A × W → Result ErrorReply A × ServerState W
  after s (a, w) = (ok a, record s { world = w })

  abbrev pub call : {A : Type 0} → (W → A × W) → Handling W A
  call f s = after s (f s.world)

  abbrev pub resolved_state :
      Text
      → ServerState W
      → Result Error SourceConfig × W
      → Result ErrorReply (Result Error SourceConfig) × ServerState W
  resolved_state key s (answer, w) =
      (ok answer, record s { world = w; resolved = (key, answer) ∷ s.resolved })

  -- h.opts.Resolver.ResolveSource
  abbrev pub ask_resolver : Handler W → Text → Handling W (Result Error SourceConfig)
  ask_resolver h key s = resolved_state key s (h.resolve key s.world)

  -- A call of a reader.
  abbrev pub run_read : {A : Type 0} → Read → (W → A × W) → Handling W A
  run_read read f s = after (record s { reads = read ∷ s.reads }) (f s.world)

-- Handler.clientIP
abbrev pub remote_ip : {W : Type 0} → Handler W → HttpRequest → Text
remote_ip h ctx = client_ip h.codecs.addresses h.trust_forwarded_headers ctx

-- The response of Handler.writeResolveError, and the line that it logs.
unfoldable pub resolve_error_reply : Error → ErrorReply
resolve_error_reply source_not_found = reply 401 (text "invalid write key")
resolve_error_reply source_disabled = reply 403 (text "source is disabled")
resolve_error_reply other = reply 500 (text "internal server error")

unfoldable pub write_resolve_error : {W A : Type 0} → Error → Handling W A
write_resolve_error e s =
    (err (resolve_error_reply e), record s { logged = resolve_error_log e s.logged })
  where
    resolve_error_log : Error → List LogLine → List LogLine
    resolve_error_log source_not_found lines = lines
    resolve_error_log source_disabled lines = lines
    resolve_error_log other lines = resolve_source_failed other ∷ lines

-- Handler.writeQueryError
unfoldable pub write_query_error : {W A : Type 0} → ReadError → Handling W A
write_query_error (invalid_event_query message) s = (err (reply 400 message), s)
write_query_error (read_failed code) s = (
  err (reply 500 (text "internal server error")),
  record s { logged = query_failed (read_failed code) ∷ s.logged },
)

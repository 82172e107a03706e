-- ===== src/Tests/Readback.antt =====
-- internal/collectapi/query.go at a concrete request.
use anaysitics_service.Base.{
  ℕ, suc, ◌≤◌, ◌≡◌, inl, refl, true, false, ◌||◌, if◌then◌else◌, All, length, [], ◌∷◌, none, some,
  Result, ok, err, ◌==◌,
}
use anaysitics_service.Base.Int.{pos}
use anaysitics_service.Base.Text.{Text, Text_eq, text, trim_space}
use anaysitics_service.Base.Text.Case.{ascii_table}
use anaysitics_service.ControlPlane.Policy.{
  readback_route_realtime, readback_route_events, readback_route_goals, readback_route_properties,
}
use anaysitics_service.ControlPlane.Source.{SourceConfig}
use anaysitics_service.ControlPlane.Validate.{Error, source_not_found}
use anaysitics_service.Tests.Runs.{request_runs, route_runs}
use anaysitics_service.Tests.Sources.{shop'}
use anaysitics_service.Tests.Tokens.{accepted}
use anaysitics_service.CollectApi.Request.{HttpRequest, bearer_token, write_key, query_write_key}
use anaysitics_service.CollectApi.Request.Carriers.{first_set, write_key-first_set}
use anaysitics_service.CollectApi.Storage.{EventReader, EventPropertyFilter, PropertyCatalogReader}
use anaysitics_service.CollectApi.Handler.{Handler, Codecs, ServerState, json_string}
use anaysitics_service.CollectApi.Gates.{pass_gates}
use anaysitics_service.CollectApi.Gates.Complete.{pass_gates_complete}
use anaysitics_service.CollectApi.Params.{
  parse_query_limit_or_default, parse_query_int_or_default, parse_property_catalog_limit,
}
use anaysitics_service.CollectApi.Params.Bounds.{parse_property_catalog_limit_bounds}
use anaysitics_service.CollectApi.Filters.{property_filter_args, parse_property_filters}
use anaysitics_service.CollectApi.Filters.Admitted.{IsAdmitted, parse_property_filters_sound}
use anaysitics_service.CollectApi.Routes.{
  handle_realtime, handle_events, handle_goals, handle_properties,
}
use anaysitics_service.CollectApi.Routes.Isolated.{IsIsolated, readback-IsIsolated}

abbrev header : Text → Text
header name = if name == text "Authorization" then text "bearer tok_1" else []

abbrev query_value : Text → Text
query_value key =
    if key == text "write_key"
    then text "wk_shop"
    else if key == text "from" || key == text "to"
    then text "2026-01-01T00:00:00Z"
    else if key == text "event_name"
    then text "signup"
    else if key == text "limit"
    then text "25"
    else []

abbrev pub request : HttpRequest
request = record {
  header = header;
  query = query_value;
  query_args = (text "property_filter", text "{}") ∷ [];
  ip = text "10.0.0.1";
  path = text "/v1/events";
  body = [];
}

abbrev pub codecs : Codecs
codecs = record {
  parse_rfc3339_nano = λ s. some (pos 7);
  parse_rfc3339 = λ s. none;
  format_rfc3339_nano = λ t. text "2026-01-01T00:00:00Z";
  decode_property_filter = λ raw. some (record {
    scope = text "Event";
    name = text "plan";
    type = text "string";
    operator = [];
    value = json_string (text "pro");
  });
  json_valid = λ s. true;
  json_quote = λ s. none;
  invalid_query_text = text "invalid event query";
  quoted = λ s. s;
  event_name_error = λ name. none;
  addresses = record { parse_addr = λ s. some s; parse_addr_port = λ s. none };
}

abbrev pub reader : EventReader ℕ
reader = record {
  list_realtime = λ query w. (ok [], suc w);
  list_events = λ query w. (ok [], suc w);
  count_events = λ query w. (ok (pos 3), suc w);
  with_evidence = none;
}

abbrev pub catalog : PropertyCatalogReader ℕ
catalog = record { list_property_catalog_entries = λ query w. (ok [], suc w) }

abbrev resolve_shop : Text → ℕ → Result Error SourceConfig × ℕ
resolve_shop key w = (if key == text "wk_shop" then ok shop' else err source_not_found, w)

abbrev pub server : Handler ℕ
server = record {
  query_credentials = accepted;
  trust_forwarded_headers = false;
  codecs = codecs;
  now = λ w. (150, w);
  resolve = resolve_shop;
  query_reader = some reader;
  property_catalog = some catalog;
  kafka_diagnostics = none;
  kafka_metrics = none;
}

abbrev pub idle : ServerState ℕ
idle = record { world = 0; logged = []; resolved = []; reads = [] }

one_read : length (handle_events server request idle).1.reads ≡ 1
unfolding route_runs
one_read = refl

readback-IsIsolated_example :
    IsIsolated server request idle readback_route_realtime (handle_realtime server request idle).1
    × IsIsolated server request idle readback_route_events (handle_events server request idle).1
    × IsIsolated server request idle readback_route_goals (handle_goals server request idle).1
    × IsIsolated server request idle readback_route_properties
        (handle_properties server request idle).1
readback-IsIsolated_example = readback-IsIsolated server request idle

pass_gates_complete_example : (pass_gates server request readback_route_events idle).0 ≡ ok shop'
unfolding request_runs
pass_gates_complete_example =
    pass_gates_complete server request readback_route_events idle 150 0 0 shop' refl (inl refl) refl
      refl refl refl refl refl

limit_25 : parse_query_limit_or_default request (text "limit") (pos 100) ≡ ok (pos 25)
unfolding route_runs
limit_25 = refl

int_25 : parse_query_int_or_default request (text "limit") (pos 100) ≡ ok (pos 25)
unfolding route_runs
int_25 = refl

catalog_25 : parse_property_catalog_limit request ≡ ok (pos 25)
unfolding route_runs
catalog_25 = refl

parse_property_catalog_limit_bounds_example : (m : ℕ) × (pos 25 ≡ pos m) × (1 ≤ m) × (m ≤ 200)
parse_property_catalog_limit_bounds_example =
    parse_property_catalog_limit_bounds request (pos 25) catalog_25

abbrev pub plan_filter : EventPropertyFilter
plan_filter = record {
  scope = text "event";
  name = text "plan";
  value_type = text "string";
  operator = text "eq";
  string_value = text "pro";
  number_value = 0;
  bool_value = false;
}

pub plan_parsed : parse_property_filters codecs shop' request ≡ ok (plan_filter ∷ [])
unfolding route_runs
plan_parsed = refl

parse_property_filters_sound_example :
    (length (plan_filter ∷ []) ≡ length (property_filter_args request.query_args))
    × (length (plan_filter ∷ []) ≤ 5)
    × All (IsAdmitted codecs shop') (plan_filter ∷ [])
parse_property_filters_sound_example =
    parse_property_filters_sound codecs shop' request (plan_filter ∷ []) plan_parsed

write_key-first_set_example :
    (write_key request (text "wk_body")
      ≡ first_set (
          trim_space (request.header (text "X-SimpleTrack-Write-Key"))
          ∷ bearer_token (request.header (text "Authorization"))
          ∷ trim_space (request.query (text "write_key"))
          ∷ trim_space (text "wk_body")
          ∷ []))
    × (query_write_key request
        ≡ first_set (
            trim_space (request.header (text "X-SimpleTrack-Write-Key"))
            ∷ trim_space (request.query (text "write_key"))
            ∷ []))
write_key-first_set_example = write_key-first_set request (text "wk_body")

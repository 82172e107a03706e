-- ===== src/Tests/Apps.antt =====
-- internal/collectapi/handler.go and internal/controlplane/http_resolver.go at concrete options.
use mathlib.Core.List.{Nodup}
use mathlib.Core.List.Perm
use anaysitics_service.Base.{ℕ, ◌≡◌, refl, true, false, List, [], map, none, some, ok, err, All}
use anaysitics_service.Base.Int.{pos, leb_ℤ}
use anaysitics_service.Base.Text.{Text_eq, text, is_empty, trim_space}
use anaysitics_service.Base.Text.Case.{ascii_table}
use anaysitics_service.CollectApi.App.{
  Options, Named, with_defaults, with_credentials, new_handler, register_routes, is_route_path,
  must_start_with_slash, conflicts,
}
use anaysitics_service.CollectApi.App.Accepted.{IsWorking, new_handler_iff}
use anaysitics_service.CollectApi.App.Registered.{route_path, register_routes_distinct}
use anaysitics_service.ControlPlane.Http.{HttpResolver}
use anaysitics_service.ControlPlane.Http.Endpoint.{
  Url, Addressing, HttpResolverOptions, control_plane_client, new_http_resolver,
}
use anaysitics_service.ControlPlane.Http.Endpoint.Protected.{IsProtected, new_http_resolver_iff}
use anaysitics_service.ControlPlane.Validate.{source_not_found}
use anaysitics_service.Tests.Readback.{reader, catalog}
use anaysitics_service.Tests.Runs.{app_runs}

-- Readback is configured, and the documentation is served.
abbrev pub options : Options ℕ ℕ
options = record {
  collect_path = [];
  health_path = [];
  tracker_path = [];
  events_path = [];
  goals_path = text "/goals";
  realtime_path = [];
  properties_path = [];
  kafka_diagnostics_path = [];
  kafka_metrics_path = [];
  swagger_enabled = true;
  swagger_path = [];
  openapi_file = text "api/openapi.yaml";
  trust_forwarded_headers = false;
  tracker_script = [];
  resolver = some (λ key w. (err source_not_found, w));
  bus = some 0;
  query_reader = some reader;
  property_catalog = some catalog;
  query_token = text "tok";
  query_tokens = [];
  query_credentials = [];
  kafka_diagnostics = none;
  kafka_metrics = none;
  geo_resolver = none;
}

abbrev completed : Options ℕ ℕ
completed = with_credentials (with_defaults options)

abbrev as_written : List Named → List Named
as_written paths = paths

accepts : new_handler as_written options ≡ ok completed
unfolding app_runs
accepts = refl

twice :
    new_handler as_written (record options { goals_path = text "/collect" })
    ≡ err (conflicts "goals path" "collect path")
unfolding app_runs
twice = refl

no_slash :
    new_handler as_written (record options { goals_path = text "goals" })
    ≡ err (must_start_with_slash "goals path")
unfolding app_runs
no_slash = refl

new_handler_iff_example : (completed ≡ completed) × IsWorking completed
new_handler_iff_example =
    (new_handler_iff as_written (λ paths. Perm.refl paths) options completed).0 accepts

register_routes_distinct_example :
    All (λ route. is_route_path (route_path route) ≡ true) (register_routes completed)
    × Nodup (map route_path (register_routes completed))
register_routes_distinct_example =
    register_routes_distinct as_written (λ paths. Perm.refl paths) options completed accepts

-- A container network without TLS.
abbrev pub net : Addressing
net = record {
  parse_url = λ s. some (record { scheme = text "http"; host = text "saas:8080" });
  split_host_port = λ s. some (text "saas");
  parse_addr = λ s. none;
}

abbrev resolver_options : HttpResolverOptions
resolver_options = record {
  endpoint = text " http://saas:8080/resolve ";
  bearer_token = text "secret";
  timeout = pos 0;
  cache_ttl = pos 5;
  allow_insecure_loopback = false;
  allow_insecure_private_network = true;
  client = none;
}

abbrev resolver : HttpResolver
resolver = record {
  endpoint = text "http://saas:8080/resolve";
  bearer_token = text "secret";
  cache_ttl = pos 5;
  cache = [];
}

builds : new_http_resolver net resolver_options ≡ ok resolver
unfolding app_runs
builds = refl

new_http_resolver_iff_example :
    ((url : Url) × (net.parse_url (trim_space resolver_options.endpoint) ≡ some url)
      × (is_empty url.scheme ≡ false)
      × (is_empty url.host ≡ false)
      × IsProtected net resolver_options url
      × (is_empty (trim_space resolver_options.endpoint) ≡ false)
      × (is_empty (trim_space resolver_options.bearer_token) ≡ false)
      × (◌≡◌ {A = HttpResolver}
          (record {
            endpoint = trim_space resolver_options.endpoint;
            bearer_token = trim_space resolver_options.bearer_token;
            cache_ttl = resolver_options.cache_ttl;
            cache = [];
          })
          resolver))
    × ((control_plane_client resolver_options).follows_redirects ≡ false)
    × (leb_ℤ (control_plane_client resolver_options).timeout (pos 0) ≡ false)
new_http_resolver_iff_example =
    let (built, stays, positive) = new_http_resolver_iff net resolver_options resolver in
    (built.0 builds, stays, positive)

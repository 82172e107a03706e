-- ===== src/Runtime/Resolver.antt =====
-- internal/runtime/runtime.go: the resolver of the source configurations.
use anaysitics_service.Base.{
  Bool, true, false, ◌||◌, ◌&&◌, ◌==◌, List, [], ◌∷◌, none, Result, ok, err, ◌>>=◌, if◌then◌else◌,
}
use anaysitics_service.Base.Text.{Text_eq, text, is_empty, CaseTable}
use anaysitics_service.Config.{Config}
use anaysitics_service.ControlPlane.Http.{HttpResolver}
use anaysitics_service.ControlPlane.Http.Endpoint.{
  Addressing, HttpResolverOptions, new_http_resolver,
}
use anaysitics_service.ControlPlane.Memory.{MemoryResolver, new_memory_resolver}
use anaysitics_service.ControlPlane.SchemaBound.{SchemaSurfaceKey, allow_sources}
use anaysitics_service.ControlPlane.Source.{SourceConfig}
use anaysitics_service.ControlPlane.Validate.{Error, failure}

-- The resolvers that can be configured; NewSchemaBoundResolver binds one to the surface of the sources.
pub data SourceResolver : Type 0 where
  memory_resolver : MemoryResolver → SourceResolver
  http_resolver : HttpResolver → SourceResolver
  schema_bound_resolver : SourceResolver → List SchemaSurfaceKey → SourceResolver

-- `len(xs) > 0`
abbrev pub has_entries : List SourceConfig → Bool
has_entries [] = false
has_entries (x ∷ xs) = true

-- The options of the HTTP resolver.
unfoldable pub resolver_options : Config → HttpResolverOptions
resolver_options c = record {
  endpoint = c.control_plane_url;
  bearer_token = c.control_plane_token;
  timeout = c.control_plane_timeout;
  cache_ttl = c.control_plane_cache_ttl;
  allow_insecure_loopback = c.control_plane_allow_insecure_loopback;
  allow_insecure_private_network = c.control_plane_allow_insecure_private_network;
  client = none;
}

module _ ⦃cases : CaseTable⦄ (net : Addressing) where
  -- The switch over the source of the source configurations.
  unfoldable pub select_resolver : Config → Result Error SourceResolver
  select_resolver c =
      if is_empty c.source_resolver || c.source_resolver == text "memory"
      then (do r ← new_memory_resolver c.sources; ok (memory_resolver r))
      else if c.source_resolver == text "http"
      then (do r ← new_http_resolver net (resolver_options c); ok (http_resolver r))
      else err (failure "unsupported source resolver")

  -- newSourceResolver
  unfoldable pub new_source_resolver : Config → Result Error SourceResolver
  new_source_resolver c = do
    resolver ← select_resolver c
    if c.ingestion_enabled && c.source_resolver == text "http" && has_entries c.sources
        then (do allow ← allow_sources [] c.sources; ok (schema_bound_resolver resolver allow))
        else ok resolver

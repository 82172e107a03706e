-- ===== src/ControlPlane/Http.antt =====
-- internal/controlplane/http_resolver.go: HTTPResolver, which asks the control plane for a source
-- and revalidates what it has cached. Each method takes the resolver and the world outside.
pub mod Decode
pub mod Entries
pub mod Validated
pub mod Honest
pub mod Revalidated
pub mod Transparent
pub mod Endpoint
use anaysitics_service.Base.{
  ℕ, ◌+◌, ◌*◌, Bool, true, false, ◌||◌, ◌==◌, nat_eq, ltb, ℕ_eq, List, [], ◌++◌, take, Option, none,
  some, Result, ok, err, ◌>>=◌, ◌>>◌, if◌then◌else◌,
}
use anaysitics_service.Base.Int.{ℤ, pos, pos_part, leb_ℤ}
use anaysitics_service.Base.Table.{find, without, put}
use anaysitics_service.Base.Text.{Text, Text_eq, text, is_empty, trim_space, CaseTable}
use anaysitics_service.ControlPlane.Source.{SourceConfig, normalize}
use anaysitics_service.ControlPlane.Validate.{
  Error, source_not_found, source_disabled, unexpected_status, require, validate_source_config,
}

-- maxRuntimeConfigResponseBytes, 64 << 10.
abbrev pub max_runtime_config_response_bytes : ℕ
max_runtime_config_response_bytes = 64 * 1024

-- Time is counted in nanoseconds.
pub record CachedSourceConfig : Type 0 where
  pub source : SourceConfig
  pub etag : Text
  pub expires_at : ℕ

pub record HttpResolver : Type 0 where
  pub endpoint : Text
  pub bearer_token : Text
  pub cache_ttl : ℤ
  pub cache : List (Text × CachedSourceConfig)

-- The POST request: the write key is the body, and the headers that vary are fields.
pub record Request : Type 0 where
  pub endpoint : Text
  pub write_key : Text
  pub authorization : Text
  pub if_none_match : Option Text

pub record Response : Type 0 where
  pub status_code : ℕ
  pub etag : Text
  pub body : List ℕ

-- What the resolver calls: the clock, the HTTP client (with its construction of the request), and
-- the JSON decoder of a source configuration.
pub record ControlPlaneClient (W : Type 0) : Type 0 where
  pub now : W → ℕ × W
  pub do_request : Request → W → Result Error Response × W
  pub decode : List ℕ → Result Error SourceConfig

-- What fetchSource returns beside an error.
pub record Fetched : Type 0 where
  pub source : SourceConfig
  pub etag : Text
  pub not_modified : Bool

-- SourceConfig{}
abbrev pub zero_source : SourceConfig
zero_source = record {
  write_key = [];
  enabled = false;
  tenant_id = [];
  project_id = [];
  source_id = [];
  source_type = [];
  allowed_origins = [];
  allowed_property_filters = [];
  readback_policy = record { realtime = false; events = false; properties = false; goals = false };
  bot_user_agents = [];
  internal_cidrs = [];
  internal_ips = [];
  session_salt = [];
  visit_salt = [];
  visit_window = pos 0;
  visit_window_seconds = pos 0;
  client_hash_salt = [];
  include_client_fingerprint = false;
}

-- The conditional header is sent for an entity tag that is not blank.
unfoldable pub resolve_request : HttpResolver → Text → Text → Request
resolve_request r write_key etag = record {
  endpoint = r.endpoint;
  write_key = write_key;
  authorization = text "Bearer " ++ r.bearer_token;
  if_none_match = if is_empty (trim_space etag) then none else some (trim_space etag);
}

module _ {W : Type 0} (client : ControlPlaneClient W) where
  -- HTTPResolver.cached
  unfoldable pub live_entry :
      Option CachedSourceConfig
      → Text
      → HttpResolver
      → W
      → Option CachedSourceConfig × HttpResolver × W
  live_entry none write_key r w = (none, record r { cache = without write_key r.cache }, w)
  live_entry (some entry) write_key r w =
      let (time, w') = client.now w in
      if ltb time entry.expires_at
      then (some entry, r, w')
      else (none, record r { cache = without write_key r.cache }, w')

  unfoldable pub cached : Text → HttpResolver → W → Option CachedSourceConfig × HttpResolver × W
  unfolding live_entry
  cached write_key r w =
      if leb_ℤ r.cache_ttl (pos 0)
      then (none, r, w)
      else live_entry (find write_key r.cache) write_key r w

  -- HTTPResolver.store
  unfoldable pub store : Text → SourceConfig → Text → HttpResolver → W → HttpResolver × W
  store write_key source etag r w =
      if leb_ℤ r.cache_ttl (pos 0)
      then (r, w)
      else let (time, w') = client.now w in
        let entry : CachedSourceConfig = record {
          source = source;
          etag = trim_space etag;
          expires_at = time + pos_part r.cache_ttl;
        } in
        (record r { cache = put write_key entry r.cache }, w')

  module _ ⦃cases : CaseTable⦄ where
    -- decodeRuntimeSource
    unfoldable pub decode_runtime_source : List ℕ → Text → Result Error SourceConfig
    decode_runtime_source body write_key = do
      decoded ← client.decode (take max_runtime_config_response_bytes body)
      let source = normalize decoded
      require (source.write_key == write_key) "control-plane response write key mismatch"
      validate_source_config source
      if source.enabled then ok source else err source_disabled

    -- The switch of fetchSource on the status code.
    unfoldable pub interpret : Text → Response → Result Error Fetched
    interpret write_key response =
        if nat_eq response.status_code 200
        then (do
          source ← decode_runtime_source response.body write_key
          ok (record { source = source; etag = trim_space response.etag; not_modified = false }))
        else if nat_eq response.status_code 304
        then ok
            (record { source = zero_source; etag = trim_space response.etag; not_modified = true })
        else if nat_eq response.status_code 404
        then err source_not_found
        else if nat_eq response.status_code 403 || nat_eq response.status_code 410
        then err source_disabled
        else err (unexpected_status response.status_code)

    -- HTTPResolver.fetchSource
    unfoldable pub fetch_source : HttpResolver → Text → Text → W → Result Error Fetched × W
    fetch_source r write_key etag w =
        let (answer, w') = client.do_request (resolve_request r write_key etag) w in
        ((do response ← answer; interpret write_key response), w')

    -- What is stored and returned for an answer of the control plane.
    unfoldable pub keep_fetched :
        Text
        → Result Error Fetched
        → HttpResolver
        → W
        → Result Error SourceConfig × HttpResolver × W
    keep_fetched write_key (err e) r w = (err e, r, w)
    keep_fetched write_key (ok fetched) r w =
        let (r', w') = store write_key fetched.source fetched.etag r w in
        (ok fetched.source, r', w')

    unfoldable pub keep_revalidated :
        CachedSourceConfig
        → Text
        → Result Error Fetched
        → HttpResolver
        → W
        → Result Error SourceConfig × HttpResolver × W
    keep_revalidated entry write_key (err e) r w = (err e, r, w)
    keep_revalidated entry write_key (ok fetched) r w =
        if fetched.not_modified
        then (let (r', w') = store write_key entry.source entry.etag r w in
            (ok entry.source, r', w'))
        else (let (r', w') = store write_key fetched.source fetched.etag r w in
            (ok fetched.source, r', w'))

    unfoldable pub resolve_from :
        Option CachedSourceConfig
        → Text
        → HttpResolver
        → W
        → Result Error SourceConfig × HttpResolver × W
    resolve_from (some entry) write_key r w =
        let (fetched, w') = fetch_source r write_key entry.etag w in
        keep_revalidated entry write_key fetched r w'
    resolve_from none write_key r w =
        let (fetched, w') = fetch_source r write_key [] w in keep_fetched write_key fetched r w'

    -- HTTPResolver.ResolveSource on a receiver that is not nil.
    unfoldable pub resolve_source :
        Text → HttpResolver → W → Result Error SourceConfig × HttpResolver × W
    resolve_source write_key r w =
        let key = trim_space write_key in
        if is_empty key
        then (err source_not_found, r, w)
        else (let (entry, r', w') = cached key r w in resolve_from entry key r' w')

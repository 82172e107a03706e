-- ===== src/Runtime/Assembly/Authorized.antt =====
-- internal/config/config.go, internal/runtime/runtime.go and internal/collectapi/handler.go: the
-- credentials of the environment are those of the routes.
use anaysitics_service.Base.{true, false, ◌≡◌, All, map, List, ok}
use mathlib.Core.List.{Nodup}
use anaysitics_service.Base.Text.{is_empty, trim_space, CaseTable}
use anaysitics_service.CollectApi.App.{Options, is_route_path, route_paths}
use anaysitics_service.CollectApi.App.Paths.{path_of}
use anaysitics_service.Runtime.Bus.{EventBus}
use anaysitics_service.Config.{Environment, Config}
use anaysitics_service.Config.Credentials.{query_token_values, query_credentials_from_env}
use anaysitics_service.Config.Load as Load
use anaysitics_service.Config.Load.{decode_sources}
use anaysitics_service.Config.Load.Accepted.{IsAccepted}

-- What a loaded configuration says of its credentials.
record IsLoaded ⦃cases : CaseTable⦄ (env : Environment) (c : Config) : Type 0 where
  from_env : query_credentials_from_env env c.query_token ≡ ok c.query_credentials
  values : c.query_tokens ≡ query_token_values c.query_credentials
  accepted : IsAccepted c

-- The paths can be served, and there is a file to serve as documentation if it is on.
abbrev pub IsServable : {W : Type 0} → Options W EventBus → Type 0
IsServable opts =
    All (λ entry. is_route_path entry.0 ≡ true) (route_paths opts)
    × Nodup (map path_of (route_paths opts))
    × ((opts.swagger_enabled ≡ true) → (is_empty (trim_space opts.openapi_file) ≡ false))

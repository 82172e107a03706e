-- ===== src/Tests/Lookups.antt =====
-- internal/controlplane/http_resolver.go and SchemaBoundResolver at a concrete control plane.
use anaysitics_service.Base.{
  ℕ, suc, ◌+◌, ◌≡◌, ◌≢◌, refl, ◌↔◌, List, [], ◌∷◌, none, some, Result, ok, arith, Any, take,
}
use anaysitics_service.Base.Int.{pos}
use anaysitics_service.Base.Table.{find}
use anaysitics_service.Base.Text.{Text, Text_eq, text, trim_space}
use anaysitics_service.Base.Text.Case.{ascii_table}
use anaysitics_service.Tests.Runs.{resolver_runs, base_runs}
use anaysitics_service.Tests.Sources.{shop, shop'}
use anaysitics_service.ControlPlane.Source.{SourceConfig, normalize}
use anaysitics_service.ControlPlane.Validate.{Error}
use anaysitics_service.ControlPlane.SchemaBound.{
  Resolver, SchemaBoundResolver, new_schema_bound_resolver, schema_bound_resolve,
  new_schema_surface_key,
}
use anaysitics_service.ControlPlane.SchemaBound.Surface.{OnSurface, schema_bound_resolve_iff}
use anaysitics_service.ControlPlane.Http.{
  CachedSourceConfig, HttpResolver, ControlPlaneClient, Response, zero_source, resolve_source,
  decode_runtime_source, max_runtime_config_response_bytes,
}
use anaysitics_service.ControlPlane.Http.Decode.{IsUsable, decode_runtime_source_iff}
use anaysitics_service.ControlPlane.Http.Validated.{
  AnswersConditions, AllUsable, resolve_source-IsUsable, resolve_source_unconditional_304,
}
use anaysitics_service.ControlPlane.Http.Honest.{conditional, IsHonest}
use anaysitics_service.ControlPlane.Http.Transparent.{uncached, lookups, resolve_source_transparent}

-- Time is the world: each reading of the clock and each request takes a nanosecond.
abbrev shop_answer : ℕ → Text → Result Error Response
shop_answer w key = ok (record { status_code = 200; etag = text "v1"; body = [] })

abbrev shop_client : ControlPlaneClient ℕ
shop_client = record {
  now = λ w. (w, suc w);
  do_request =
      λ request w. (conditional request.if_none_match (shop_answer w request.write_key), suc w);
  decode = λ body. ok shop;
}

shop_no_304 : (w : ℕ) (key : Text) (a : Response) → shop_answer w key ≡ ok a → a.status_code ≢ 304
shop_no_304 w key a h e = ground arith

shop_IsHonest : IsHonest shop_client shop_answer
shop_IsHonest = record {
  asked = λ request w. refl;
  clock = λ w key. refl;
  no_304 = shop_no_304;
  same_tag = λ v w key a b p q s t e n. ground arith;
}

shop_AnswersConditions : AnswersConditions shop_client
shop_AnswersConditions = record { no_304 = λ request w response p h e. ground arith }

abbrev new_resolver : HttpResolver
new_resolver = record {
  endpoint = text "https://saas.example/resolve";
  bearer_token = text "token";
  cache_ttl = pos 1000;
  cache = [];
}

-- The second lookup revalidates the entry of the first, and the third finds that it has expired.
abbrev history : List (Text × (ℕ → ℕ))
history = (text "wk_shop", λ w. w + 10) ∷ (text "wk_shop ", λ w. w + 2000) ∷ []

resolve_source_transparent_example :
    (resolve_source shop_client
      (text "wk_shop")
      (lookups shop_client history new_resolver 5).0
      (lookups shop_client history new_resolver 5).1).0
    ≡ (resolve_source shop_client
        (text "wk_shop")
        (uncached (lookups shop_client history new_resolver 5).0)
        (lookups shop_client history new_resolver 5).1).0
resolve_source_transparent_example =
    resolve_source_transparent shop_client shop_answer shop_IsHonest history new_resolver 5
      (text "wk_shop") refl

shop_found : (resolve_source shop_client (text "wk_shop") new_resolver 5).0 ≡ ok shop'
unfolding resolver_runs
shop_found = refl

shop_revalidated :
    (resolve_source shop_client
      (text "wk_shop")
      (lookups shop_client history new_resolver 5).0
      (lookups shop_client history new_resolver 5).1).0
    ≡ ok shop'
unfolding resolver_runs lookups
shop_revalidated = refl

none_cached :
    (key : Text) (e : CachedSourceConfig)
    → find key new_resolver.cache ≡ some e
    → IsUsable key e.source
unfolding base_runs
none_cached key e h = absurd (cc)

new_AllUsable : AllUsable new_resolver
new_AllUsable = record { at = none_cached }

resolve_source-IsUsable_example :
    ((s : SourceConfig)
      → (resolve_source shop_client (text "wk_shop") new_resolver 5).0 ≡ ok s
      → IsUsable (trim_space (text "wk_shop")) s)
    × AllUsable (resolve_source shop_client (text "wk_shop") new_resolver 5).1
resolve_source-IsUsable_example =
    resolve_source-IsUsable shop_client shop_AnswersConditions (text "wk_shop") new_resolver 5
      new_AllUsable

decode_runtime_source_iff_example :
    (decode_runtime_source shop_client (b'{' ∷ []) (text "wk_shop") ≡ ok shop') ↔ (
      (c : SourceConfig) × (shop_client.decode (take max_runtime_config_response_bytes (b'{' ∷ []))
        ≡ ok c)
      × (normalize c ≡ shop')
      × IsUsable (text "wk_shop") shop')
decode_runtime_source_iff_example =
    decode_runtime_source_iff shop_client (b'{' ∷ []) (text "wk_shop") shop'

-- A control plane that answers 304 to every request.
abbrev stale : Response
stale = record { status_code = 304; etag = []; body = [] }

abbrev stale_client : ControlPlaneClient ℕ
stale_client = record shop_client { do_request = λ request w. (ok stale, suc w) }

wk_shop_set : trim_space (text "wk_shop") ≢ []
unfolding base_runs
wk_shop_set e = ground arith

not_cached : find (trim_space (text "wk_shop")) new_resolver.cache ≡ none
unfolding base_runs
not_cached = refl

resolve_source_unconditional_304_example :
    (resolve_source stale_client (text "wk_shop") new_resolver 5).0 ≡ ok zero_source
resolve_source_unconditional_304_example =
    resolve_source_unconditional_304 stale_client (text "wk_shop") new_resolver 5 stale wk_shop_set
      not_cached refl refl

abbrev constant_resolver : Resolver ℕ
constant_resolver key w = (ok shop, suc w)

abbrev bound : SchemaBoundResolver ℕ
bound = record { inner = constant_resolver; allow = new_schema_surface_key (normalize shop) ∷ [] }

bound_built : new_schema_bound_resolver (some constant_resolver) (shop ∷ []) ≡ ok bound
unfolding resolver_runs
bound_built = refl

schema_bound_resolve_iff_example :
    (((schema_bound_resolve (some bound) (text "wk_shop") 5).0 ≡ ok shop') ↔ (
      (c : SourceConfig) × ((constant_resolver (text "wk_shop") 5).0 ≡ ok c)
      × (normalize c ≡ shop')
      × Any (OnSurface shop') (shop ∷ [])))
    × ((schema_bound_resolve (some bound) (text "wk_shop") 5).1
        ≡ (constant_resolver (text "wk_shop") 5).1)
schema_bound_resolve_iff_example =
    schema_bound_resolve_iff constant_resolver (shop ∷ []) bound (text "wk_shop") 5 shop'
      bound_built

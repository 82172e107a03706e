-- ===== src/Tests/Sources.antt =====
-- internal/controlplane/resolver.go at concrete sources.
use anaysitics_service.Base.{true, false, ◌≡◌, ◌≢◌, refl, ◌↔◌, ◌⊎◌, [], ◌∷◌, some, ok, All, Any}
use anaysitics_service.Base.Distinct.{Fresh}
use anaysitics_service.Base.Int.{pos}
use anaysitics_service.Base.Text.{Text_eq, text, trim_space, to_lower}
use anaysitics_service.Base.Text.Case.{ascii_table}
use anaysitics_service.Tests.Runs.{source_runs, resolver_runs}
use anaysitics_service.ControlPlane.Source.{
  AllowedPropertyFilter, ReadbackPolicy, SourceConfig, normalize, normalize_visit_window,
}
use anaysitics_service.ControlPlane.Source.Normal.{normalize_idem}
use anaysitics_service.ControlPlane.Policy.{allows_origin, allows_property_filter}
use anaysitics_service.ControlPlane.Policy.Filters.{Permits, allows_property_filter_iff}
use anaysitics_service.ControlPlane.Policy.Origins.{OriginMatches, allows_origin_iff}
use anaysitics_service.ControlPlane.Validate.{validate_source_config}
use anaysitics_service.ControlPlane.Validate.Sound.{IsValidSource, validate_source_config_iff}
use anaysitics_service.ControlPlane.Memory.{
  MemoryResolver, new_memory_resolver, memory_resolve, enabled_source,
}
use anaysitics_service.ControlPlane.Memory.Lookup.{
  first_source, memory_resolve-first, memory_resolve_sound, new_memory_resolver_iff,
}

abbrev pub everything : ReadbackPolicy
everything = record { realtime = true; events = true; properties = true; goals = true }

abbrev pub shop_filter : AllowedPropertyFilter
shop_filter = record {
  scope = text " Event ";
  name = text "plan";
  value_types = text "String " ∷ [];
}

-- As a control plane would send it.
abbrev pub shop : SourceConfig
shop = record {
  write_key = text " wk_shop ";
  enabled = true;
  tenant_id = text "t1";
  project_id = text "p1";
  source_id = text "s1";
  source_type = [];
  allowed_origins = text "https://shop.example" ∷ text " " ∷ [];
  allowed_property_filters = shop_filter ∷ shop_filter ∷ [];
  readback_policy = everything;
  bot_user_agents = [];
  internal_cidrs = [];
  internal_ips = [];
  session_salt = text "a";
  visit_salt = text "b";
  visit_window = pos 0;
  visit_window_seconds = pos 600;
  client_hash_salt = text "c";
  include_client_fingerprint = false;
}

type_is_web : (normalize shop).source_type ≡ text "web"
unfolding source_runs
type_is_web = refl

filters_merge :
    (normalize shop).allowed_property_filters
    ≡ record { scope = text "event"; name = text "plan"; value_types = text "string" ∷ [] } ∷ []
unfolding source_runs
filters_merge = refl

window_of_seconds : (normalize shop).visit_window ≡ pos 600_000_000_000
unfolding source_runs
window_of_seconds = refl

-- The product of the seconds wraps to a negative duration, and the default is taken.
window_wraps : normalize_visit_window (pos 0) (pos 9_300_000_000) ≡ pos 1_800_000_000_000
unfolding source_runs
window_wraps = refl

normalize_idem_example : normalize (normalize shop) ≡ normalize shop
normalize_idem_example = normalize_idem shop

abbrev pub shop' : SourceConfig
shop' = normalize shop

plan_is_allowed : allows_property_filter shop' (text "EVENT") (text " plan") (text "string") ≡ true
unfolding source_runs
plan_is_allowed = refl

plan_number_is_not :
    allows_property_filter shop' (text "event") (text "plan") (text "number") ≡ false
unfolding source_runs
plan_number_is_not = refl

allows_property_filter_iff_example :
    (allows_property_filter shop' (text "event") (text "plan") (text "string") ≡ true) ↔ (
      (to_lower (trim_space (text "event")) ≢ [])
      × (trim_space (text "plan") ≢ [])
      × (to_lower (trim_space (text "string")) ≢ [])
      × Any
          (λ f.
            Permits f
              (to_lower (trim_space (text "event")))
              (trim_space (text "plan"))
              (to_lower (trim_space (text "string"))))
          shop'.allowed_property_filters)
allows_property_filter_iff_example =
    allows_property_filter_iff shop' (text "event") (text "plan") (text "string")

allows_origin_iff_example : (allows_origin shop' (text "HTTPS://shop.example") ≡ true) ↔ (
    (trim_space (text "HTTPS://shop.example") ≡ [])
    ⊎ Any (OriginMatches (trim_space (text "HTTPS://shop.example"))) shop'.allowed_origins)
allows_origin_iff_example = allows_origin_iff shop' (text "HTTPS://shop.example")

shop_origin : allows_origin shop' (text "HTTPS://shop.example ") ≡ true
unfolding source_runs
shop_origin = refl

pub shop'-valid : validate_source_config shop' ≡ ok tt
unfolding source_runs
shop'-valid = refl

validate_source_config_iff_example : (validate_source_config shop' ≡ ok tt) ↔ IsValidSource shop'
validate_source_config_iff_example = validate_source_config_iff shop'

abbrev pub off_shop : SourceConfig
off_shop = record shop { write_key = text "wk_off"; enabled = false }

abbrev pub shops : MemoryResolver
shops = record {
  sources = (text "wk_off", normalize off_shop) ∷ (text "wk_shop", normalize shop) ∷ [];
}

pub built : new_memory_resolver (shop ∷ off_shop ∷ []) ≡ ok shops
unfolding resolver_runs
built = refl

memory_resolve-first_example :
    memory_resolve (some shops) (text " wk_shop")
    ≡ enabled_source (first_source (trim_space (text " wk_shop")) (shop ∷ off_shop ∷ []))
memory_resolve-first_example =
    memory_resolve-first (shop ∷ off_shop ∷ []) shops (text " wk_shop") built

pub found : memory_resolve (some shops) (text " wk_shop") ≡ ok shop'
unfolding resolver_runs
found = refl

memory_resolve_sound_example :
    (shop'.enabled ≡ true)
    × (shop'.write_key ≡ trim_space (text " wk_shop"))
    × Any (λ c. normalize c ≡ shop') (shop ∷ off_shop ∷ [])
memory_resolve_sound_example =
    memory_resolve_sound (shop ∷ off_shop ∷ []) shops (text " wk_shop") shop' built found

new_memory_resolver_iff_example :
    ((r : MemoryResolver) × (new_memory_resolver (shop ∷ shop ∷ []) ≡ ok r)) ↔ (
      All (λ c. IsValidSource (normalize c)) (shop ∷ shop ∷ [])
      × Fresh (λ c. (normalize c).write_key) [] (shop ∷ shop ∷ []))
new_memory_resolver_iff_example = new_memory_resolver_iff (shop ∷ shop ∷ [])

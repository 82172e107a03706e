-- ===== src/ControlPlane/Policy.antt =====
-- internal/controlplane/resolver.go: what a source's policy allows.
pub mod Filters
pub mod Origins
use anaysitics_service.Base.{
  Bool, true, false, ◌||◌, not, ◌==◌, contains, List, [], ◌∷◌, if◌then◌else◌,
}
use anaysitics_service.Base.Text.{
  Text, Text_eq, text, is_empty, trim_space, CaseTable, to_lower, equal_fold,
}
use anaysitics_service.ControlPlane.Source.{AllowedPropertyFilter, SourceConfig}

-- ReadbackRoute is a string type with six constants.
abbrev pub ReadbackRoute : Type 0
ReadbackRoute = Text

abbrev pub readback_route_realtime : ReadbackRoute
readback_route_realtime = text "realtime"

abbrev pub readback_route_events : ReadbackRoute
readback_route_events = text "events"

abbrev pub readback_route_properties : ReadbackRoute
readback_route_properties = text "properties"

abbrev pub readback_route_goals : ReadbackRoute
readback_route_goals = text "goals"

abbrev pub readback_route_kafka_diagnostics : ReadbackRoute
readback_route_kafka_diagnostics = text "kafka_diagnostics"

abbrev pub readback_route_kafka_metrics : ReadbackRoute
readback_route_kafka_metrics = text "kafka_metrics"

module _ ⦃cases : CaseTable⦄ where
  unfoldable pub any_origin : List Text → Text → Bool
  any_origin [] origin = false
  any_origin (allowed ∷ rest) origin =
      (allowed == text "*" || equal_fold allowed origin) || any_origin rest origin

  -- SourceConfig.AllowsOrigin
  unfoldable pub allows_origin : SourceConfig → Text → Bool
  allows_origin c origin =
      let origin' = trim_space origin in
      if is_empty origin' then true else any_origin c.allowed_origins origin'

-- One round of the loop over the selectors.
unfoldable pub filter_allows : AllowedPropertyFilter → Text → Text → Text → Bool
filter_allows filter scope name value_type =
    if not (filter.scope == scope) || not (filter.name == name)
    then false
    else if is_nil filter.value_types
    then true
    else contains filter.value_types value_type
  where
    is_nil : List Text → Bool
    is_nil [] = true
    is_nil (t ∷ ts) = false

unfoldable pub any_filter : List AllowedPropertyFilter → Text → Text → Text → Bool
any_filter [] scope name value_type = false
any_filter (filter ∷ rest) scope name value_type =
    filter_allows filter scope name value_type || any_filter rest scope name value_type

module _ ⦃cases : CaseTable⦄ where
  -- SourceConfig.AllowsPropertyFilter
  unfoldable pub allows_property_filter : SourceConfig → Text → Text → Text → Bool
  allows_property_filter c scope name value_type =
      let scope' = to_lower (trim_space scope) in
      let name' = trim_space name in
      let value_type' = to_lower (trim_space value_type) in
      if is_empty scope' || is_empty name' || is_empty value_type'
      then false
      else any_filter c.allowed_property_filters scope' name' value_type'

-- SourceConfig.AllowsReadback
unfoldable pub allows_readback : SourceConfig → ReadbackRoute → Bool
allows_readback c route =
    if route == readback_route_realtime
    then c.readback_policy.realtime
    else if route == readback_route_events
    then c.readback_policy.events
    else if route == readback_route_properties
    then c.readback_policy.properties
    else if route == readback_route_goals
    then c.readback_policy.goals
    else false

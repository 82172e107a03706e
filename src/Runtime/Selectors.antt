-- ===== src/Runtime/Selectors.antt =====
-- internal/runtime/runtime.go: the property selectors that the query builder allows.
pub mod Covering
use anaysitics_service.Base.{List, [], ◌∷◌, ◌++◌, map, some, if◌then◌else◌}
use anaysitics_service.Base.Distinct.{distinct}
use anaysitics_service.Base.Text.{CaseTable}
use anaysitics_service.CollectApi.Filters.{PropertySelector_eq}
use anaysitics_service.CollectApi.Storage.{PropertySelector}
use anaysitics_service.Config.{Config}
use anaysitics_service.Config.Load.{none_of}
use anaysitics_service.ControlPlane.Source.{AllowedPropertyFilter, SourceConfig, normalize}

-- storage.PropertySelector{Scope: filter.Scope, Name: filter.Name}
unfoldable pub filter_selector : AllowedPropertyFilter → PropertySelector
filter_selector filter = record { scope = filter.scope; name = filter.name }

module _ ⦃cases : CaseTable⦄ where
  -- The selectors of one source, which has none if it is disabled.
  unfoldable pub source_selectors : SourceConfig → List PropertySelector
  source_selectors source =
      let source' = normalize source in
      if source'.enabled then map filter_selector source'.allowed_property_filters else []

  unfoldable pub all_selectors : List SourceConfig → List PropertySelector
  all_selectors [] = []
  all_selectors (source ∷ rest) = source_selectors source ++ all_selectors rest

  -- allowedPropertySelectors: its two loops visit the selectors in this order, and keep the first of each.
  unfoldable pub allowed_property_selectors : List SourceConfig → List PropertySelector
  allowed_property_selectors sources =
      distinct some (λ selector. selector) [] (all_selectors sources)

  -- queryBuilderOptions, by the arguments of WithAllowedPropertyFilters in each option.
  unfoldable pub query_builder_options : Config → List (List PropertySelector)
  query_builder_options c =
      let selectors = allowed_property_selectors c.sources in
      if none_of selectors then [] else selectors ∷ []

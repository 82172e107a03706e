-- ===== src/Runtime/Selectors/Covering.antt =====
-- internal/runtime/runtime.go: the query builder allows what the readback routes let through.
use anaysitics_service.Base.{
  ◌≡◌, ◌≢◌, ◌∙◌, refl, sym, contains, All-weaken, ◌↔◌, ◌⊎◌, inl, inr, Bool, true, false, List, [],
  ◌∷◌, map, some, ok, All, Any, Any-map, Any-append, arith, subst, >>=-iff, ◌>>=◌, ◌||◌, ◌==◌,
  Result, err, if◌then◌else◌,
}
use anaysitics_service.Base.Distinct.{distinct_sound, distinct_complete}
use anaysitics_service.Base.Text.{Text, Text_eq, text, is_empty, CaseTable, to_lower, trim_space}
use anaysitics_service.CollectApi.Filters.{PropertySelector_eq, parse_property_filters}
use anaysitics_service.CollectApi.Filters.Admitted.{IsAdmitted, parse_property_filters_sound}
use anaysitics_service.CollectApi.Handler.{Codecs}
use anaysitics_service.CollectApi.Request.{HttpRequest}
use anaysitics_service.CollectApi.Storage.{PropertySelector, EventPropertyFilter}
use anaysitics_service.Config.{Config}
use anaysitics_service.Config.Load.{none_of}
use anaysitics_service.ControlPlane.Memory.{MemoryResolver, new_memory_resolver, memory_resolve}
use anaysitics_service.ControlPlane.Memory.Lookup.{memory_resolve_sound}
use anaysitics_service.ControlPlane.Policy.Filters.{Permits, allows_property_filter_iff}
use anaysitics_service.ControlPlane.Source.{AllowedPropertyFilter, SourceConfig, normalize}
use anaysitics_service.ControlPlane.Http.Endpoint.{Addressing, new_http_resolver}
use anaysitics_service.ControlPlane.SchemaBound.{SchemaSurfaceKey}
use anaysitics_service.ControlPlane.Validate.{Error, failure}
use anaysitics_service.Runtime.Resolver.{
  SourceResolver, memory_resolver, http_resolver, schema_bound_resolver, select_resolver,
  resolver_options, new_source_resolver,
}
use anaysitics_service.Runtime.Selectors.{
  filter_selector, source_selectors, all_selectors, allowed_property_selectors,
  query_builder_options,
}

-- The selector of a filter of a query.
abbrev pub selector : EventPropertyFilter → PropertySelector
selector f = record { scope = f.scope; name = f.name }

-- A filter of the list has the selector.
abbrev pub Selects : PropertySelector → List AllowedPropertyFilter → Type 0
Selects s = Any (λ f. (f.scope ≡ s.scope) × (f.name ≡ s.name))

map-Selects :
    (s : PropertySelector) (fs : List AllowedPropertyFilter)
    → Any (λ t. t ≡ s) (map filter_selector fs) ↔ Selects s fs
unfolding filter_selector
map-Selects s [] = ground arith
map-Selects s (f ∷ fs) = ground (arith, map-Selects s fs)

-- The selectors of a source that may be disabled.
kept-Selects :
    (s : PropertySelector) (enabled : Bool) (fs : List AllowedPropertyFilter)
    → Any (λ t. t ≡ s) (if enabled then map filter_selector fs else [])
      ↔ ((enabled ≡ true) × Selects s fs)
kept-Selects s true fs = ground (arith, map-Selects s fs)
kept-Selects s false fs = ground arith

-- A selector that is allowed is in an option.
in_option :
    (P : PropertySelector → Type 0) (selectors : List PropertySelector)
    → Any P selectors
    → Any (Any P) (if none_of selectors then [] else selectors ∷ [])
in_option P [] m = m
in_option P (x ∷ xs) m = inl m

module _ ⦃cases : CaseTable⦄ where
  -- The source is enabled, and one of its filters has the selector.
  abbrev pub Offers : PropertySelector → SourceConfig → Type 0
  Offers s source =
      ((normalize source).enabled ≡ true) × Selects s (normalize source).allowed_property_filters

  source_selectors-Offers :
      (s : PropertySelector) (source : SourceConfig)
      → Any (λ t. t ≡ s) (source_selectors source) ↔ Offers s source
  unfolding source_selectors
  source_selectors-Offers s source =
      kept-Selects s (normalize source).enabled (normalize source).allowed_property_filters

  all_selectors-Offers :
      (s : PropertySelector) (sources : List SourceConfig)
      → Any (λ t. t ≡ s) (all_selectors sources) ↔ Any (Offers s) sources
  unfolding all_selectors
  all_selectors-Offers s [] = ground arith
  all_selectors-Offers s (source ∷ rest) = ground (
    arith,
    Any-append (λ t. t ≡ s) (source_selectors source) (all_selectors rest),
    source_selectors-Offers s source,
    all_selectors-Offers s rest,
  )

  -- The query builder allows exactly the selectors that some enabled source allows.
  pub allowed_property_selectors_iff :
      (s : PropertySelector) (sources : List SourceConfig)
      → Any (λ t. t ≡ s) (allowed_property_selectors sources) ↔ Any (Offers s) sources
  unfolding allowed_property_selectors contains
  allowed_property_selectors_iff s sources =
      let visited = all_selectors sources in
      (
        λ m. (all_selectors-Offers s sources).0 (
            Any-map _ _ visited (λ x (b, p, q). some_of x b p q)
              (distinct_sound some (λ t. t) (λ t. t ≡ s) [] visited m)),
        λ m. found (
            distinct_complete some (λ t. t) s [] visited
              (Any-map _ _ visited (λ x p. (x, refl, p)) ((all_selectors-Offers s sources).1 m))),
      )
    where
      some_of : (x b : PropertySelector) → some x ≡ some b → b ≡ s → x ≡ s
      some_of x b p q = cc

      found :
          (contains [] s ≡ true) ⊎ Any (λ t. t ≡ s) (allowed_property_selectors sources)
          → Any (λ t. t ≡ s) (allowed_property_selectors sources)
      found (inl seen) = ground arith
      found (inr m) = m

  -- A filter that its source admits is one that the source offers.
  admitted-Offers :
      (codecs : Codecs) (source c : SourceConfig) (f : EventPropertyFilter)
      → source.enabled ≡ true
      → IsAdmitted codecs source f
      → normalize c ≡ source
      → Offers (selector f) c
  admitted-Offers codecs source c f enabled (allowed, op, scoped, named) same =
      subst
        (λ source. (source.enabled ≡ true) × Selects (selector f) source.allowed_property_filters)
        (sym same)
        (
          enabled,
          chosen ((allows_property_filter_iff source f.scope f.name f.value_type).0 allowed),
        )
    where
      chosen :
          (to_lower (trim_space f.scope) ≢ [])
            × (trim_space f.name ≢ [])
            × (to_lower (trim_space f.value_type) ≢ [])
            × Any
                (λ g.
                  Permits g
                    (to_lower (trim_space f.scope))
                    (trim_space f.name)
                    (to_lower (trim_space f.value_type)))
                source.allowed_property_filters
          → Selects (selector f) source.allowed_property_filters
      chosen (_, _, _, m) =
          Any-map _ _ source.allowed_property_filters (λ g (p, q, t). (p ∙ scoped, q ∙ named)) m

  -- The resolver of a configuration is a bare memory resolver only if that holds its sources.
  memory_of_config :
      (net : Addressing) (c : Config) (r : MemoryResolver)
      → new_source_resolver net c ≡ ok (memory_resolver r)
      → new_memory_resolver c.sources ≡ ok r
  unfolding new_source_resolver select_resolver
  memory_of_config net c r built =
      let (x, selected, h) = (>>=-iff (select_resolver net c) _ (memory_resolver r)).0 built in
      from_memory (is_empty c.source_resolver || c.source_resolver == text "memory")
        (c.source_resolver == text "http") (selected ∙ sym (unbound _ _ x h))
    where
      unbound :
          (b : Bool) (m : Result Error (List SchemaSurfaceKey)) (x : SourceResolver)
          → (if b then (m >>= (λ allow. ok (schema_bound_resolver x allow))) else ok x)
            ≡ ok (memory_resolver r)
          → ◌≡◌ {A = Result Error SourceResolver} (ok (memory_resolver r)) (ok x)
      unbound true (ok allow) x h = absurd (cc)
      unbound true (err e) x h = absurd (cc)
      unbound false m x h = cc

      made :
          (m : Result Error MemoryResolver)
          → (m >>= (λ r. ok (memory_resolver r))) ≡ ok (memory_resolver r)
          → m ≡ ok r
      made (ok found) h = cc
      made (err e) h = absurd (cc)

      from_memory :
          (b d : Bool)
          → (if b
              then (new_memory_resolver c.sources >>= (λ r. ok (memory_resolver r)))
              else if d
              then (new_http_resolver net (resolver_options c) >>= (λ r. ok (http_resolver r)))
              else err (failure "unsupported source resolver"))
            ≡ ok (memory_resolver r)
          → new_memory_resolver c.sources ≡ ok r
      from_memory true d h = made (new_memory_resolver c.sources) h
      from_memory false true h =
          let (found, built, other) =
            (>>=-iff (new_http_resolver net (resolver_options c)) _ (memory_resolver r)).0 h in
          absurd (cc)
      from_memory false false h = absurd (cc)

  -- With the sources given to the service at its start, and the memory resolver over them that it then
  -- uses: a property filter that a readback route admits for a source that the resolver answers has a
  -- selector among those that the query builder was given.
  pub admitted_filters-covered :
      (net : Addressing) (codecs : Codecs) (c : Config) (r : MemoryResolver) (write_key : Text)
      (source : SourceConfig) (ctx : HttpRequest) (filters : List EventPropertyFilter)
      → new_source_resolver net c ≡ ok (memory_resolver r)
      → memory_resolve (some r) write_key ≡ ok source
      → parse_property_filters codecs source ctx ≡ ok filters
      → All (λ f. Any (Any (λ t. t ≡ selector f)) (query_builder_options c)) filters
  unfolding query_builder_options
  admitted_filters-covered net codecs c r write_key source ctx filters built resolved parsed =
      let (enabled, key, listed) =
        memory_resolve_sound c.sources r write_key source (memory_of_config net c r built)
          resolved in
      let (number, few, admitted) = parse_property_filters_sound codecs source ctx filters parsed in
      All-weaken (IsAdmitted codecs source) _ filters
        (λ f h.
          in_option (λ t. t ≡ selector f) (allowed_property_selectors c.sources)
            ((allowed_property_selectors_iff (selector f) c.sources).1
              (Any-map _ _ c.sources (λ c. admitted-Offers codecs source c f enabled h) listed)))
        admitted

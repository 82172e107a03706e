-- ===== src/ControlPlane/Policy/Filters.antt =====
-- internal/controlplane/resolver.go: AllowsPropertyFilter against the selectors that permit.
use anaysitics_service.Base.{
  true, ◌≡◌, ◌≢◌, refl, ◌↔◌, ◌⊎◌, List, [], ◌∷◌, arith, Any, contains_iff,
}
use anaysitics_service.Base.Text.{Text, Text_eq, text_eq_iff, trim_space, CaseTable, to_lower}
use anaysitics_service.Base.Text.Trim.{trim_space_idem}
use anaysitics_service.Base.Text.Case.{lower_trim_idem}
use anaysitics_service.ControlPlane.Source.{AllowedPropertyFilter, SourceConfig}
use anaysitics_service.ControlPlane.Policy.{filter_allows, any_filter, allows_property_filter}

-- The selector names the property, and lists the type of value or no type.
abbrev pub Permits : AllowedPropertyFilter → Text → Text → Text → Type 0
Permits filter scope name value_type =
    (filter.scope ≡ scope)
    × (filter.name ≡ name)
    × ((filter.value_types ≡ []) ⊎ Any (λ t. t ≡ value_type) filter.value_types)

filter_allows_iff :
    (f : AllowedPropertyFilter) (types : List Text) (scope name value_type : Text)
    → f.value_types ≡ types
    → (filter_allows f scope name value_type ≡ true) ↔ Permits f scope name value_type
unfolding filter_allows
filter_allows_iff f [] scope name value_type e =
    ground (arith, text_eq_iff f.scope scope, text_eq_iff f.name name)
filter_allows_iff f (t ∷ ts) scope name value_type e = ground (
  arith,
  text_eq_iff f.scope scope,
  text_eq_iff f.name name,
  contains_iff f.value_types value_type,
  contains_iff (t ∷ ts) value_type,
)

any_filter_iff :
    (fs : List AllowedPropertyFilter) (scope name value_type : Text)
    → (any_filter fs scope name value_type ≡ true) ↔ Any (λ f. Permits f scope name value_type) fs
unfolding any_filter
any_filter_iff [] scope name value_type = ground arith
any_filter_iff (f ∷ fs) scope name value_type = ground (
  arith,
  filter_allows_iff f f.value_types scope name value_type refl,
  any_filter_iff fs scope name value_type,
)

module _ ⦃cases : CaseTable⦄ where
  -- A predicate is allowed exactly when its normalised scope, name and type are not blank and some
  -- selector of the source names the scope and the name and lists the type, or lists no type.
  pub allows_property_filter_iff :
      (c : SourceConfig) (scope name value_type : Text)
      → (allows_property_filter c scope name value_type ≡ true) ↔ (
          (to_lower (trim_space scope) ≢ [])
          × (trim_space name ≢ [])
          × (to_lower (trim_space value_type) ≢ [])
          × Any
              (λ f.
                Permits f
                  (to_lower (trim_space scope))
                  (trim_space name)
                  (to_lower (trim_space value_type)))
              c.allowed_property_filters)
  unfolding allows_property_filter
  allows_property_filter_iff c scope name value_type = ground (
    arith,
    any_filter_iff c.allowed_property_filters (to_lower (trim_space scope)) (trim_space name)
        (to_lower (trim_space value_type)),
  )

  -- White space around the three arguments, and the case of the scope and the type, do not matter.
  pub allows_property_filter_drift :
      (c : SourceConfig) (scope name value_type : Text)
      → allows_property_filter c
          (to_lower (trim_space scope))
          (trim_space name)
          (to_lower (trim_space value_type))
        ≡ allows_property_filter c scope name value_type
  unfolding allows_property_filter
  allows_property_filter_drift c scope name value_type =
      rw (lower_trim_idem scope, trim_space_idem name, lower_trim_idem value_type)

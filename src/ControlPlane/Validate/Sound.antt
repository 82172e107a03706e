-- ===== src/ControlPlane/Validate/Sound.antt =====
-- internal/controlplane/resolver.go: what a validated source configuration satisfies.
use anaysitics_service.Base.{
  ◌≤◌, true, false, ◌≡◌, ◌≢◌, ◌↔◌, ◌⊎◌, List, [], ◌∷◌, arith, All, contains, ok,
}
use anaysitics_service.Base.Int.{ℤ, pos, pos_part, ltb_ℤ}
use anaysitics_service.Base.Text.{Text, Text_eq, text, text_eq_iff}
use anaysitics_service.ControlPlane.Source.{AllowedPropertyFilter, SourceConfig, minute}
use anaysitics_service.ControlPlane.Validate.{
  value_types_valid, validate_allowed_property_filters, validate_source_config,
}

abbrev pub IsValueType : Text → Type 0
IsValueType t =
    (text "null" ≡ t) ⊎ ((text "string" ≡ t) ⊎ ((text "number" ≡ t) ⊎ (text "bool" ≡ t)))

abbrev pub IsSelector : AllowedPropertyFilter → Type 0
IsSelector f = ((text "event" ≡ f.scope) ⊎ (text "user" ≡ f.scope)) × All IsValueType f.value_types

pub record IsValidSource (c : SourceConfig) : Type 0 where
  pub write_key_set : c.write_key ≢ []
  pub tenant_id_set : c.tenant_id ≢ []
  pub project_id_set : c.project_id ≢ []
  pub source_id_set : c.source_id ≢ []
  pub session_salt_set : c.session_salt ≢ []
  pub visit_salt_set : c.visit_salt ≢ []
  pub window_long : minute ≤ pos_part c.visit_window
  pub client_hash_salt_set : c.client_hash_salt ≢ []
  pub selectors : All IsSelector c.allowed_property_filters

value_types_valid_iff : (ts : List Text) → (value_types_valid ts ≡ true) ↔ All IsValueType ts
unfolding value_types_valid contains
value_types_valid_iff [] = ground arith
value_types_valid_iff (t ∷ ts) = ground (
  arith,
  text_eq_iff (text "null") t,
  text_eq_iff (text "string") t,
  text_eq_iff (text "number") t,
  text_eq_iff (text "bool") t,
  value_types_valid_iff ts,
)

validate_filters_iff :
    (fs : List AllowedPropertyFilter)
    → (validate_allowed_property_filters fs ≡ ok tt) ↔ All IsSelector fs
unfolding validate_allowed_property_filters contains
validate_filters_iff [] = ground arith
validate_filters_iff (f ∷ fs) = ground (
  arith,
  text_eq_iff (text "event") f.scope,
  text_eq_iff (text "user") f.scope,
  value_types_valid_iff f.value_types,
  validate_filters_iff fs,
)

window_long_iff : (w : ℤ) → (ltb_ℤ w (pos minute) ≡ false) ↔ (minute ≤ pos_part w)
window_long_iff w = ground arith

-- Validation succeeds exactly on the sources that are valid.
pub validate_source_config_iff :
    (c : SourceConfig) → (validate_source_config c ≡ ok tt) ↔ IsValidSource c
unfolding validate_source_config
validate_source_config_iff c =
    ground (arith, window_long_iff c.visit_window, validate_filters_iff c.allowed_property_filters)

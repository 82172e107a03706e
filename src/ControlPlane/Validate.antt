-- ===== src/ControlPlane/Validate.antt =====
-- internal/controlplane/resolver.go: validation of a source configuration, and the errors of the
-- resolvers.
pub mod Sound
pub mod Passed
use anaysitics_service.Base.{
  ℕ, String, Bool, true, false, ◌&&◌, not, contains, List, [], ◌∷◌, Result, ok, err, ◌>>◌,
}
use anaysitics_service.Base.Int.{pos, ltb_ℤ}
use anaysitics_service.Base.Text.{Text, Text_eq, text, is_empty}
use anaysitics_service.ControlPlane.Source.{AllowedPropertyFilter, SourceConfig, minute}

-- The sentinel errors, errors.New with its message, a status that is not known, and an error of
-- a library.
pub data Error : Type 0 where
  source_not_found source_disabled source_outside_schema_surface : Error
  failure : String → Error
  unexpected_status : ℕ → Error
  library : ℕ → Error

-- `if !test { return errors.New(message) }`
abbrev pub require : Bool → String → Result Error (Unit {0})
require true message = ok tt
require false message = err (failure message)

unfoldable pub value_types_valid : List Text → Bool
value_types_valid [] = true
value_types_valid (value_type ∷ rest) =
    contains (text "null" ∷ text "string" ∷ text "number" ∷ text "bool" ∷ []) value_type
    && value_types_valid rest

unfoldable pub validate_allowed_property_filters :
    List AllowedPropertyFilter → Result Error (Unit {0})
validate_allowed_property_filters [] = ok tt
validate_allowed_property_filters (filter ∷ rest) = do
  require (contains (text "event" ∷ text "user" ∷ []) filter.scope)
      "source property filter scope must be event or user"
  require (value_types_valid filter.value_types)
      "source property filter value type must be null, string, number, or bool"
  validate_allowed_property_filters rest

unfoldable pub validate_source_config : SourceConfig → Result Error (Unit {0})
validate_source_config source = do
  require (not (is_empty source.write_key)) "source write key is required"
  require (not (is_empty source.tenant_id)) "source tenant id is required"
  require (not (is_empty source.project_id)) "source project id is required"
  require (not (is_empty source.source_id)) "source id is required"
  require (not (is_empty source.session_salt)) "source session salt is required"
  require (not (is_empty source.visit_salt)) "source visit salt is required"
  require (not (ltb_ℤ source.visit_window (pos minute)))
      "source visit window must be at least one minute"
  require (not (is_empty source.client_hash_salt)) "source client hash salt is required"
  validate_allowed_property_filters source.allowed_property_filters

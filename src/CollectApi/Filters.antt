-- ===== src/CollectApi/Filters.antt =====
-- internal/collectapi/query.go: the property filters of an events query.
pub mod Admitted
use anaysitics_service.Base.{
  ℕ, suc, Bool, true, false, ◌||◌, ◌&&◌, not, ltb, ◌++◌, ◌==◌, List, [], ◌∷◌, Option, none, some,
  Result, ok, err, ◌>>=◌, ◌↔◌, ◌≡◌, arith, length, if◌then◌else◌,
}
use anaysitics_service.Base.{DecEq}
use anaysitics_service.Base.Distinct.{distinct}
use anaysitics_service.Base.Text.{
  Text, Text_eq, text_eq_iff, text, is_empty, trim_space, CaseTable, to_lower,
}
use anaysitics_service.Base.Text.Decimal.{itoa}
use anaysitics_service.ControlPlane.Source.{SourceConfig, AllowedPropertyFilter}
use anaysitics_service.ControlPlane.Policy.{allows_property_filter}
use anaysitics_service.CollectApi.Request.{HttpRequest}
use anaysitics_service.CollectApi.Storage.{
  EventPropertyFilter, PropertySelector, ReadError, invalid_event_query,
}
use anaysitics_service.CollectApi.Handler.{
  Codecs, JsonValue, json_string, json_number, json_bool, PropertyFilterPayload,
}

abbrev pub default_property_filter_cap : ℕ
default_property_filter_cap = 5

-- propertyFilterArgs
unfoldable pub property_filter_args : List (Text × Text) → List Text
property_filter_args [] = []
property_filter_args ((key, value) ∷ rest) =
    let others = property_filter_args rest in
    if key == text "property_filter" then value ∷ others else others

-- invalidPropertyFilterError
abbrev pub invalid_property_filter_error : {A : Type 0} → Codecs → Text → Result ReadError A
invalid_property_filter_error codecs message =
    err (invalid_event_query (codecs.invalid_query_text ++ text ": " ++ message))

-- The error of the filter with an index.
abbrev pub invalid_filter : {A : Type 0} → Codecs → ℕ → Text → Result ReadError A
invalid_filter codecs idx message =
    invalid_property_filter_error codecs
      (text "property filter " ++ itoa idx ++ text " " ++ message)

-- A filter with none of its value slots set.
abbrev pub bare_filter : Text → Text → Text → Text → EventPropertyFilter
bare_filter scope name value_type operator = record {
  scope = scope;
  name = name;
  value_type = value_type;
  operator = operator;
  string_value = [];
  number_value = 0;
  bool_value = false;
}

unfoldable pub set_string : EventPropertyFilter → JsonValue → Result Text EventPropertyFilter
set_string filter (json_string value) = ok (record filter { string_value = value })
set_string filter other = err (text "string value must be a JSON string")

unfoldable pub set_number : EventPropertyFilter → JsonValue → Result Text EventPropertyFilter
set_number filter (json_number value) = ok (record filter { number_value = value })
set_number filter other = err (text "number value must be a JSON number")

unfoldable pub set_bool : EventPropertyFilter → JsonValue → Result Text EventPropertyFilter
set_bool filter (json_bool value) = ok (record filter { bool_value = value })
set_bool filter other = err (text "bool value must be a JSON boolean")

-- assignPropertyFilterValue
unfoldable pub assign_property_filter_value :
    Codecs → EventPropertyFilter → JsonValue → Result Text EventPropertyFilter
assign_property_filter_value codecs filter value =
    if filter.value_type == text "null"
    then ok filter
    else if filter.value_type == text "string"
    then set_string filter value
    else if filter.value_type == text "number"
    then set_number filter value
    else if filter.value_type == text "bool"
    then set_bool filter value
    else err (text "unsupported property value type " ++ codecs.quoted filter.value_type)

abbrev pub filter_result :
    Codecs → ℕ → Result Text EventPropertyFilter → Result ReadError EventPropertyFilter
filter_result codecs idx (ok filter) = ok filter
filter_result codecs idx (err message) = invalid_filter codecs idx message

abbrev pub or_equals : Text → Text
or_equals operator = if is_empty operator then text "eq" else operator

module _ ⦃cases : CaseTable⦄ (codecs : Codecs) (source : SourceConfig) where
  -- The checks on the normalised parts, and the assignment of the value.
  unfoldable pub check_property_filter :
      ℕ → Text → Text → Text → Text → JsonValue → Result ReadError EventPropertyFilter
  check_property_filter idx scope name value_type operator value =
      if is_empty scope || is_empty name || is_empty value_type
      then invalid_filter codecs idx (text "scope, name, and type are required")
      else if not (operator == text "eq") && not (operator == text "neq")
      then invalid_filter codecs idx (text "unsupported operator " ++ codecs.quoted operator)
      else if not (allows_property_filter source scope name value_type)
      then invalid_filter codecs idx
          (scope ++ text "." ++ name ++ text " " ++ value_type ++ text " is not allowlisted")
      else filter_result codecs idx
          (assign_property_filter_value codecs (bare_filter scope name value_type operator) value)

  -- What follows the decoding.
  unfoldable pub admit_property_filter :
      ℕ → Option PropertyFilterPayload → Result ReadError EventPropertyFilter
  admit_property_filter idx none = invalid_filter codecs idx (text "must be JSON")
  admit_property_filter idx (some payload) =
      check_property_filter idx (to_lower (trim_space payload.scope)) (trim_space payload.name)
        (to_lower (trim_space payload.type)) (or_equals (to_lower (trim_space payload.operator)))
        payload.value

  -- parsePropertyFilter
  unfoldable pub parse_property_filter : ℕ → Text → Result ReadError EventPropertyFilter
  parse_property_filter idx raw = admit_property_filter idx (codecs.decode_property_filter raw)

  -- The loop of parsePropertyFilters.
  unfoldable pub parse_each : ℕ → List Text → Result ReadError (List EventPropertyFilter)
  parse_each idx [] = ok []
  parse_each idx (raw ∷ rest) = do
    filter ← parse_property_filter idx raw
    filters ← parse_each (suc idx) rest
    ok (filter ∷ filters)

  -- parsePropertyFilters
  unfoldable pub parse_property_filters : HttpRequest → Result ReadError (List EventPropertyFilter)
  parse_property_filters ctx =
      let raw_filters = property_filter_args ctx.query_args in
      if ltb default_property_filter_cap (length raw_filters)
      then invalid_property_filter_error codecs (
          text "too many property filters: "
          ++ itoa (length raw_filters)
          ++ text " > "
          ++ itoa default_property_filter_cap)
      else parse_each 0 raw_filters

module _ ⦃cases : CaseTable⦄ where
  -- The selector of a filter, unless a part of it is blank.
  unfoldable pub selector_of : AllowedPropertyFilter → Option PropertySelector
  selector_of filter =
      let scope = to_lower (trim_space filter.scope) in
      let name = trim_space filter.name in
      if is_empty scope || is_empty name then none else some (record { scope = scope; name = name })

-- PropertySelector is compared with == as a map key.
unfoldable pub selector_eq : PropertySelector → PropertySelector → Bool
selector_eq a b = a.scope == b.scope && a.name == b.name

pub selector_eq_iff : (a b : PropertySelector) → (selector_eq a b ≡ true) ↔ (a ≡ b)
unfolding selector_eq
selector_eq_iff a b = ground (arith, text_eq_iff a.scope b.scope, text_eq_iff a.name b.name)

instance abbrev pub PropertySelector_eq : DecEq PropertySelector
PropertySelector_eq = record { equal = selector_eq; equal_iff = selector_eq_iff }

module _ ⦃cases : CaseTable⦄ where
  -- toPropertySelectors
  unfoldable pub to_property_selectors : List AllowedPropertyFilter → List PropertySelector
  to_property_selectors filters = distinct selector_of (λ selector. selector) [] filters

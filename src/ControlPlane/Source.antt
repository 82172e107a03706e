-- ===== src/ControlPlane/Source.antt =====
-- internal/controlplane/resolver.go: source configurations and their normalisation.
pub mod Normal
use anaysitics_service.Base.{
  ℕ, ◌*◌, Bool, ◌&&◌, ◌||◌, ◌==◌, List, [], ◌∷◌, ◌++◌, map, Option, none, some, if◌then◌else◌,
}
use anaysitics_service.Base.Distinct.{distinct}
use anaysitics_service.Base.Int.{ℤ, pos, leb_ℤ, ltb_ℤ, wrap64, scale, quotient}
use anaysitics_service.Base.Text.{Text, Text_eq, text, is_empty, trim_space, CaseTable, to_lower}

pub record AllowedPropertyFilter : Type 0 where
  pub scope : Text
  pub name : Text
  pub value_types : List Text

pub record ReadbackPolicy : Type 0 where
  pub realtime : Bool
  pub events : Bool
  pub properties : Bool
  pub goals : Bool

pub record SourceConfig : Type 0 where
  pub write_key : Text
  pub enabled : Bool
  pub tenant_id : Text
  pub project_id : Text
  pub source_id : Text
  pub source_type : Text
  pub allowed_origins : List Text
  pub allowed_property_filters : List AllowedPropertyFilter
  pub readback_policy : ReadbackPolicy
  pub bot_user_agents : List Text
  pub internal_cidrs : List Text
  pub internal_ips : List Text
  pub session_salt : Text
  pub visit_salt : Text
  pub visit_window : ℤ
  pub visit_window_seconds : ℤ
  pub client_hash_salt : Text
  pub include_client_fingerprint : Bool

-- time.Second and time.Minute in nanoseconds, and 30 * time.Minute.
abbrev pub second : ℕ
second = 1_000_000_000

abbrev pub minute : ℕ
minute = 60 * second

abbrev pub default_visit_window : ℤ
default_visit_window = pos (30 * minute)

-- The product of durations wraps; the `int` of seconds and the duration have 64 bits.
unfoldable pub normalize_visit_window : ℤ → ℤ → ℤ
normalize_visit_window window encoded_seconds =
    let decoded : ℤ =
      (if leb_ℤ window (pos 0) && ltb_ℤ (pos 0) encoded_seconds
        then wrap64 (scale encoded_seconds second)
        else window) in
    if leb_ℤ decoded (pos 0) then default_visit_window else decoded

-- A value that is not blank, trimmed.
unfoldable pub trimmed : Text → Option Text
trimmed value = let value' = trim_space value in if is_empty value' then none else some value'

-- What is kept for one value of a list.
abbrev pub append_some {ℓ} : {A : Type ℓ} → Option A → List A → List A
append_some none out = out
append_some (some a) out = a ∷ out

unfoldable pub normalize_string_list : List Text → List Text
normalize_string_list [] = []
normalize_string_list (value ∷ values) = append_some (trimmed value) (normalize_string_list values)

-- strings.Join(values, ",")
unfoldable pub join_comma : List Text → Text
join_comma [] = []
join_comma (value ∷ []) = value
join_comma (value ∷ next ∷ values) = value ++ (b',' ∷ join_comma (next ∷ values))

module _ ⦃cases : CaseTable⦄ where
  unfoldable pub normalize_lower_string_list : List Text → List Text
  normalize_lower_string_list values = map to_lower (normalize_string_list values)

  -- One selector, or nothing where its scope or name is blank.
  unfoldable pub normalize_filter : AllowedPropertyFilter → Option AllowedPropertyFilter
  normalize_filter value =
      let scope = to_lower (trim_space value.scope) in
      let name = trim_space value.name in
      if is_empty scope || is_empty name
      then none
      else some (record {
        scope = scope;
        name = name;
        value_types = normalize_lower_string_list value.value_types;
      })

-- The key under which a selector is looked up among those seen before.
unfoldable pub filter_key : AllowedPropertyFilter → Text
filter_key value = value.scope ++ (0 ∷ value.name ++ (0 ∷ join_comma value.value_types))

unfoldable pub default_source_type : Text → Text
default_source_type source_type = if is_empty source_type then text "web" else source_type

module _ ⦃cases : CaseTable⦄ where
  unfoldable pub normalize_allowed_property_filters :
      List AllowedPropertyFilter → List AllowedPropertyFilter
  normalize_allowed_property_filters values = distinct normalize_filter filter_key [] values

  -- SourceConfig.Normalize
  unfoldable pub normalize : SourceConfig → SourceConfig
  normalize c =
      let window = normalize_visit_window c.visit_window c.visit_window_seconds in
      record c {
        write_key = trim_space c.write_key;
        tenant_id = trim_space c.tenant_id;
        project_id = trim_space c.project_id;
        source_id = trim_space c.source_id;
        source_type = default_source_type (trim_space c.source_type);
        allowed_origins = normalize_string_list c.allowed_origins;
        allowed_property_filters = normalize_allowed_property_filters c.allowed_property_filters;
        bot_user_agents = normalize_string_list c.bot_user_agents;
        internal_cidrs = normalize_string_list c.internal_cidrs;
        internal_ips = normalize_string_list c.internal_ips;
        session_salt = trim_space c.session_salt;
        visit_salt = trim_space c.visit_salt;
        visit_window = window;
        visit_window_seconds = quotient window second;
        client_hash_salt = trim_space c.client_hash_salt;
      }

-- ===== src/CollectApi/Evidence.antt =====
-- internal/collectapi/query.go: the responses of the readback routes and their query evidence.
use anaysitics_service.Base.{
  Bool, false, ◌&&◌, nat_eq, List, map, Option, none, some, if◌then◌else◌,
}
use anaysitics_service.Base.Int.{ℤ, pos, leb_ℤ, plus, wrap64}
use anaysitics_service.Base.Text.{Text, text, is_empty, trim_space}
use anaysitics_service.ControlPlane.Source.{SourceConfig}
use anaysitics_service.CollectApi.Storage.{
  EventRecord, PropertyCatalogEntry, EventPropertyFilterEvidence, EventQueryEvidence,
}
use anaysitics_service.CollectApi.Handler.{Codecs}

pub record QuerySourceResponse : Type 0 where
  pub tenant_id : Text
  pub project_id : Text
  pub source_id : Text
  pub source_type : Text

-- json.RawMessage is nil or the text of a JSON value.
pub record QueryEventResponse : Type 0 where
  pub id : Text
  pub tenant_id : Text
  pub project_id : Text
  pub source_id : Text
  pub source_type : Text
  pub event_name : Text
  pub distinct_id : Text
  pub session_id : Text
  pub visit_id : Text
  pub event_time : Text
  pub received_at : Text
  pub properties : Option Text
  pub user_properties : Option Text
  pub source : Text

pub record QueryPropertyFilterEvidenceResponse : Type 0 where
  pub scope : Text
  pub name : Text
  pub value_type : Text
  pub operator : Text

pub record QueryEvidenceResponse : Type 0 where
  pub family : Text
  pub read_path : Text
  pub optimization : Text
  pub effective_limit : ℤ
  pub offset : ℤ
  pub has_time_lower_bound : Bool
  pub has_time_upper_bound : Bool
  pub time_window_seconds : ℤ
  pub scalar_filter_count : ℤ
  pub property_filter_count : ℤ
  pub uses_property_table : Bool
  pub property_filters : List QueryPropertyFilterEvidenceResponse
  pub sort_field : Text
  pub sort_direction : Text
  pub observed_rows : ℤ
  pub pressure : Text

pub record PropertyCatalogItemResponse : Type 0 where
  pub scope : Text
  pub name : Text
  pub value_type : Text
  pub first_seen_at : Text
  pub last_seen_at : Text

abbrev pub pressure_low : Text
pressure_low = text "low"

abbrev pub pressure_medium : Text
pressure_medium = text "medium"

abbrev pub pressure_high : Text
pressure_high = text "high"

abbrev is_zero : ℤ → Bool
is_zero (pos n) = nat_eq n 0
is_zero other = false

-- queryPressure; the counts are of type `int`, whose sum wraps.
unfoldable pub query_pressure : EventQueryEvidence → Text
query_pressure evidence =
    let total_filters = wrap64 (plus evidence.scalar_filter_count evidence.property_filter_count) in
    if is_zero evidence.property_filter_count && leb_ℤ evidence.scalar_filter_count (pos 2)
    then pressure_low
    else if leb_ℤ evidence.property_filter_count (pos 2) && leb_ℤ total_filters (pos 6)
    then pressure_medium
    else pressure_high

-- One element of toPropertyFilterEvidenceResponses.
unfoldable pub to_property_filter_evidence_response :
    EventPropertyFilterEvidence → QueryPropertyFilterEvidenceResponse
to_property_filter_evidence_response filter = record {
  scope = filter.scope;
  name = filter.name;
  value_type = filter.value_type;
  operator = filter.operator;
}

-- toQueryEvidenceResponse
unfoldable pub to_query_evidence_response : EventQueryEvidence → ℤ → Option QueryEvidenceResponse
to_query_evidence_response evidence observed_rows =
    if is_empty evidence.family
    then none
    else some (record {
      family = evidence.family;
      read_path = evidence.read_path;
      optimization = evidence.optimization;
      effective_limit = evidence.effective_limit;
      offset = evidence.offset;
      has_time_lower_bound = evidence.has_time_lower_bound;
      has_time_upper_bound = evidence.has_time_upper_bound;
      time_window_seconds = evidence.time_window_seconds;
      scalar_filter_count = evidence.scalar_filter_count;
      property_filter_count = evidence.property_filter_count;
      uses_property_table = evidence.uses_property_table;
      property_filters = map to_property_filter_evidence_response evidence.property_filters;
      sort_field = evidence.sort_field;
      sort_direction = evidence.sort_direction;
      observed_rows = observed_rows;
      pressure = query_pressure evidence;
    })

-- toQuerySourceResponse
unfoldable pub to_query_source_response : SourceConfig → QuerySourceResponse
to_query_source_response source = record {
  tenant_id = source.tenant_id;
  project_id = source.project_id;
  source_id = source.source_id;
  source_type = source.source_type;
}

module _ (codecs : Codecs) where
  -- queryJSON
  unfoldable pub query_json : Text → Option Text
  query_json value =
      let trimmed = trim_space value in
      if is_empty trimmed
      then none
      else if codecs.json_valid trimmed
      then some trimmed
      else codecs.json_quote trimmed

  -- toQueryEventResponse
  unfoldable pub to_query_event_response : EventRecord → QueryEventResponse
  to_query_event_response row = record {
    id = row.id;
    tenant_id = row.tenant_id;
    project_id = row.project_id;
    source_id = row.source_id;
    source_type = row.source_type;
    event_name = row.event_name;
    distinct_id = row.distinct_id;
    session_id = row.session_id;
    visit_id = row.visit_id;
    event_time = codecs.format_rfc3339_nano row.event_time;
    received_at = codecs.format_rfc3339_nano row.received_at;
    properties = query_json row.properties;
    user_properties = query_json row.user_properties;
    source = row.source;
  }

  -- One element of toPropertyCatalogItemResponses.
  unfoldable pub to_property_catalog_item_response :
      PropertyCatalogEntry → PropertyCatalogItemResponse
  to_property_catalog_item_response entry = record {
    scope = entry.scope;
    name = entry.name;
    value_type = entry.value_type;
    first_seen_at = codecs.format_rfc3339_nano entry.first_seen_at;
    last_seen_at = codecs.format_rfc3339_nano entry.last_seen_at;
  }

-- ===== src/CollectApi/Storage.antt =====
-- What the handlers hand to the stores of analytics-core and get back: the queries, the rows and
-- the evidence, with the fields that internal/collectapi/query.go names.
use anaysitics_service.Base.{ℕ, Bool, List, Option, Result}
use anaysitics_service.Base.Int.{ℤ}
use anaysitics_service.Base.Text.{Text}

-- Instants are nanoseconds from the zero time, on either side of it.
pub record RealtimeQuery : Type 0 where
  pub tenant_id : Text
  pub project_id : Text
  pub source_id : Text
  pub since : ℤ
  pub limit : ℤ

-- A float64 stands for its bits.
pub record EventPropertyFilter : Type 0 where
  pub scope : Text
  pub name : Text
  pub value_type : Text
  pub operator : Text
  pub string_value : Text
  pub number_value : ℕ
  pub bool_value : Bool

pub record PropertySelector : Type 0 where
  pub scope : Text
  pub name : Text

pub record EventFilter : Type 0 where
  pub field : Text
  pub operator : Text
  pub value : Text

pub record EventListQuery : Type 0 where
  pub tenant_id : Text
  pub project_id : Text
  pub source_id : Text
  pub event_name : Text
  pub distinct_id : Text
  pub filters : List EventFilter
  pub from : ℤ
  pub to : ℤ
  pub limit : ℤ
  pub offset : ℤ
  pub sort_field : Text
  pub sort_direction : Text
  pub property_filters : List EventPropertyFilter
  pub allowed_property_selectors : List PropertySelector

pub record EventCountQuery : Type 0 where
  pub tenant_id : Text
  pub project_id : Text
  pub source_id : Text
  pub event_name : Text
  pub from : ℤ
  pub to : ℤ

pub record PropertyCatalogQuery : Type 0 where
  pub tenant_id : Text
  pub project_id : Text
  pub source_id : Text
  pub scope : Text
  pub limit : ℤ

pub record EventRecord : Type 0 where
  pub id : Text
  pub tenant_id : Text
  pub project_id : Text
  pub source_id : Text
  pub source_type : Text
  pub event_name : Text
  pub distinct_id : Text
  pub session_id : Text
  pub visit_id : Text
  pub event_time : ℤ
  pub received_at : ℤ
  pub properties : Text
  pub user_properties : Text
  pub source : Text

pub record PropertyCatalogEntry : Type 0 where
  pub scope : Text
  pub name : Text
  pub value_type : Text
  pub first_seen_at : ℤ
  pub last_seen_at : ℤ

pub record EventPropertyFilterEvidence : Type 0 where
  pub scope : Text
  pub name : Text
  pub value_type : Text
  pub operator : Text

pub record EventQueryEvidence : Type 0 where
  pub family : Text
  pub read_path : Text
  pub optimization : Text
  pub effective_limit : ℤ
  pub offset : ℤ
  pub has_time_lower_bound : Bool
  pub has_time_upper_bound : Bool
  pub time_window_seconds : ℤ
  pub scalar_filter_count : ℤ
  pub property_filter_count : ℤ
  pub uses_property_table : Bool
  pub property_filters : List EventPropertyFilterEvidence
  pub sort_field : Text
  pub sort_direction : Text

-- An error of the reader: one that is ErrInvalidEventQuery, with its message, or another.
pub data ReadError : Type 0 where
  invalid_event_query : Text → ReadError
  read_failed : ℕ → ReadError

-- storage.EventReaderWithEvidence, in a world W.
pub record EvidenceReader (W : Type 0) : Type 0 where
  pub list_realtime_with_evidence :
      RealtimeQuery → W → Result ReadError (List EventRecord × EventQueryEvidence) × W
  pub list_events_with_evidence :
      EventListQuery → W → Result ReadError (List EventRecord × EventQueryEvidence) × W
  pub count_events_with_evidence :
      EventCountQuery → W → Result ReadError (ℤ × EventQueryEvidence) × W

-- storage.EventReader, and the wider interface if the reader has it.
pub record EventReader (W : Type 0) : Type 0 where
  pub list_realtime : RealtimeQuery → W → Result ReadError (List EventRecord) × W
  pub list_events : EventListQuery → W → Result ReadError (List EventRecord) × W
  pub count_events : EventCountQuery → W → Result ReadError ℤ × W
  pub with_evidence : Option (EvidenceReader W)

-- storage.PropertyCatalogReader
pub record PropertyCatalogReader (W : Type 0) : Type 0 where
  pub list_property_catalog_entries :
      PropertyCatalogQuery → W → Result ℕ (List PropertyCatalogEntry) × W

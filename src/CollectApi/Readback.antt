-- ===== src/CollectApi/Readback.antt =====
-- internal/collectapi/query.go: the handlers of the readback routes.
pub mod Reads
use anaysitics_service.Base.{
  Bool, List, [], ◌∷◌, Option, none, some, Result, ok, err, length, if◌then◌else◌,
}
use mathlib.Core.Option
use anaysitics_service.Base.Action.{◌>>=◌, give}
use anaysitics_service.Base.Int.{ℤ, pos}
use anaysitics_service.Base.Text.{Text, text, is_empty, trim_space}
use anaysitics_service.CollectApi.Request.{HttpRequest}
use anaysitics_service.CollectApi.Storage.{
  RealtimeQuery, EventListQuery, EventCountQuery, EventFilter, EventReader, EventRecord,
  EventQueryEvidence, ReadError,
}
use anaysitics_service.CollectApi.Handler.{
  Handling, Read, read_realtime, read_events, read_count, run_read, write_query_error,
}
use anaysitics_service.CollectApi.Evidence.{
  QuerySourceResponse, QueryEventResponse, QueryEvidenceResponse, PropertyCatalogItemResponse,
  to_query_evidence_response,
}

pub record QueryRealtimeResponse : Type 0 where
  pub source : QuerySourceResponse
  pub items : List QueryEventResponse
  pub since : Text
  pub limit : ℤ
  pub query_evidence : Option QueryEvidenceResponse

pub record QueryEventsResponse : Type 0 where
  pub source : QuerySourceResponse
  pub items : List QueryEventResponse
  pub limit : ℤ
  pub offset : ℤ
  pub from : Text
  pub to : Text
  pub query_evidence : Option QueryEvidenceResponse

pub record QueryGoalResponse : Type 0 where
  pub source : QuerySourceResponse
  pub event_name : Text
  pub from : Text
  pub to : Text
  pub matching_events : ℤ
  pub has_data : Bool
  pub query_evidence : Option QueryEvidenceResponse

pub record PropertyCatalogResponse : Type 0 where
  pub source : QuerySourceResponse
  pub items : List PropertyCatalogItemResponse
  pub limit : ℤ

abbrev pub Rows : Type 0
Rows = List EventRecord × Option QueryEvidenceResponse

-- The evidence of a result that has it.
abbrev pub with_rows : List EventRecord × EventQueryEvidence → Rows
with_rows (rows, evidence) = (rows, to_query_evidence_response evidence (pos (length rows)))

abbrev pub with_count : ℤ × EventQueryEvidence → ℤ × Option QueryEvidenceResponse
with_count (count, evidence) = (count, to_query_evidence_response evidence count)

module _ {W : Type 0} where
  -- What follows a result of the store.
  unfoldable pub answered : {A B : Type 0} → (A → B) → Result ReadError A → Handling W B
  answered f (ok a) = give (f a)
  answered f (err e) = write_query_error e

  -- A query through the wider interface if the reader has it, or without evidence.
  unfoldable pub read_with :
      {A B : Type 0}
      → Read
      → Option (W → Result ReadError B × W)
      → (B → A × Option QueryEvidenceResponse)
      → (W → Result ReadError A × W)
      → Handling W (A × Option QueryEvidenceResponse)
  unfolding answered
  read_with read (some wide) evidence narrow = do
    answer ← run_read read wide
    answered evidence answer
  read_with read none evidence narrow = do
    answer ← run_read read narrow
    answered (λ a. (a, none)) answer

  -- Handler.listRealtime, with what its caller does about an error.
  unfoldable pub list_realtime : EventReader W → RealtimeQuery → Handling W Rows
  unfolding read_with
  list_realtime reader query =
      read_with (read_realtime query)
        (Option.map (λ wide. wide.list_realtime_with_evidence query) reader.with_evidence) with_rows
        (reader.list_realtime query)

  -- Handler.listEvents
  unfoldable pub list_events : EventReader W → EventListQuery → Handling W Rows
  unfolding read_with
  list_events reader query =
      read_with (read_events query)
        (Option.map (λ wide. wide.list_events_with_evidence query) reader.with_evidence) with_rows
        (reader.list_events query)

  -- Handler.countEvents
  unfoldable pub count_events :
      EventReader W → EventCountQuery → Handling W (ℤ × Option QueryEvidenceResponse)
  unfolding read_with
  count_events reader query =
      read_with (read_count query)
        (Option.map (λ wide. wide.count_events_with_evidence query) reader.with_evidence) with_count
        (reader.count_events query)

-- eventColumnFilters
unfoldable pub event_column_filters : HttpRequest → List EventFilter
event_column_filters ctx =
    let visit_id = trim_space (ctx.query (text "visit_id")) in
    if is_empty visit_id
    then []
    else record { field = text "visit_id"; operator = text "eq"; value = visit_id } ∷ []

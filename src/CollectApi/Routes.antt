-- ===== src/CollectApi/Routes.antt =====
-- internal/collectapi/query.go: the handlers of the four readback routes. A handler that stops has
-- written an error response; one that does not has written status 200 with what it returns.
pub mod Isolated
use anaysitics_service.Base.{ℕ, List, map, Option, none, some, Result, ok, err}
use anaysitics_service.Base.Action.{◌>>=◌, ◌>>◌, give, stop, settled}
use anaysitics_service.Base.Int.{ℤ, pos, minus, ltb_ℤ}
use anaysitics_service.Base.Text.{Text, text, trim_space, CaseTable}
use anaysitics_service.ControlPlane.Source.{SourceConfig}
use anaysitics_service.ControlPlane.Policy.{
  readback_route_realtime, readback_route_events, readback_route_goals, readback_route_properties,
}
use anaysitics_service.CollectApi.Request.{HttpRequest}
use anaysitics_service.CollectApi.Storage.{
  EventListQuery, PropertyCatalogQuery, EventPropertyFilter, EventReader, PropertyCatalogReader,
  PropertyCatalogEntry,
}
use anaysitics_service.CollectApi.Handler.{
  Handler, Handling, read_catalog, property_catalog_query_failed, call, log, run_read, reply,
}
use anaysitics_service.CollectApi.Gates.{pass_gates}
use anaysitics_service.CollectApi.Params.{
  Parsed, default_realtime_window, default_realtime_query_cap, default_events_query_cap,
  parse_required_query_time, parse_query_time_or_default, parse_query_limit_or_default,
  parse_query_int_or_default, parse_property_catalog_limit, parse_property_catalog_scope,
  or_bad_request,
}
use anaysitics_service.CollectApi.Filters.{parse_property_filters, to_property_selectors}
use anaysitics_service.CollectApi.Evidence.{
  to_query_source_response, to_query_event_response, to_property_catalog_item_response,
}
use anaysitics_service.CollectApi.Readback.{
  QueryRealtimeResponse, QueryEventsResponse, QueryGoalResponse, PropertyCatalogResponse, answered,
  list_realtime, list_events, count_events, event_column_filters,
}

module _ {W : Type 0} where
  -- `h.opts.QueryReader == nil`, and likewise for the catalog.
  abbrev pub when_configured : {A B : Type 0} → Option A → (A → Handling W B) → Handling W B
  when_configured none f = stop (reply 404 (text "not found"))
  when_configured (some a) f = f a

  abbrev pub param : {A : Type 0} → Parsed A → Handling W A
  param p = settled (or_bad_request p)

  -- The property that `ValidateEventName` returned, if any.
  abbrev pub no_error : Option Text → Handling W (Unit {0})
  no_error none = give tt
  no_error (some message) = stop (reply 400 message)

  -- What follows the catalog's answer.
  unfoldable pub catalog_answer :
      Result ℕ (List PropertyCatalogEntry) → Handling W (List PropertyCatalogEntry)
  catalog_answer (ok entries) = give entries
  catalog_answer (err e) = do
    log (property_catalog_query_failed e)
    stop (reply 500 (text "internal server error"))

  module _ ⦃cases : CaseTable⦄ (h : Handler W) (ctx : HttpRequest) where
    unfoldable pub realtime_of : EventReader W → SourceConfig → Handling W QueryRealtimeResponse
    realtime_of reader source = do
      time ← call h.now
      since ← param (
          parse_query_time_or_default h.codecs ctx (text "since")
            (minus time default_realtime_window))
      limit ← param (parse_query_limit_or_default ctx (text "limit") default_realtime_query_cap)
      (rows, evidence) ← list_realtime reader (record {
        tenant_id = source.tenant_id;
        project_id = source.project_id;
        source_id = source.source_id;
        since = since;
        limit = limit;
      })
      give (record {
        source = to_query_source_response source;
        items = map (to_query_event_response h.codecs) rows;
        since = h.codecs.format_rfc3339_nano since;
        limit = limit;
        query_evidence = evidence;
      })

    -- Handler.handleRealtime
    unfoldable pub handle_realtime : Handling W QueryRealtimeResponse
    handle_realtime =
        when_configured h.query_reader
          (λ reader. pass_gates h ctx readback_route_realtime >>= realtime_of reader)

    -- The query of an events request.
    abbrev pub event_list_query :
        SourceConfig → ℤ → ℤ → ℤ → ℤ → List EventPropertyFilter → EventListQuery
    event_list_query source from to limit offset property_filters = record {
      tenant_id = source.tenant_id;
      project_id = source.project_id;
      source_id = source.source_id;
      event_name = trim_space (ctx.query (text "event_name"));
      distinct_id = trim_space (ctx.query (text "distinct_id"));
      filters = event_column_filters ctx;
      from = from;
      to = to;
      limit = limit;
      offset = offset;
      sort_field = trim_space (ctx.query (text "sort_field"));
      sort_direction = trim_space (ctx.query (text "sort_direction"));
      property_filters = property_filters;
      allowed_property_selectors = to_property_selectors source.allowed_property_filters;
    }

    unfoldable pub events_of : EventReader W → SourceConfig → Handling W QueryEventsResponse
    events_of reader source = do
      from ← param (parse_required_query_time h.codecs ctx (text "from"))
      to ← param (parse_required_query_time h.codecs ctx (text "to"))
      limit ← param (parse_query_limit_or_default ctx (text "limit") default_events_query_cap)
      offset ← param (parse_query_int_or_default ctx (text "offset") (pos 0))
      property_filters ← answered (λ filters. filters) (parse_property_filters h.codecs source ctx)
      (rows, evidence) ←
          list_events reader (event_list_query source from to limit offset property_filters)
      give (record {
        source = to_query_source_response source;
        items = map (to_query_event_response h.codecs) rows;
        limit = limit;
        offset = offset;
        from = h.codecs.format_rfc3339_nano from;
        to = h.codecs.format_rfc3339_nano to;
        query_evidence = evidence;
      })

    -- Handler.handleEvents
    unfoldable pub handle_events : Handling W QueryEventsResponse
    handle_events =
        when_configured h.query_reader
          (λ reader. pass_gates h ctx readback_route_events >>= events_of reader)

    unfoldable pub goals_of : EventReader W → SourceConfig → Handling W QueryGoalResponse
    goals_of reader source = do
      let event_name = trim_space (ctx.query (text "event_name"))
      no_error (h.codecs.event_name_error event_name)
      from ← param (parse_required_query_time h.codecs ctx (text "from"))
      to ← param (parse_required_query_time h.codecs ctx (text "to"))
      (count, evidence) ← count_events reader (record {
        tenant_id = source.tenant_id;
        project_id = source.project_id;
        source_id = source.source_id;
        event_name = event_name;
        from = from;
        to = to;
      })
      give (record {
        source = to_query_source_response source;
        event_name = event_name;
        from = h.codecs.format_rfc3339_nano from;
        to = h.codecs.format_rfc3339_nano to;
        matching_events = count;
        has_data = ltb_ℤ (pos 0) count;
        query_evidence = evidence;
      })

    -- Handler.handleGoals
    unfoldable pub handle_goals : Handling W QueryGoalResponse
    handle_goals =
        when_configured h.query_reader
          (λ reader. pass_gates h ctx readback_route_goals >>= goals_of reader)

    unfoldable pub properties_of :
        PropertyCatalogReader W → SourceConfig → Handling W PropertyCatalogResponse
    properties_of catalog source = do
      scope ← param (parse_property_catalog_scope ctx)
      limit ← param (parse_property_catalog_limit ctx)
      let query : PropertyCatalogQuery = record {
        tenant_id = source.tenant_id;
        project_id = source.project_id;
        source_id = source.source_id;
        scope = scope;
        limit = limit;
      }
      answer ← run_read (read_catalog query) (catalog.list_property_catalog_entries query)
      entries ← catalog_answer answer
      give (record {
        source = to_query_source_response source;
        items = map (to_property_catalog_item_response h.codecs) entries;
        limit = limit;
      })

    -- Handler.handleProperties
    unfoldable pub handle_properties : Handling W PropertyCatalogResponse
    handle_properties =
        when_configured h.property_catalog
          (λ catalog. pass_gates h ctx readback_route_properties >>= properties_of catalog)

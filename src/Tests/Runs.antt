-- ===== src/Tests/Runs.antt =====
-- What a run of the model computes with, by part: a test unfolds one of these names.
use anaysitics_service.Base.{contains}
use anaysitics_service.Base.Distinct.{distinct}
use anaysitics_service.Base.Int.{of_bits, wrap64, scale, quotient}
use anaysitics_service.Base.Table.{find, without, put}
use anaysitics_service.Base.Text.{
  text, text_eq, is_space, trim_left, trim_right, trim_space, to_lower, equal_fold,
}
use anaysitics_service.ControlPlane.Source.{
  normalize_visit_window, trimmed, normalize_string_list, join_comma, normalize_lower_string_list,
  normalize_filter, filter_key, default_source_type, normalize_allowed_property_filters, normalize,
}
use anaysitics_service.ControlPlane.Policy.{
  any_origin, allows_origin, filter_allows, any_filter, allows_property_filter, allows_readback,
}
use anaysitics_service.ControlPlane.Validate.{
  value_types_valid, validate_allowed_property_filters, validate_source_config,
}
use anaysitics_service.ControlPlane.Memory.{
  add_source, index_sources, new_memory_resolver, enabled_source, memory_resolve,
}
use anaysitics_service.ControlPlane.SchemaBound.{
  key_eq, new_schema_surface_key, allow_sources, new_schema_bound_resolver, check_surface,
  schema_bound_resolve,
}
use anaysitics_service.ControlPlane.Http.{
  live_entry, cached, store, decode_runtime_source, interpret, resolve_request, fetch_source,
  keep_fetched, keep_revalidated, resolve_from, resolve_source,
}
use anaysitics_service.Base.Action.{◌>>=◌}
use anaysitics_service.Base.Int.{minus, plus}
use anaysitics_service.Base.Text.Decimal.{itoa, atoi, unsigned, digits_value}
use anaysitics_service.CollectApi.Credentials.{
  normalize_query_write_keys, or_fallback, append_credential, rotation_id, explicit_id,
  append_explicit, append_legacy, normalize_query_credentials, last_match, decide_match,
  authorize_query_token, allows_readback_route, allows_write_key,
}
use anaysitics_service.CollectApi.Request.{
  cut_at_comma, first_header_value, bearer_token, request_origin, query_write_key, write_key,
  canonical_client_ip, forwarded_ip, client_ip,
}
use anaysitics_service.CollectApi.Handler.{
  resolve_error_reply, write_resolve_error, write_query_error,
}
use anaysitics_service.CollectApi.Gates.{
  rejected_line, audit_rejected_query_token, audit_accepted_query_token, accepted_audit,
  check_decision, require_process_query_token, check_write_key, require_query_token, check_source,
  resolve_query_source, require_readback_policy, pass_gates,
}
use anaysitics_service.CollectApi.Params.{
  parse_time_value, parse_required_query_time, parse_query_time_or_default, at_least,
  normalize_query_int_or_default, parse_query_limit_or_default, parse_query_int_or_default,
  parse_property_catalog_limit, parse_property_catalog_scope, or_bad_request,
}
use anaysitics_service.CollectApi.Filters.{
  property_filter_args, set_string, set_number, set_bool, assign_property_filter_value,
  check_property_filter, admit_property_filter, parse_property_filter, parse_each,
  parse_property_filters, selector_of, selector_eq, to_property_selectors,
}
use anaysitics_service.CollectApi.Evidence.{
  query_pressure, to_property_filter_evidence_response, to_query_evidence_response,
  to_query_source_response, query_json, to_query_event_response, to_property_catalog_item_response,
}
use anaysitics_service.CollectApi.Readback.{
  answered, read_with, list_realtime, list_events, count_events, event_column_filters,
}
use anaysitics_service.CollectApi.Routes.{
  catalog_answer, realtime_of, handle_realtime, events_of, handle_events, goals_of, handle_goals,
  properties_of, handle_properties,
}
use anaysitics_service.CollectApi.Collect.{
  stages, client_info, write_collect_error, collect_answer, call_core, ask_for_source,
  or_internal_error, stop_resolving, seal_request, hand_over, collect_for, collect_payload,
  handle_collect,
}
use anaysitics_service.Runtime.TableWriter.{
  exec, require_click_house_table, mark_ensured, ensure_property_table, ensure_new_table,
  unless_ensured, ensure_tables_for_envelope, delegate, write_event,
}
use anaysitics_service.CollectApi.Metrics.{
  metadata, sample, render_metrics, replace_all, escape_prometheus_label, label_pair,
  write_prometheus_labels,
}
use anaysitics_service.Config.Names.{split_comma, normalize_names, parse_csv}
use anaysitics_service.Config.Env.{
  env_string, env_bool, env_int, env_duration, parse_optional_time, env_optional_time,
  default_worker_consumer,
}
use anaysitics_service.Config.Credentials.{
  parse_query_token_scope, scopes_from, parse_query_token_scopes_list, parse_query_token_scopes_csv,
  is_backwards, or_default_id, collect_credential, primary_query_credential_from_env,
  credential_of_object, decode_query_rotation_credential, collect_rotation, collect_from_env,
  query_credentials_from_env, query_token_values,
}
use anaysitics_service.Config.Kafka.{
  has_kafka_tls_material, is_unsupported_kafka_sasl_mechanism, has_kafka_sasl_material,
  validate_kafka_security_config,
}
use anaysitics_service.Config.Defaults.{read_settings}
use anaysitics_service.Config.Load.{
  check_event_bus, check_kafka_routes, check_resolver, check_stores, check_sources, decode_sources,
  load_from_env,
}
use anaysitics_service.CollectApi.Kafka.Select.{
  format_int, counter_metric, gauge_metric, labeled_gauge_metric, bool_float, process_metrics,
  commit_metrics, all_commit_metrics, kafka_prometheus_metrics, render_kafka_metrics,
}
use anaysitics_service.CollectApi.Kafka.Routes.{
  found_snapshot, kafka_snapshot, handle_kafka_diagnostics, handle_kafka_metrics,
}
use anaysitics_service.CollectApi.App.{
  is_route_path, check_paths, with_defaults, with_credentials, route_paths, has_read_routes,
  validate_route_paths, new_handler, register_routes,
}
use anaysitics_service.ControlPlane.Http.Endpoint.{
  trim_brackets, has_dot, bare_host, is_loopback_host, is_private_network_host,
  validate_control_plane_transport, absolute_url, new_http_resolver,
}
use anaysitics_service.Runtime.Credentials.{to_query_credentials}
use anaysitics_service.Runtime.Schema.{
  routing_key, create_source_tables, validate_source_tables, create_click_house_tables,
  validate_click_house_tables, ensure_click_house_tables,
}
use anaysitics_service.Runtime.Clients.{
  perform, connect, close_client, close_all, or_close, or_close_all,
}
use anaysitics_service.Runtime.Stores.{
  property_cataloging_requires_existing_table, click_house_query_dsn, drop_client, open_mysql,
  open_click_house_native, open_click_house_query, require_mysql_table, ensure_tables,
  with_property_indexing, with_property_cataloging, new_event_writer, new_ingestion_processor,
  new_query_reader, new_property_catalog_reader,
}
use anaysitics_service.Runtime.Bus.{
  load_root_cas, load_certificate, new_kafka_tls_config, new_redis_bus, new_kafka_bus,
  new_event_bus, bus_closers, kafka_bus_from_event_bus,
}
use anaysitics_service.Runtime.Resolver.{resolver_options, select_resolver, new_source_resolver}
use anaysitics_service.Runtime.Selectors.{
  filter_selector, source_selectors, all_selectors, allowed_property_selectors,
  query_builder_options,
}
use anaysitics_service.Geoip.{
  name_in, first_entry, first_name, first_subdivision_name, location_of, answer, decoded, looked_up,
  parsed, resolve,
}
use anaysitics_service.Main.{
  exit_fatally, line_of, close_lines, return_closing, shut_down_after_worker, shut_down,
  on_selected, serve_until_selected, run_assembled, run_loaded, run_main,
}
use anaysitics_service.CollectApi.Static.{new_app}
use anaysitics_service.Runtime.KafkaStats.{
  commit_diagnostics, clone_paused_partitions, kafka_diagnostics_response_from_stats,
}
use anaysitics_service.Runtime.Options.{
  redis_options, redis_stream_options, kafka_options, click_house_options,
}
use anaysitics_service.Runtime.Assembly.{
  new_kafka_source, app_options, new_geo_resolver, open_parts, processor_or_close, new_processor,
  new_runtime, close_runtime, start,
}

unfoldable pub base_runs : Unit {0}
unfolding contains distinct of_bits wrap64 scale quotient find without put text text_eq is_space
    trim_left trim_right trim_space to_lower equal_fold
base_runs = tt

unfoldable pub source_runs : Unit {0}
unfolding base_runs normalize_visit_window trimmed normalize_string_list join_comma
    normalize_lower_string_list normalize_filter filter_key default_source_type
    normalize_allowed_property_filters normalize any_origin allows_origin filter_allows any_filter
    allows_property_filter allows_readback value_types_valid validate_allowed_property_filters
    validate_source_config
source_runs = tt

unfoldable pub resolver_runs : Unit {0}
unfolding source_runs add_source index_sources new_memory_resolver enabled_source memory_resolve
    key_eq new_schema_surface_key allow_sources new_schema_bound_resolver check_surface
    schema_bound_resolve live_entry cached store decode_runtime_source interpret resolve_request
    fetch_source keep_fetched keep_revalidated resolve_from resolve_source
resolver_runs = tt

unfoldable pub request_runs : Unit {0}
unfolding source_runs ◌>>=◌ minus plus itoa atoi unsigned digits_value normalize_query_write_keys
    or_fallback append_credential rotation_id explicit_id append_explicit append_legacy
    normalize_query_credentials last_match decide_match authorize_query_token allows_readback_route
    allows_write_key cut_at_comma first_header_value bearer_token request_origin query_write_key
    write_key canonical_client_ip forwarded_ip client_ip resolve_error_reply write_resolve_error
    write_query_error rejected_line audit_rejected_query_token audit_accepted_query_token
    accepted_audit check_decision require_process_query_token check_write_key require_query_token
    check_source resolve_query_source require_readback_policy pass_gates
request_runs = tt

unfoldable pub route_runs : Unit {0}
unfolding request_runs parse_time_value parse_required_query_time parse_query_time_or_default
    at_least normalize_query_int_or_default parse_query_limit_or_default parse_query_int_or_default
    parse_property_catalog_limit parse_property_catalog_scope or_bad_request property_filter_args
    set_string set_number set_bool assign_property_filter_value check_property_filter
    admit_property_filter parse_property_filter parse_each parse_property_filters selector_of
    selector_eq to_property_selectors query_pressure to_property_filter_evidence_response
    to_query_evidence_response to_query_source_response query_json to_query_event_response
    to_property_catalog_item_response answered read_with list_realtime list_events count_events
    event_column_filters catalog_answer realtime_of handle_realtime events_of handle_events goals_of
    handle_goals properties_of handle_properties
route_runs = tt

unfoldable pub collect_runs : Unit {0}
unfolding request_runs stages client_info write_collect_error collect_answer call_core
    ask_for_source or_internal_error stop_resolving seal_request hand_over collect_for
    collect_payload handle_collect
collect_runs = tt

unfoldable pub table_runs : Unit {0}
unfolding base_runs ◌>>=◌ exec require_click_house_table mark_ensured ensure_property_table
    ensure_new_table unless_ensured ensure_tables_for_envelope delegate write_event
table_runs = tt

unfoldable pub label_runs : Unit {0}
unfolding base_runs replace_all escape_prometheus_label label_pair write_prometheus_labels metadata
    sample render_metrics
label_runs = tt

unfoldable pub config_runs : Unit {0}
unfolding request_runs split_comma normalize_names parse_csv env_string env_bool env_int
    env_duration parse_optional_time env_optional_time default_worker_consumer
    parse_query_token_scope scopes_from parse_query_token_scopes_list parse_query_token_scopes_csv
    is_backwards or_default_id collect_credential primary_query_credential_from_env
    credential_of_object decode_query_rotation_credential collect_rotation collect_from_env
    query_credentials_from_env query_token_values has_kafka_tls_material
    is_unsupported_kafka_sasl_mechanism has_kafka_sasl_material validate_kafka_security_config
    read_settings check_event_bus check_kafka_routes check_resolver check_stores check_sources
    decode_sources load_from_env
config_runs = tt

unfoldable pub kafka_runs : Unit {0}
unfolding request_runs label_runs found_snapshot kafka_snapshot handle_kafka_diagnostics format_int
    counter_metric gauge_metric labeled_gauge_metric bool_float process_metrics commit_metrics
    all_commit_metrics kafka_prometheus_metrics render_kafka_metrics handle_kafka_metrics
kafka_runs = tt

unfoldable pub app_runs : Unit {0}
unfolding config_runs is_route_path check_paths with_defaults with_credentials route_paths
    has_read_routes validate_route_paths new_handler register_routes trim_brackets has_dot bare_host
    is_loopback_host is_private_network_host validate_control_plane_transport absolute_url
    new_http_resolver to_query_credentials
app_runs = tt

unfoldable pub schema_runs : Unit {0}
unfolding table_runs source_runs routing_key create_source_tables validate_source_tables
    create_click_house_tables validate_click_house_tables ensure_click_house_tables
schema_runs = tt

unfoldable pub selector_runs : Unit {0}
unfolding source_runs selector_eq filter_selector source_selectors all_selectors
    allowed_property_selectors query_builder_options
selector_runs = tt

unfoldable pub assembly_runs : Unit {0}
unfolding app_runs schema_runs selector_runs resolver_runs new_app commit_diagnostics
    clone_paused_partitions kafka_diagnostics_response_from_stats redis_options redis_stream_options
    kafka_options click_house_options perform connect close_client close_all or_close or_close_all
    property_cataloging_requires_existing_table click_house_query_dsn drop_client open_mysql
    open_click_house_native open_click_house_query require_mysql_table ensure_tables
    with_property_indexing with_property_cataloging new_event_writer new_ingestion_processor
    new_query_reader new_property_catalog_reader load_root_cas load_certificate new_kafka_tls_config
    new_redis_bus new_kafka_bus new_event_bus bus_closers kafka_bus_from_event_bus resolver_options
    select_resolver new_source_resolver new_kafka_source app_options new_geo_resolver open_parts
    processor_or_close new_processor new_runtime close_runtime start
assembly_runs = tt

unfoldable pub place_runs : Unit {0}
unfolding source_runs find name_in first_entry first_name first_subdivision_name location_of answer
    decoded looked_up parsed resolve
place_runs = tt

unfoldable pub main_runs : Unit {0}
unfolding assembly_runs exit_fatally line_of close_lines return_closing shut_down_after_worker
    shut_down on_selected serve_until_selected run_assembled run_loaded run_main
main_runs = tt

-- ===== src/Tests/Collecting.antt =====
-- internal/collectapi/handler.go at a concrete request.
use anaysitics_service.Base.{
  ℕ, suc, ◌≡◌, refl, false, if◌then◌else◌, length, [], none, some, Result, ok, err, ◌==◌,
}
use anaysitics_service.Base.Action.{Ends}
use anaysitics_service.Base.Int.{pos}
use anaysitics_service.Base.Text.{Text, Text_eq, text}
use anaysitics_service.Base.Text.Case.{ascii_table}
use anaysitics_service.ControlPlane.Source.{SourceConfig}
use anaysitics_service.ControlPlane.Validate.{Error, source_not_found}
use anaysitics_service.Tests.Runs.{collect_runs}
use anaysitics_service.Tests.Sources.{shop'}
use anaysitics_service.CollectApi.Request.{HttpRequest}
use anaysitics_service.CollectApi.Collect.{
  CollectPayload, CollectCore, Collector, CollectState, handle_collect,
}
use anaysitics_service.CollectApi.Collect.Sealed.{HandedOn, NotAccepted, handle_collect_sealed}

abbrev request : HttpRequest
request = record {
  header = λ name. [];
  query = λ key. [];
  query_args = [];
  ip = text "10.0.0.1";
  path = text "/collect";
  body = text "{}";
}

-- A client that names another tenant.
abbrev payload : CollectPayload
payload = record {
  request = record {
    tenant_id = text "t9";
    project_id = text "p9";
    source_id = text "s9";
    source_type = text "server";
    client = record { user_agent = []; ip = text "1.1.1.1"; referrer = [] };
    event = text "signup";
  };
  write_key = text " wk_shop ";
}

abbrev core : CollectCore ℕ ℕ ℕ
core = record {
  new_traffic_filter_stage = λ config. ok 1;
  new_client_enrichment_stage = λ config. ok 2;
  new_session_resolver_stage = λ config. ok 3;
  new_visit_resolver_stage = λ config. ok 4;
  new_handler = λ stages. ok (length stages);
  handle = λ core request w. (
    (
      record {
        id = text "e1";
        tenant_id = request.tenant_id;
        project_id = request.project_id;
        source_id = request.source_id;
        received_at = pos 5;
      },
      none,
    ),
    suc w,
  );
}

abbrev resolve_shop : Text → ℕ → Result Error SourceConfig × ℕ
resolve_shop key w = (if key == text "wk_shop" then ok shop' else err source_not_found, w)

abbrev collector : Collector ℕ ℕ ℕ
collector = record {
  trust_forwarded_headers = false;
  has_geo_resolver = false;
  addresses = record { parse_addr = λ s. some s; parse_addr_port = λ s. none };
  decode_payload = λ body. some payload;
  format_rfc3339_nano = λ t. text "2026-01-01T00:00:00Z";
  resolve = resolve_shop;
  core = core;
}

abbrev idle : CollectState ℕ ℕ
idle = record { world = 0; logged = []; resolved = []; handled = [] }

accepts :
    (handle_collect collector request idle).0
    ≡ ok (record { id = text "e1"; received_at = text "2026-01-01T00:00:00Z"; filtered = false })
unfolding collect_runs
accepts = refl

handle_collect_sealed_example :
    Ends
      (λ a s. HandedOn collector request idle s)
      (NotAccepted collector request idle)
      (handle_collect collector request idle)
handle_collect_sealed_example = handle_collect_sealed collector request idle

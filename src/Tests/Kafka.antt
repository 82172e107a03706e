-- ===== src/Tests/Kafka.antt =====
-- internal/collectapi/kafka_diagnostics.go and kafka_metrics.go at a concrete snapshot.
use anaysitics_service.Base.{ℕ, suc, ◌≡◌, refl, true, [], ◌∷◌, some, ok}
use anaysitics_service.Base.Action.{Satisfies}
use anaysitics_service.Base.Int.{pos}
use anaysitics_service.Base.Text.{text}
use anaysitics_service.Base.Text.Case.{ascii_table}
use anaysitics_service.ControlPlane.Policy.{
  readback_route_kafka_diagnostics, readback_route_kafka_metrics,
}
use anaysitics_service.CollectApi.Handler.{Handler}
use anaysitics_service.CollectApi.Gates.Sound.{Unmoved}
use anaysitics_service.CollectApi.Kafka.{KafkaDiagnosticsResponse, KafkaOrderedCommitDiagnostics}
use anaysitics_service.CollectApi.Kafka.Select.{Floats}
use anaysitics_service.CollectApi.Kafka.Routes.{handle_kafka_diagnostics, handle_kafka_metrics}
use anaysitics_service.CollectApi.Kafka.Routes.Gated.{IsSampled, IsRefused, kafka_routes_gated}
use anaysitics_service.Tests.Readback.{server, request, idle}
use anaysitics_service.Tests.Runs.{kafka_runs}
use anaysitics_service.Tests.Tokens.{dashboard'}

abbrev commit : KafkaOrderedCommitDiagnostics
commit = record {
  topic = text "analytics.events";
  partition = pos 3;
  initialized = true;
  next_offset = pos 10;
  high_water_mark_offset = pos 12;
  lag_estimate = pos 2;
  pending_count = pos 1;
  done_count = pos 0;
  oldest_pending_offset = pos 10;
  largest_pending_gap = pos 0;
}

abbrev pub snapshot : KafkaDiagnosticsResponse
snapshot = record {
  topic = text "analytics.events";
  dead_letter_topic = text "analytics.events.dead";
  worker_pool = record {
    name = text "kafka";
    goroutines_total = pos 20;
    queued = pos 0;
    queue_capacity = pos 200;
    queue_usage_ratio = 0;
    workers = pos 100;
    submitted_total = pos 5;
    completed_total = pos 5;
    rejected_total = pos 0;
    closed = true;
  };
  completion_gate = record {
    in_flight_messages = pos 0;
    waiting_tasks = pos 0;
    completed_messages = pos 5;
  };
  commits = commit ∷ [];
  paused = [];
  metrics = record {
    consumed_total = pos 5;
    handler_success_total = pos 5;
    handler_failure_total = pos 0;
    handler_retry_total = pos 0;
    malformed_total = pos 0;
    dead_letter_success_total = pos 0;
    dead_letter_failure_total = pos 0;
    paused_partitions = pos 0;
    pause_transitions_total = pos 0;
    resume_transitions_total = pos 0;
  };
}

-- A server with a Kafka bus, and a token for every route.
abbrev kafka_server : Handler ℕ
kafka_server = record server {
  query_credentials = record dashboard' { scopes = [] } ∷ [];
  kafka_diagnostics = some (λ w. (some snapshot, suc w));
  kafka_metrics = some (λ w. (some snapshot, suc w));
}

abbrev floats : Floats
floats = record { of_int = λ n. 0; format = λ bits. text "0" }

sampled : (handle_kafka_diagnostics kafka_server request idle).0 ≡ ok snapshot
unfolding kafka_runs
sampled = refl

kafka_routes_gated_example :
    Satisfies
      (Unmoved kafka_server request idle)
      (handle_kafka_diagnostics kafka_server request)
      (λ stats s. IsSampled kafka_server request idle readback_route_kafka_diagnostics s)
      (IsRefused kafka_server request idle readback_route_kafka_diagnostics)
    × Satisfies
        (Unmoved kafka_server request idle)
        (handle_kafka_metrics kafka_server request floats)
        (λ body s. IsSampled kafka_server request idle readback_route_kafka_metrics s)
        (IsRefused kafka_server request idle readback_route_kafka_metrics)
kafka_routes_gated_example = kafka_routes_gated kafka_server request idle floats

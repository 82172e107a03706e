-- ===== src/CollectApi/Kafka/Routes.antt =====
-- internal/collectapi/kafka_diagnostics.go and kafka_metrics.go: the two Kafka routes. A handler that
-- stops has written an error response; one that does not has written status 200 with what it returns.
pub mod Gated
use anaysitics_service.Base.{Option, none, some}
use anaysitics_service.Base.Action.{◌>>=◌, ◌>>◌, give, stop}
use anaysitics_service.Base.Text.{Text, text, CaseTable}
use anaysitics_service.ControlPlane.Policy.{
  ReadbackRoute, readback_route_kafka_diagnostics, readback_route_kafka_metrics,
}
use anaysitics_service.CollectApi.Gates.{require_process_query_token}
use anaysitics_service.CollectApi.Handler.{
  Handler, KafkaSource, Handling, read_kafka, run_read, reply,
}
use anaysitics_service.CollectApi.Kafka.{KafkaDiagnosticsResponse}
use anaysitics_service.CollectApi.Kafka.Select.{Floats, render_kafka_metrics}
use anaysitics_service.CollectApi.Request.{HttpRequest}

-- A snapshot that is not ok is not found.
unfoldable pub found_snapshot :
    {W : Type 0} → Option KafkaDiagnosticsResponse → Handling W KafkaDiagnosticsResponse
found_snapshot none = stop (reply 404 (text "not found"))
found_snapshot (some stats) = give stats

module _ {W : Type 0} ⦃cases : CaseTable⦄ (h : Handler W) (ctx : HttpRequest) where
  -- The part that the two routes share: a source that is configured, the token, the snapshot.
  unfoldable pub kafka_snapshot :
      Option (KafkaSource W) → ReadbackRoute → Handling W KafkaDiagnosticsResponse
  kafka_snapshot none route = stop (reply 404 (text "not found"))
  kafka_snapshot (some source) route = do
    decision ← require_process_query_token h ctx route
    snapshot ← run_read read_kafka source
    found_snapshot snapshot

  -- Handler.handleKafkaDiagnostics
  unfoldable pub handle_kafka_diagnostics : Handling W KafkaDiagnosticsResponse
  handle_kafka_diagnostics = kafka_snapshot h.kafka_diagnostics readback_route_kafka_diagnostics

  -- Handler.handleKafkaMetrics
  unfoldable pub handle_kafka_metrics : Floats → Handling W Text
  handle_kafka_metrics floats = do
    stats ← kafka_snapshot h.kafka_metrics readback_route_kafka_metrics
    give (render_kafka_metrics floats stats)

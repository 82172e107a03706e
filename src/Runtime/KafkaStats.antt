-- ===== src/Runtime/KafkaStats.antt =====
-- internal/runtime/runtime.go: the snapshot of the Kafka provider of analytics-core, and its copy for
-- the HTTP layer.
use anaysitics_service.Base.{Bool, List, map}
use anaysitics_service.Base.Int.{ℤ}
use anaysitics_service.Base.Text.{Text}
use anaysitics_service.CollectApi.Kafka.{
  KafkaWorkerPoolDiagnostics, KafkaCompletionGateDiagnostics, KafkaOrderedCommitDiagnostics,
  KafkaMetricsDiagnostics, KafkaDiagnosticsResponse,
}

-- A commit of kafkaeventbus.Stats. The other parts of Stats have the fields of their copies.
pub record CommitStats : Type 0 where
  pub topic : Text
  pub partition : ℤ
  pub initialized : Bool
  pub next_offset : ℤ
  pub high_water_mark_offset : ℤ
  pub lag : ℤ
  pub pending_count : ℤ
  pub done_count : ℤ
  pub oldest_pending_offset : ℤ
  pub largest_pending_gap : ℤ

-- kafkaeventbus.Stats
pub record Stats : Type 0 where
  pub topic : Text
  pub dead_letter_topic : Text
  pub worker_pool : KafkaWorkerPoolDiagnostics
  pub completion_gate : KafkaCompletionGateDiagnostics
  pub commits : List CommitStats
  pub paused : List (Text × List ℤ)
  pub metrics : KafkaMetricsDiagnostics

unfoldable pub commit_diagnostics : CommitStats → KafkaOrderedCommitDiagnostics
commit_diagnostics commit = record {
  topic = commit.topic;
  partition = commit.partition;
  initialized = commit.initialized;
  next_offset = commit.next_offset;
  high_water_mark_offset = commit.high_water_mark_offset;
  lag_estimate = commit.lag;
  pending_count = commit.pending_count;
  done_count = commit.done_count;
  oldest_pending_offset = commit.oldest_pending_offset;
  largest_pending_gap = commit.largest_pending_gap;
}

-- clonePausedPartitions
unfoldable pub clone_paused_partitions : List (Text × List ℤ) → List (Text × List ℤ)
clone_paused_partitions paused = map (λ (topic, partitions). (topic, partitions)) paused

-- kafkaDiagnosticsResponseFromStats
unfoldable pub kafka_diagnostics_response_from_stats : Stats → KafkaDiagnosticsResponse
kafka_diagnostics_response_from_stats stats = record {
  topic = stats.topic;
  dead_letter_topic = stats.dead_letter_topic;
  worker_pool = stats.worker_pool;
  completion_gate = stats.completion_gate;
  commits = map commit_diagnostics stats.commits;
  paused = clone_paused_partitions stats.paused;
  metrics = stats.metrics;
}

-- ===== src/CollectApi/Kafka.antt =====
-- internal/collectapi/kafka_diagnostics.go: the snapshot of the Kafka provider. An `int`, an int32 and
-- an int64 are integers, a float64 stands for its bits, and a map is the list of its entries.
pub mod Select
pub mod Routes
use anaysitics_service.Base.{ℕ, Bool, List}
use anaysitics_service.Base.Int.{ℤ}
use anaysitics_service.Base.Text.{Text}

pub record KafkaWorkerPoolDiagnostics : Type 0 where
  pub name : Text
  pub goroutines_total : ℤ
  pub queued : ℤ
  pub queue_capacity : ℤ
  pub queue_usage_ratio : ℕ
  pub workers : ℤ
  pub submitted_total : ℤ
  pub completed_total : ℤ
  pub rejected_total : ℤ
  pub closed : Bool

pub record KafkaCompletionGateDiagnostics : Type 0 where
  pub in_flight_messages : ℤ
  pub waiting_tasks : ℤ
  pub completed_messages : ℤ

pub record KafkaOrderedCommitDiagnostics : Type 0 where
  pub topic : Text
  pub partition : ℤ
  pub initialized : Bool
  pub next_offset : ℤ
  pub high_water_mark_offset : ℤ
  pub lag_estimate : ℤ
  pub pending_count : ℤ
  pub done_count : ℤ
  pub oldest_pending_offset : ℤ
  pub largest_pending_gap : ℤ

pub record KafkaMetricsDiagnostics : Type 0 where
  pub consumed_total : ℤ
  pub handler_success_total : ℤ
  pub handler_failure_total : ℤ
  pub handler_retry_total : ℤ
  pub malformed_total : ℤ
  pub dead_letter_success_total : ℤ
  pub dead_letter_failure_total : ℤ
  pub paused_partitions : ℤ
  pub pause_transitions_total : ℤ
  pub resume_transitions_total : ℤ

pub record KafkaDiagnosticsResponse : Type 0 where
  pub topic : Text
  pub dead_letter_topic : Text
  pub worker_pool : KafkaWorkerPoolDiagnostics
  pub completion_gate : KafkaCompletionGateDiagnostics
  pub commits : List KafkaOrderedCommitDiagnostics
  pub paused : List (Text × List ℤ)
  pub metrics : KafkaMetricsDiagnostics

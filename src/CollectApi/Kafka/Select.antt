-- ===== src/CollectApi/Kafka/Select.antt =====
-- internal/collectapi/kafka_metrics.go: the samples that are exported of a snapshot.
use anaysitics_service.Base.{ℕ, suc, Bool, true, false, List, [], ◌∷◌, ◌++◌}
use anaysitics_service.Base.Int.{ℤ, pos, negsuc}
use anaysitics_service.Base.Text.{Text, text}
use anaysitics_service.Base.Text.Decimal.{itoa}
use anaysitics_service.CollectApi.Kafka.{KafkaDiagnosticsResponse, KafkaOrderedCommitDiagnostics}
use anaysitics_service.CollectApi.Metrics.{
  PrometheusMetric, LabelSet, no_labels, commit_labels, render_metrics,
}

-- The conversion to a float64, by its bits, and strconv.FormatFloat(value, 'f', -1, 64).
pub record Floats : Type 0 where
  pub of_int : ℤ → ℕ
  pub format : ℕ → Text

-- strconv.FormatInt(value, 10)
unfoldable pub format_int : ℤ → Text
format_int (pos n) = itoa n
format_int (negsuc n) = b'-' ∷ itoa (suc n)

unfoldable pub counter_metric : Text → Text → Text → PrometheusMetric
counter_metric name help value = record {
  name = name;
  help = help;
  type = text "counter";
  labels = no_labels;
  value = value;
}

unfoldable pub gauge_metric : Text → Text → Text → PrometheusMetric
gauge_metric name help value = record {
  name = name;
  help = help;
  type = text "gauge";
  labels = no_labels;
  value = value;
}

unfoldable pub labeled_gauge_metric : Text → Text → LabelSet → Text → PrometheusMetric
labeled_gauge_metric name help labels value = record {
  name = name;
  help = help;
  type = text "gauge";
  labels = labels;
  value = value;
}

unfoldable pub bool_float : Bool → ℤ
bool_float true = pos 1
bool_float false = pos 0

module _ (floats : Floats) where
  abbrev pub ratio : ℕ → Text
  ratio value = floats.format value

  abbrev pub whole : ℤ → Text
  whole value = floats.format (floats.of_int value)

  unfoldable pub process_metrics : KafkaDiagnosticsResponse → List PrometheusMetric
  process_metrics stats =
      counter_metric (text "simpletrack_kafka_consumed_total")
        (text "Kafka records consumed from the primary analytics topic.")
        (whole stats.metrics.consumed_total)
      ∷ counter_metric (text "simpletrack_kafka_handler_success_total")
          (text "Kafka records completed through handler success.")
          (whole stats.metrics.handler_success_total)
      ∷ counter_metric (text "simpletrack_kafka_handler_failure_total")
          (text "Kafka handler attempts that returned an error.")
          (whole stats.metrics.handler_failure_total)
      ∷ counter_metric (text "simpletrack_kafka_handler_retry_total")
          (text "Kafka handler attempts scheduled after a previous failure.")
          (whole stats.metrics.handler_retry_total)
      ∷ counter_metric (text "simpletrack_kafka_malformed_total")
          (text "Kafka records that could not decode as EventEnvelope.")
          (whole stats.metrics.malformed_total)
      ∷ counter_metric (text "simpletrack_kafka_dead_letter_success_total")
          (text "Kafka records successfully written to the dead-letter topic.")
          (whole stats.metrics.dead_letter_success_total)
      ∷ counter_metric (text "simpletrack_kafka_dead_letter_failure_total")
          (text "Kafka dead-letter write attempts that failed.")
          (whole stats.metrics.dead_letter_failure_total)
      ∷ counter_metric (text "simpletrack_kafka_pause_transitions_total")
          (text "Kafka local backpressure pause transitions.")
          (whole stats.metrics.pause_transitions_total)
      ∷ counter_metric (text "simpletrack_kafka_resume_transitions_total")
          (text "Kafka local backpressure resume transitions.")
          (whole stats.metrics.resume_transitions_total)
      ∷ gauge_metric (text "simpletrack_kafka_paused_partitions")
          (text "Kafka topic-partitions currently paused by local backpressure.")
          (whole stats.metrics.paused_partitions)
      ∷ gauge_metric (text "simpletrack_kafka_worker_queue_usage_ratio")
          (text "Kafka handler queue usage ratio in this process.")
          (ratio stats.worker_pool.queue_usage_ratio)
      ∷ gauge_metric (text "simpletrack_kafka_worker_queued")
          (text "Kafka handler tasks currently queued in this process.")
          (whole stats.worker_pool.queued)
      ∷ gauge_metric (text "simpletrack_kafka_worker_queue_capacity")
          (text "Kafka handler queue capacity in this process.")
          (whole stats.worker_pool.queue_capacity)
      ∷ gauge_metric (text "simpletrack_kafka_worker_workers")
          (text "Kafka handler worker count in this process.") (whole stats.worker_pool.workers)
      ∷ counter_metric (text "simpletrack_kafka_worker_submitted_total")
          (text "Kafka handler tasks accepted by the worker pool.")
          (whole stats.worker_pool.submitted_total)
      ∷ counter_metric (text "simpletrack_kafka_worker_completed_total")
          (text "Kafka handler tasks completed by the worker pool.")
          (whole stats.worker_pool.completed_total)
      ∷ counter_metric (text "simpletrack_kafka_worker_rejected_total")
          (text "Kafka handler tasks rejected by the worker pool.")
          (whole stats.worker_pool.rejected_total)
      ∷ gauge_metric (text "simpletrack_kafka_completion_in_flight_messages")
          (text "Kafka messages not yet completed by the completion gate.")
          (whole stats.completion_gate.in_flight_messages)
      ∷ gauge_metric (text "simpletrack_kafka_completion_waiting_tasks")
          (text "Kafka async tasks still waiting in the completion gate.")
          (whole stats.completion_gate.waiting_tasks)
      ∷ counter_metric (text "simpletrack_kafka_completion_completed_messages_total")
          (text "Kafka messages completed by the completion gate.")
          (whole stats.completion_gate.completed_messages)
      ∷ []

  -- What one round of the loop appends.
  unfoldable pub commit_metrics : KafkaOrderedCommitDiagnostics → List PrometheusMetric
  commit_metrics commit =
      let labels = commit_labels commit.topic (format_int commit.partition) in
      labeled_gauge_metric (text "simpletrack_kafka_ordered_commit_initialized")
        (text "Kafka ordered committer initialization state by topic-partition.") labels
        (whole (bool_float commit.initialized))
      ∷ labeled_gauge_metric (text "simpletrack_kafka_ordered_commit_next_offset")
          (text "Kafka earliest offset still blocking ordered completion by topic-partition.")
          labels (whole commit.next_offset)
      ∷ labeled_gauge_metric (text "simpletrack_kafka_ordered_commit_high_watermark_offset")
          (text "Kafka latest high-water mark observed by this process by topic-partition.") labels
          (whole commit.high_water_mark_offset)
      ∷ labeled_gauge_metric (text "simpletrack_kafka_ordered_commit_lag_estimate")
          (text
            "Kafka process-local lag estimate by topic-partition; not authoritative broker lag.")
          labels (whole commit.lag_estimate)
      ∷ labeled_gauge_metric (text "simpletrack_kafka_ordered_commit_pending")
          (text "Kafka registered offsets not yet completed by topic-partition.") labels
          (whole commit.pending_count)
      ∷ labeled_gauge_metric (text "simpletrack_kafka_ordered_commit_done")
          (text "Kafka completed offsets waiting for earlier offsets by topic-partition.") labels
          (whole commit.done_count)
      ∷ labeled_gauge_metric (text "simpletrack_kafka_ordered_commit_oldest_pending_offset")
          (text "Kafka oldest registered pending offset by topic-partition.") labels
          (whole commit.oldest_pending_offset)
      ∷ labeled_gauge_metric (text "simpletrack_kafka_ordered_commit_largest_pending_gap")
          (text "Kafka largest observed registration gap by topic-partition.") labels
          (whole commit.largest_pending_gap)
      ∷ []

  unfoldable pub all_commit_metrics : List KafkaOrderedCommitDiagnostics → List PrometheusMetric
  all_commit_metrics [] = []
  all_commit_metrics (commit ∷ rest) = commit_metrics commit ++ all_commit_metrics rest

  unfoldable pub kafka_prometheus_metrics : KafkaDiagnosticsResponse → List PrometheusMetric
  kafka_prometheus_metrics stats = process_metrics stats ++ all_commit_metrics stats.commits

  unfoldable pub render_kafka_metrics : KafkaDiagnosticsResponse → Text
  render_kafka_metrics stats = render_metrics [] (kafka_prometheus_metrics stats)

-- ===== src/Tests/Metrics.antt =====
-- internal/collectapi/kafka_metrics.go at concrete labels.
use anaysitics_service.Base.{List, ℕ_eq, false, [], ◌∷◌, ◌++◌, ◌≡◌, refl}
use anaysitics_service.Base.Text.{text}
use anaysitics_service.Tests.Runs.{label_runs}
use anaysitics_service.CollectApi.Metrics.{
  PrometheusMetric, no_labels, render_metrics, quote, escape_prometheus_label,
  write_prometheus_labels, commit_labels,
}
use anaysitics_service.CollectApi.Metrics.Render.{
  Entry, Prints, sampled, IsDescribed, render_metrics-IsDescribed,
}
use anaysitics_service.CollectApi.Metrics.Labels.{read_label, read_label-escape}

written :
    write_prometheus_labels (commit_labels (text "a\"b") (text "3"))
    ≡ text "{topic=\"a\\\"b\",partition=\"3\"}"
unfolding label_runs
written = refl

read_label-escape_example :
    read_label false (escape_prometheus_label (text "a\"\\b") ++ (quote ∷ text ",x"))
    ≡ (text "a\"\\b", text ",x")
read_label-escape_example = read_label-escape (text "a\"\\b") (text ",x")

abbrev consumed : PrometheusMetric
consumed = record {
  name = text "consumed_total";
  help = text "Records.";
  type = text "counter";
  labels = no_labels;
  value = text "7";
}

rendered :
    render_metrics [] (consumed ∷ [])
    ≡ text "# HELP consumed_total Records.\n# TYPE consumed_total counter\nconsumed_total 7\n"
unfolding label_runs
rendered = refl

render_metrics-IsDescribed_example :
    (entries : List Entry) × Prints entries (render_metrics [] (consumed ∷ consumed ∷ []))
    × IsDescribed [] entries
    × (sampled entries ≡ consumed ∷ consumed ∷ [])
render_metrics-IsDescribed_example = render_metrics-IsDescribed [] (consumed ∷ consumed ∷ [])

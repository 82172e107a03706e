-- ===== src/CollectApi/Metrics.antt =====
-- internal/collectapi/kafka_metrics.go: the Prometheus text of the Kafka metrics.
pub mod Labels
pub mod Printed
pub mod Render
use anaysitics_service.Base.{contains, true, false, ℕ, nat_eq, List, [], ◌∷◌, ◌++◌, if◌then◌else◌}
use anaysitics_service.Base.Text.{Text, Text_eq, text}

-- strings.ReplaceAll of one character.
unfoldable pub replace_all : ℕ → Text → Text → Text
replace_all old new [] = []
replace_all old new (c ∷ s) =
    let rest = replace_all old new s in if nat_eq c old then new ++ rest else c ∷ rest

abbrev pub backslash : ℕ
backslash = 92

abbrev pub newline : ℕ
newline = 10

abbrev pub quote : ℕ
quote = 34

-- escapePrometheusLabel
unfoldable pub escape_prometheus_label : Text → Text
escape_prometheus_label value = replace_all quote (backslash ∷ quote ∷ []) (
    replace_all newline (backslash ∷ b'n' ∷ [])
      (replace_all backslash (backslash ∷ backslash ∷ []) value))

-- One label with its value in quotes.
unfoldable pub label_pair : Text → Text → Text
label_pair key value = key ++ text "=" ++ (quote ∷ escape_prometheus_label value) ++ (quote ∷ [])

-- The labels of a sample: none, or the topic and the partition.
pub data LabelSet : Type 0 where
  no_labels : LabelSet
  commit_labels : Text → Text → LabelSet

-- writePrometheusLabels
unfoldable pub write_prometheus_labels : LabelSet → Text
write_prometheus_labels no_labels = []
write_prometheus_labels (commit_labels topic partition) =
    text "{"
    ++ label_pair (text "topic") topic
    ++ text ","
    ++ label_pair (text "partition") partition
    ++ text "}"

-- A sample; its value is the text that strconv.FormatFloat gives.
pub record PrometheusMetric : Type 0 where
  pub name : Text
  pub help : Text
  pub type : Text
  pub labels : LabelSet
  pub value : Text

-- The two metadata lines of a family.
unfoldable pub metadata : PrometheusMetric → Text
metadata m =
    text "# HELP "
    ++ m.name
    ++ text " "
    ++ m.help
    ++ (newline ∷ [])
    ++ text "# TYPE "
    ++ m.name
    ++ text " "
    ++ m.type
    ++ (newline ∷ [])

unfoldable pub sample : PrometheusMetric → Text
sample m = m.name ++ write_prometheus_labels m.labels ++ text " " ++ m.value ++ (newline ∷ [])

-- The loop of renderKafkaMetrics over the selected metrics, with the families emitted so far.
unfoldable pub render_metrics : List Text → List PrometheusMetric → Text
render_metrics emitted [] = []
render_metrics emitted (m ∷ ms) = elim (contains emitted m.name) [
  | true ↦ sample m ++ render_metrics emitted ms
  | false ↦ metadata m ++ (sample m ++ render_metrics (m.name ∷ emitted) ms)
]

-- ===== src/CollectApi/Metrics/Printed.antt =====
-- internal/collectapi/kafka_metrics.go: the lines of the Prometheus text format, as a reader sees them.
use anaysitics_service.Base.{false, [], ◌∷◌, ◌++◌, ◌≡◌, refl, append_assoc}
use anaysitics_service.Base.Text.{Text, text}
use anaysitics_service.CollectApi.Metrics.{
  PrometheusMetric, LabelSet, no_labels, commit_labels, quote, escape_prometheus_label, label_pair,
  write_prometheus_labels, metadata, sample,
}
use anaysitics_service.CollectApi.Metrics.Labels.{read_label, read_label-escape}

-- Between quotes, a reader reads the value and stops at the closing quote, whatever follows it.
abbrev pub ReadsAs : Text → Text → Type 0
ReadsAs written value = (rest : Text) → read_label false (written ++ (quote ∷ rest)) ≡ (value, rest)

-- The labels of a sample in the text.
abbrev pub AreLabels : LabelSet → Text → Type 0
AreLabels no_labels t = t ≡ []
AreLabels (commit_labels topic partition) t =
    (a b : Text) × ReadsAs a topic
    × ReadsAs b partition
    × (t ≡ text "{topic=\"" ++ a ++ text "\",partition=\"" ++ b ++ text "\"}")

-- A text begins with the HELP line and the TYPE line of a family, which the rest follows.
abbrev pub DescribesFirst : PrometheusMetric → Text → Text → Type 0
DescribesFirst m t rest =
    t
    ≡ text "# HELP "
      ++ m.name
      ++ text " "
      ++ m.help
      ++ text "\n# TYPE "
      ++ m.name
      ++ text " "
      ++ m.type
      ++ text "\n"
      ++ rest

-- A text begins with the line of a sample: its name, its labels, a space and its value.
abbrev pub SamplesFirst : PrometheusMetric → Text → Text → Type 0
SamplesFirst m t rest =
    (labels : Text) × AreLabels m.labels labels
    × (t ≡ m.name ++ labels ++ text " " ++ m.value ++ text "\n" ++ rest)

pub metadata-DescribesFirst :
    (m : PrometheusMetric) (rest : Text) → DescribesFirst m (metadata m ++ rest) rest
unfolding metadata text
metadata-DescribesFirst m rest = simp (append_assoc)

write_prometheus_labels-AreLabels :
    (labels : LabelSet) → AreLabels labels (write_prometheus_labels labels)
unfolding write_prometheus_labels label_pair text
write_prometheus_labels-AreLabels no_labels = refl
write_prometheus_labels-AreLabels (commit_labels topic partition) = (
  escape_prometheus_label topic,
  escape_prometheus_label partition,
  read_label-escape topic,
  read_label-escape partition,
  simp (append_assoc),
)

pub sample-SamplesFirst :
    (m : PrometheusMetric) (rest : Text) → SamplesFirst m (sample m ++ rest) rest
unfolding sample text
sample-SamplesFirst m rest = (
  write_prometheus_labels m.labels,
  write_prometheus_labels-AreLabels m.labels,
  simp (append_assoc),
)

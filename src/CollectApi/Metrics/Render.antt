-- ===== src/CollectApi/Metrics/Render.antt =====
-- internal/collectapi/kafka_metrics.go: each metric family is described once, before its samples.
use anaysitics_service.Base.{
  true, false, contains, List, [], ◌∷◌, ◌++◌, ◌≡◌, refl, ap, inl, inr, Bool-cases,
}
use anaysitics_service.Base.Text.{Text, Text_eq}
use anaysitics_service.CollectApi.Metrics.{PrometheusMetric, sample, render_metrics}
use anaysitics_service.CollectApi.Metrics.Printed.{
  DescribesFirst, SamplesFirst, metadata-DescribesFirst, sample-SamplesFirst,
}

-- What a text is made of: the metadata of a metric's family, or its sample.
pub data Entry : Type 0 where
  describes samples : PrometheusMetric → Entry

-- The text has the lines of the entries, in order, and nothing else.
abbrev pub Prints : List Entry → Text → Type 0
Prints [] t = t ≡ []
Prints (describes m ∷ entries) t = (rest : Text) × DescribesFirst m t rest × Prints entries rest
Prints (samples m ∷ entries) t = (rest : Text) × SamplesFirst m t rest × Prints entries rest

-- The metrics that are sampled, in order.
abbrev pub sampled : List Entry → List PrometheusMetric
sampled [] = []
sampled (describes m ∷ rest) = sampled rest
sampled (samples m ∷ rest) = m ∷ sampled rest

-- The next entry is the sample of the metric.
abbrev pub Begins : PrometheusMetric → List Entry → Type 0
Begins m [] = ⊥
Begins m (describes m' ∷ rest) = ⊥
Begins m (samples m' ∷ rest) = m ≡ m'

-- With the families described so far: a family is described at most once, from its first sample, which
-- follows, and each sample comes after the description of its family.
abbrev pub IsDescribed : List Text → List Entry → Type 0
IsDescribed seen [] = Unit {0}
IsDescribed seen (describes m ∷ rest) =
    (contains seen m.name ≡ false) × Begins m rest × IsDescribed (m.name ∷ seen) rest
IsDescribed seen (samples m ∷ rest) = (contains seen m.name ≡ true) × IsDescribed seen rest

contains_self : (seen : List Text) (name : Text) → contains (name ∷ seen) name ≡ true
unfolding contains
contains_self seen name = rw ((Text_eq.equal_iff name name).1 refl) refl

-- The text consists of the lines of entries that sample exactly the metrics given, in order: a sample is
-- its name, its labels, whose values a reader gets back, a space and its value. Each family is described
-- once, by a HELP and a TYPE line with the name, the help and the type of its first sample, which
-- follows them; none of the families that were described before is described again.
pub render_metrics-IsDescribed :
    (seen : List Text) (ms : List PrometheusMetric)
    → (entries : List Entry) × Prints entries (render_metrics seen ms)
      × IsDescribed seen entries
      × (sampled entries ≡ ms)
unfolding render_metrics
render_metrics-IsDescribed seen [] = ([], refl, tt, refl)
render_metrics-IsDescribed seen (m ∷ ms) = elim (Bool-cases (contains seen m.name)) [
  | inl old ↦
      let (entries, printed, described, all) = render_metrics-IsDescribed seen ms in
      (
        samples m ∷ entries,
        rw (old, render_metrics)
            (render_metrics seen ms, sample-SamplesFirst m (render_metrics seen ms), printed),
        (old, described),
        ap (◌∷◌ m) all,
      )
  | inr new ↦
      let (entries, printed, described, all) = render_metrics-IsDescribed (m.name ∷ seen) ms in
      let rest = render_metrics (m.name ∷ seen) ms in
      (
        describes m ∷ samples m ∷ entries,
        rw (new, render_metrics)
            (
              sample m ++ rest,
              metadata-DescribesFirst m (sample m ++ rest),
              (rest, sample-SamplesFirst m rest, printed),
            ),
        (new, refl, (contains_self seen m.name, described)),
        ap (◌∷◌ m) all,
      )
]

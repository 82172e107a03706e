-- ===== src/CollectApi/Kafka/Routes/Gated.antt =====
-- internal/collectapi/kafka_diagnostics.go and kafka_metrics.go: the provider is asked only after the
-- token was accepted.
use anaysitics_service.Base.{◌≡◌, ap, ◌⊎◌, inl, inr, ◌∷◌, Option, none, some}
use anaysitics_service.Base.Action.{
  ◌>>=◌, Ends, continue_with, Satisfies, Satisfies-bind, Satisfies-weaken,
}
use anaysitics_service.Base.Text.{CaseTable}
use anaysitics_service.ControlPlane.Policy.{
  ReadbackRoute, readback_route_kafka_diagnostics, readback_route_kafka_metrics,
}
use anaysitics_service.CollectApi.Gates.Sound.{
  Untouched, Unmoved, IsGranted, require_process_query_token_sound,
}
use anaysitics_service.CollectApi.Handler.{
  Handler, ServerState, ErrorReply, KafkaSource, read_kafka, after,
}
use anaysitics_service.CollectApi.Kafka.{KafkaDiagnosticsResponse}
use anaysitics_service.CollectApi.Kafka.Select.{Floats}
use anaysitics_service.CollectApi.Kafka.Routes.{
  found_snapshot, kafka_snapshot, handle_kafka_diagnostics, handle_kafka_metrics,
}
use anaysitics_service.CollectApi.Request.{HttpRequest}

module _ {W : Type 0} ⦃cases : CaseTable⦄ (h : Handler W) (ctx : HttpRequest)
    (s0 : ServerState W) where
  -- One snapshot was taken, after a token for the route was accepted, and no source was resolved.
  abbrev pub IsSampled : ReadbackRoute → ServerState W → Type 0
  IsSampled route s =
      (d : _) × IsGranted h ctx s0 route d
      × (s.reads ≡ read_kafka ∷ s0.reads)
      × (s.resolved ≡ s0.resolved)

  abbrev pub IsRefused : ReadbackRoute → ErrorReply → ServerState W → Type 0
  IsRefused route e s = (s.reads ≡ s0.reads) ⊎ IsSampled route s

  snapshot_gated :
      (source : Option (KafkaSource W)) (route : ReadbackRoute)
      → Satisfies
          (Unmoved h ctx s0)
          (kafka_snapshot h ctx source route)
          (λ stats s. IsSampled route s)
          (IsRefused route)
  unfolding kafka_snapshot ◌>>=◌ found_snapshot
  snapshot_gated none route = record { run = λ s u. inl u.1.1 }
  snapshot_gated (some source) route =
      Satisfies-bind
        (Satisfies-weaken (require_process_query_token_sound h ctx s0 route) (λ d s p. p)
          (λ e s u. inl u))
        (λ d. record { run = λ s p. asked d s p.0 p.1 (source s.world) })
    where
      asked :
          (d : _) (s : ServerState W)
          → IsGranted h ctx s0 route d
          → Untouched h ctx s0 s
          → (o : Option KafkaDiagnosticsResponse × W)
          → Ends
              (λ stats s. IsSampled route s)
              (IsRefused route)
              (continue_with found_snapshot (after (record s { reads = read_kafka ∷ s.reads }) o))
      asked d s g u (none, w) = inr (d, g, ap (λ reads. read_kafka ∷ reads) u.1, u.0)
      asked d s g u (some stats, w) = (d, g, ap (λ reads. read_kafka ∷ reads) u.1, u.0)

  -- What the two routes answer: with status 200, after a token that is accepted for the route, at the
  -- instant that the clock gives, and one snapshot of the provider; with an error, before any snapshot, or
  -- after a token that is so accepted and one snapshot. No route resolves a source.
  pub kafka_routes_gated :
      (floats : Floats)
      → Satisfies
          (Unmoved h ctx s0)
          (handle_kafka_diagnostics h ctx)
          (λ stats s. IsSampled readback_route_kafka_diagnostics s)
          (IsRefused readback_route_kafka_diagnostics)
        × Satisfies
            (Unmoved h ctx s0)
            (handle_kafka_metrics h ctx floats)
            (λ body s. IsSampled readback_route_kafka_metrics s)
            (IsRefused readback_route_kafka_metrics)
  unfolding handle_kafka_diagnostics handle_kafka_metrics
  kafka_routes_gated floats = (
    snapshot_gated h.kafka_diagnostics readback_route_kafka_diagnostics,
    Satisfies-bind (snapshot_gated h.kafka_metrics readback_route_kafka_metrics)
        (λ stats. record { run = λ s p. p }),
  )

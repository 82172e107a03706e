-- ===== src/CollectApi/Routes/Isolated.antt =====
-- internal/collectapi/query.go: a readback request reads at most once, after its checks, and only
-- within the source that its write key resolved to.
use anaysitics_service.Base.{
  ℕ, List, ◌∷◌, Option, none, some, Result, ok, err, ◌≡◌, refl, ap, ◌⊎◌, inl, inr,
}
use anaysitics_service.Base.Action.{
  ◌>>=◌, Satisfies, Satisfies-bind, Satisfies-weaken, Satisfies-settled, Satisfies-state,
}
use anaysitics_service.Base.Text.{Text, CaseTable}
use anaysitics_service.ControlPlane.Source.{SourceConfig}
use anaysitics_service.ControlPlane.Policy.{
  ReadbackRoute, readback_route_realtime, readback_route_events, readback_route_goals,
  readback_route_properties,
}
use anaysitics_service.CollectApi.Request.{HttpRequest}
use anaysitics_service.CollectApi.Storage.{
  ReadError, EventReader, PropertyCatalogReader, PropertyCatalogEntry,
}
use anaysitics_service.CollectApi.Handler.{
  Handler, Handling, ServerState, Read, read_realtime, read_events, read_count, read_catalog,
  read_kafka,
}
use anaysitics_service.CollectApi.Gates.{pass_gates}
use anaysitics_service.CollectApi.Gates.Sound.{HasPassed, pass_gates_sound}
use anaysitics_service.CollectApi.Params.{Parsed, or_bad_request}
use anaysitics_service.CollectApi.Readback.{answered, list_realtime, list_events, count_events}
use anaysitics_service.CollectApi.Readback.Reads.{
  answered_keeps, read_with_sound, run_read_sound, call_keeps,
}
use anaysitics_service.CollectApi.Routes.{
  when_configured, param, no_error, catalog_answer, realtime_of, handle_realtime, events_of,
  handle_events, goals_of, handle_goals, properties_of, handle_properties,
}

-- The tenant, project and source that a query is about.
abbrev pub Scope : Type 0
Scope = Text × Text × Text

-- A snapshot of the Kafka provider has no scope.
abbrev pub scope_of : Read → Option Scope
scope_of (read_realtime q) = some (q.tenant_id, q.project_id, q.source_id)
scope_of (read_events q) = some (q.tenant_id, q.project_id, q.source_id)
scope_of (read_count q) = some (q.tenant_id, q.project_id, q.source_id)
scope_of (read_catalog q) = some (q.tenant_id, q.project_id, q.source_id)
scope_of read_kafka = none

abbrev pub source_scope : SourceConfig → Scope
source_scope source = (source.tenant_id, source.project_id, source.source_id)

module _ {W : Type 0} ⦃cases : CaseTable⦄ (h : Handler W) (ctx : HttpRequest)
    (s0 : ServerState W) where
  -- Nothing was read, or one query in the scope of a source for which every check passed.
  abbrev pub IsIsolated : ReadbackRoute → ServerState W → Type 0
  IsIsolated route s =
      (s.reads ≡ s0.reads)
      ⊎ ((source : SourceConfig) × (read : Read) × (s.reads ≡ read ∷ s0.reads)
          × (scope_of read ≡ some (source_scope source))
          × HasPassed h ctx s0 route source s)

  -- The state after the checks.
  abbrev Ready : ReadbackRoute → SourceConfig → ServerState W → Type 0
  Ready route source s = HasPassed h ctx s0 route source s × (s.reads ≡ s0.reads)

  param_keeps :
      {A : Type 0} (route : ReadbackRoute) (source : SourceConfig) (p : Parsed A)
      → Satisfies
          (Ready route source)
          (param p)
          (λ a s. Ready route source s)
          (λ e s. IsIsolated route s)
  param_keeps route source p = Satisfies-settled (or_bad_request p) (λ e s ready. inl ready.1)

  -- A read in the scope of the source that passed.
  IsIsolated-read :
      (route : ReadbackRoute) (source : SourceConfig) (read : Read)
      → scope_of read ≡ some (source_scope source)
      → (s : ServerState W) (w : W) → Ready route source s
      → IsIsolated route (record s { world = w; reads = read ∷ s.reads })
  IsIsolated-read route source read within s w (passed, unread) =
      inr (source, read, ap (◌∷◌ read) unread, within, passed)

  realtime_of-IsIsolated :
      (reader : EventReader W) (source : SourceConfig)
      → Satisfies
          (Ready readback_route_realtime source)
          (realtime_of h ctx reader source)
          (λ a s. IsIsolated readback_route_realtime s)
          (λ e s. IsIsolated readback_route_realtime s)
  unfolding realtime_of list_realtime
  realtime_of-IsIsolated reader source =
      Satisfies-bind (call_keeps (Ready route source) h.now (λ s w ready. ready)) (λ time.
        Satisfies-bind (param_keeps route source _) (λ since.
          Satisfies-bind (param_keeps route source _) (λ limit.
            Satisfies-bind
              (read_with_sound (IsIsolated route) _ _ _ _ (λ s lines i. i)
                (IsIsolated-read route source _ refl))
              (λ rows. record { run = λ s i. i }))))
    where
      route : ReadbackRoute
      route = readback_route_realtime

  abbrev Stays : (route : ReadbackRoute) {A : Type 0} → Handling W A → SourceConfig → Type 0
  Stays route m source =
      Satisfies (Ready route source) m (λ a s. IsIsolated route s) (λ e s. IsIsolated route s)

  events_of-IsIsolated :
      (reader : EventReader W) (source : SourceConfig)
      → Stays readback_route_events (events_of h ctx reader source) source
  unfolding events_of list_events
  events_of-IsIsolated reader source = Satisfies-bind (param_keeps route source _) (λ from.
      Satisfies-bind (param_keeps route source _) (λ to.
        Satisfies-bind (param_keeps route source _) (λ limit.
          Satisfies-bind (param_keeps route source _) (λ offset.
            Satisfies-bind (filters_kept _) (λ filters.
              Satisfies-bind
                (read_with_sound (IsIsolated route) _ _ _ _ (λ s lines i. i)
                  (IsIsolated-read route source _ refl))
                (λ rows. record { run = λ s i. i }))))))
    where
      route : ReadbackRoute
      route = readback_route_events

      filters_kept :
          {A : Type 0} (answer : Result ReadError A)
          → Satisfies
              (Ready route source)
              (answered (λ a. a) answer)
              (λ a s. Ready route source s)
              (λ e s. IsIsolated route s)
      filters_kept answer =
          Satisfies-weaken
            (answered_keeps (Ready route source) (λ a. a) answer (λ s lines ready. ready))
            (λ a s ready. ready) (λ e s ready. inl ready.1)

  no_error_keeps :
      (route : ReadbackRoute) (source : SourceConfig) (e : Option Text)
      → Satisfies
          (Ready route source)
          (no_error e)
          (λ a s. Ready route source s)
          (λ e s. IsIsolated route s)
  no_error_keeps route source none = record { run = λ s ready. ready }
  no_error_keeps route source (some message) = record { run = λ s ready. inl ready.1 }

  goals_of-IsIsolated :
      (reader : EventReader W) (source : SourceConfig)
      → Stays readback_route_goals (goals_of h ctx reader source) source
  unfolding goals_of count_events
  goals_of-IsIsolated reader source = Satisfies-bind (no_error_keeps route source _) (λ named.
      Satisfies-bind (param_keeps route source _) (λ from.
        Satisfies-bind (param_keeps route source _) (λ to.
          Satisfies-bind
            (read_with_sound (IsIsolated route) _ _ _ _ (λ s lines i. i)
              (IsIsolated-read route source _ refl))
            (λ rows. record { run = λ s i. i }))))
    where
      route : ReadbackRoute
      route = readback_route_goals

  catalog_answer_keeps :
      (route : ReadbackRoute) (answer : Result ℕ (List PropertyCatalogEntry))
      → Satisfies
          (IsIsolated route)
          (catalog_answer answer)
          (λ a s. IsIsolated route s)
          (λ e s. IsIsolated route s)
  unfolding catalog_answer ◌>>=◌
  catalog_answer_keeps route (ok entries) = record { run = λ s i. i }
  catalog_answer_keeps route (err e) = record { run = λ s i. i }

  properties_of-IsIsolated :
      (catalog : PropertyCatalogReader W) (source : SourceConfig)
      → Stays readback_route_properties (properties_of h ctx catalog source) source
  unfolding properties_of
  properties_of-IsIsolated catalog source = Satisfies-bind (param_keeps route source _) (λ scope.
      Satisfies-bind (param_keeps route source _) (λ limit.
        Satisfies-bind (run_read_sound (IsIsolated route) _ _ (IsIsolated-read route source _ refl))
          (λ answer.
            Satisfies-bind (catalog_answer_keeps route answer)
              (λ entries. record { run = λ s i. i }))))
    where
      route : ReadbackRoute
      route = readback_route_properties

  -- A route that is isolated behind its checks is isolated, and so is one that is not configured.
  guarded :
      {A B : Type 0} (route : ReadbackRoute) (configured : Option A)
      (f : A → SourceConfig → Handling W B)
      → ((a : A) (source : SourceConfig) → Stays route (f a source) source)
      → IsIsolated route (when_configured configured (λ a. pass_gates h ctx route >>= f a) s0).1
  guarded route none f behind = inl refl
  guarded route (some a) f behind =
      Satisfies-state
        (Satisfies-bind
          (Satisfies-weaken (pass_gates_sound h ctx s0 route) (λ source s ready. ready)
            (λ e s unread. inl unread))
          (behind a))
        s0 refl

  -- Each of the four readback routes reads nothing, or runs one query; and if it runs one, the
  -- bearer token was accepted at the instant that the clock gives, and allows that route and the request's write key, the write key
  -- resolved to a source whose origins and readback policy allow the request, and the query has the
  -- tenant, the project and the source id of that source.
  pub readback-IsIsolated :
      IsIsolated readback_route_realtime (handle_realtime h ctx s0).1
      × IsIsolated readback_route_events (handle_events h ctx s0).1
      × IsIsolated readback_route_goals (handle_goals h ctx s0).1
      × IsIsolated readback_route_properties (handle_properties h ctx s0).1
  unfolding handle_realtime handle_events handle_goals handle_properties
  readback-IsIsolated = (
    guarded _ _ _ realtime_of-IsIsolated,
    guarded _ _ _ events_of-IsIsolated,
    guarded _ _ _ goals_of-IsIsolated,
    guarded _ _ _ properties_of-IsIsolated,
  )

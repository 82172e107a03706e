-- ===== src/CollectApi/Collect/Sealed.antt =====
-- internal/collectapi/handler.go: what the collect route hands to analytics-core.
use anaysitics_service.Base.{
  ℕ, true, not, List, ◌∷◌, Option, none, some, Result, ok, err, ◌≡◌, refl, ap, ◌⊎◌, inl, inr, arith,
}
use anaysitics_service.Base.Action.{Ends, ◌>>=◌, Satisfies, Satisfies-bind, Satisfies-if}
use anaysitics_service.Base.Text.{CaseTable}
use anaysitics_service.ControlPlane.Source.{SourceConfig}
use anaysitics_service.ControlPlane.Policy.{allows_origin}
use anaysitics_service.ControlPlane.Validate.{Error, source_not_found, source_disabled}
use anaysitics_service.CollectApi.Request.{HttpRequest, write_key, request_origin}
use anaysitics_service.CollectApi.Handler.{ErrorReply}
use anaysitics_service.CollectApi.Collect.{
  CollectRequest, CollectPayload, Collector, CollectState, CollectLine, CollectError,
  filtered_error, validation_error, publish_error, EventEnvelope, stages, client_info,
  write_collect_error, collect_answer, call_core, ask_for_source, or_internal_error, stop_resolving,
  seal_request, hand_over, collect_for, collect_payload, handle_collect,
}

module _ {W Stage Core : Type 0} ⦃cases : CaseTable⦄ (h : Collector W Stage Core)
    (ctx : HttpRequest) (s0 : CollectState W Core) where
  -- The scope and the client of a request are those of the source and of the connection, and its
  -- event is the payload's.
  abbrev pub IsSealed : CollectPayload → SourceConfig → CollectRequest → Type 0
  IsSealed payload source r =
      (r.tenant_id ≡ source.tenant_id)
      × (r.project_id ≡ source.project_id)
      × (r.source_id ≡ source.source_id)
      × (r.source_type ≡ source.source_type)
      × (r.client ≡ client_info h ctx)
      × (r.event ≡ payload.request.event)

  -- The source that the payload's key resolved to, for an origin that it allows.
  abbrev pub IsAdmittedBy : CollectPayload → SourceConfig → CollectState W Core → Type 0
  IsAdmittedBy payload source s =
      (h.decode_payload ctx.body ≡ some payload)
      × (s.resolved ≡ (write_key ctx payload.write_key, ok source) ∷ s0.resolved)
      × (allows_origin source (request_origin ctx) ≡ true)

  -- One request was handed on, sealed, to a core with the source's stages.
  abbrev pub HandedOn : CollectState W Core → Type 0
  HandedOn s =
      (payload : CollectPayload) × (source : SourceConfig) × (built : List Stage) × (core : Core)
      × (request : CollectRequest) × IsAdmittedBy payload source s
      × (stages h source ≡ ok built)
      × (h.core.new_handler built ≡ ok core)
      × IsSealed payload source request
      × (s.handled ≡ (core, request) ∷ s0.handled)

  -- A request that is not accepted was not handed on, or analytics-core refused it.
  abbrev pub NotAccepted : ErrorReply → CollectState W Core → Type 0
  NotAccepted e s = (s.handled ≡ s0.handled) ⊎ HandedOn s

  abbrev Admitted : CollectPayload → SourceConfig → CollectState W Core → Type 0
  Admitted payload source s = IsAdmittedBy payload source s × (s.handled ≡ s0.handled)

  built_or_stopped :
      {A : Type 0} (P : CollectState W Core → Type 0) (line : ℕ → CollectLine) (r : Result ℕ A)
      → ((s : CollectState W Core) → P s → s.handled ≡ s0.handled)
      → Satisfies P (or_internal_error h line r) (λ a s. (r ≡ ok a) × P s) NotAccepted
  unfolding or_internal_error ◌>>=◌
  built_or_stopped P line (ok a) idle = record { run = λ s p. (refl, p) }
  built_or_stopped P line (err e) idle = record { run = λ s p. inl (idle s p) }

  answered_after :
      (answer : EventEnvelope × Option CollectError)
      → Satisfies HandedOn (collect_answer h answer) (λ a s. HandedOn s) NotAccepted
  unfolding collect_answer write_collect_error ◌>>=◌
  answered_after (envelope, none) = record { run = λ s p. p }
  answered_after (envelope, some (filtered_error e reason)) = record { run = λ s p. p }
  answered_after (envelope, some (validation_error message)) = record { run = λ s p. inr p }
  answered_after (envelope, some (publish_error e)) = record { run = λ s p. inr p }

  stop_resolving_idle :
      {A : Type 0} (e : Error)
      → Satisfies
          (λ s. s.handled ≡ s0.handled)
          (stop_resolving h {A = A} e)
          (λ a s. HandedOn s)
          NotAccepted
  unfolding stop_resolving ◌>>=◌
  stop_resolving_idle source_not_found = record { run = λ s idle. inl idle }
  stop_resolving_idle source_disabled = record { run = λ s idle. inl idle }
  stop_resolving_idle other = record { run = λ s idle. inl idle }

  -- What was built for the source, before the call.
  abbrev Built : CollectPayload → SourceConfig → List Stage → Core → CollectState W Core → Type 0
  Built payload source built core s =
      (h.core.new_handler built ≡ ok core)
      × ((stages h source ≡ ok built) × Admitted payload source s)

  call_core_hands :
      (payload : CollectPayload) (source : SourceConfig) (built : List Stage) (core : Core)
      → Satisfies
          (Built payload source built core)
          (call_core h core (seal_request h ctx payload source))
          (λ answer s. HandedOn s)
          NotAccepted
  unfolding call_core seal_request
  call_core_hands payload source built core = record {
    run = λ s (q, (p, (admitted, idle))). (
      payload,
      source,
      built,
      core,
      seal_request h ctx payload source,
      admitted,
      p,
      q,
      (refl, refl, refl, refl, refl, refl),
      ap (◌∷◌ (core, seal_request h ctx payload source)) idle,
    );
  }

  hand_over_sound :
      (payload : CollectPayload) (source : SourceConfig)
      → Satisfies
          (Admitted payload source)
          (hand_over h ctx payload source)
          (λ a s. HandedOn s)
          NotAccepted
  unfolding hand_over
  hand_over_sound payload source =
      Satisfies-bind (built_or_stopped (Admitted payload source) _ (stages h source) (λ s p. p.1))
        (λ built.
          Satisfies-bind (built_or_stopped _ _ (h.core.new_handler built) (λ s p. p.1.1))
            (λ core. Satisfies-bind (call_core_hands payload source built core) answered_after))

  -- What the resolver answered, before anything is handed on.
  abbrev Asked : CollectPayload → Result Error SourceConfig → CollectState W Core → Type 0
  Asked payload answer s =
      (s.resolved ≡ (write_key ctx payload.write_key, answer) ∷ s0.resolved)
      × (s.handled ≡ s0.handled)

  collect_for_sound :
      (payload : CollectPayload) (answer : Result Error SourceConfig)
      → h.decode_payload ctx.body ≡ some payload
      → Satisfies
          (Asked payload answer)
          (collect_for h ctx payload answer)
          (λ a s. HandedOn s)
          NotAccepted
  unfolding collect_for
  collect_for_sound payload (err e) decoded = record {
    run = λ s asked. (stop_resolving_idle e).run s asked.1;
  }
  collect_for_sound payload (ok source) decoded =
      Satisfies-if (not (allows_origin source (request_origin ctx)))
        (λ foreign. record { run = λ s asked. inl asked.1 })
        (λ fits. record {
          run = λ s asked.
              (hand_over_sound payload source).run s ((decoded, asked.0, ground arith), asked.1);
        })

  Asked-source :
      (payload : CollectPayload)
      → Satisfies
          (λ s. s ≡ s0)
          (ask_for_source h (write_key ctx payload.write_key))
          (λ answer s. Asked payload answer s)
          NotAccepted
  unfolding ask_for_source
  Asked-source payload = record { run = λ s same. rw same (refl, refl) }

  collect_payload_sound :
      (decoded : Option CollectPayload)
      → h.decode_payload ctx.body ≡ decoded
      → Satisfies (λ s. s ≡ s0) (collect_payload h ctx decoded) (λ a s. HandedOn s) NotAccepted
  unfolding collect_payload
  collect_payload_sound none decoded = record { run = λ s same. inl (rw same refl) }
  collect_payload_sound (some payload) decoded =
      Satisfies-bind (Asked-source payload) (λ answer. collect_for_sound payload answer decoded)

  -- If the collect route accepts a request (filtered or not), it handed exactly one request to
  -- analytics-core: with the stages of the source that the write key resolved to, for an origin
  -- that the source allows, and with that source's tenant, project, source id and type in place of
  -- the payload's. If it does not accept one, it handed on nothing or one such request.
  pub handle_collect_sealed : Ends (λ a s. HandedOn s) NotAccepted (handle_collect h ctx s0)
  unfolding handle_collect
  handle_collect_sealed = (collect_payload_sound (h.decode_payload ctx.body) refl).run s0 refl

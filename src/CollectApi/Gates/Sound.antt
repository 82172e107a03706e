-- ===== src/CollectApi/Gates/Sound.antt =====
-- internal/collectapi/query.go: what holds of a readback request that passed its checks, and that
-- nothing is read before.
use anaysitics_service.Base.{
  ℕ, true, false, ◌&&◌, not, ◌≡◌, refl, ap, ◌⊎◌, inl, inr, List, ◌∷◌, Option, none, some, Result,
  ok, err, Bool-cases, arith,
}
use anaysitics_service.Base.Action.{
  ◌>>=◌, ◌>>◌, give, Satisfies, Satisfies-bind, Satisfies-if, Satisfies-with,
}
use anaysitics_service.Base.Text.{Text, text, is_empty, trim_space, CaseTable}
use anaysitics_service.ControlPlane.Source.{SourceConfig}
use anaysitics_service.ControlPlane.Policy.{ReadbackRoute, allows_origin, allows_readback}
use anaysitics_service.ControlPlane.Validate.{Error}
use anaysitics_service.CollectApi.Credentials.{
  QueryCredential, QueryTokenAuthState, QueryTokenAuthDecision, authorize_query_token, decide_match,
  allows_readback_route, allows_write_key,
}
use anaysitics_service.CollectApi.Credentials.Authorize.{Accepts}
use anaysitics_service.CollectApi.Request.{
  HttpRequest, bearer_token, query_write_key, request_origin,
}
use anaysitics_service.CollectApi.Handler.{
  LogLine, Handler, ServerState, ErrorReply, write_resolve_error,
}
use anaysitics_service.CollectApi.Gates.{
  is_refused, no_credentials, audit_rejected_query_token, audit_accepted_query_token,
  accepted_audit, check_decision, require_process_query_token, check_write_key, require_query_token,
  check_source, resolve_query_source, require_readback_policy, pass_gates,
}

decide_match-state :
    (m : Option (ℕ × QueryCredential)) (now : ℕ)
    → is_refused (decide_match m now).state ≡ false
    → Accepts (decide_match m now)
unfolding decide_match
decide_match-state none now h = absurd (cc)
decide_match-state (some (idx, c)) now h = ground arith

-- The decision on a token is a refusal or an acceptance.
authorize-state :
    (value : Text) (accepted : List QueryCredential) (now : ℕ)
    → is_refused (authorize_query_token value accepted now).state ≡ false
    → Accepts (authorize_query_token value accepted now)
unfolding authorize_query_token
authorize-state value accepted now h = elim (Bool-cases (is_empty (trim_space value))) [
  | inl blank ↦ absurd (ground arith)
  | inr set ↦ rw set (decide_match-state _ now (rw set at h))
]

module _ {W : Type 0} ⦃cases : CaseTable⦄ (h : Handler W) (ctx : HttpRequest)
    (s0 : ServerState W) where
  -- Nothing was resolved or read yet.
  abbrev pub Untouched : ServerState W → Type 0
  Untouched s = (s.resolved ≡ s0.resolved) × (s.reads ≡ s0.reads)

  abbrev pub Unread : ErrorReply → ServerState W → Type 0
  Unread e s = s.reads ≡ s0.reads

  -- The world has not moved on either: the clock is still to be asked.
  abbrev pub Unmoved : ServerState W → Type 0
  Unmoved s = (s.world ≡ s0.world) × Untouched s

  -- A decision that accepts the bearer token of the request, at the instant of the clock, for a route.
  abbrev pub IsGranted : ReadbackRoute → QueryTokenAuthDecision → Type 0
  IsGranted route d =
      (d
        ≡ authorize_query_token (bearer_token (ctx.header (text "Authorization")))
            h.query_credentials (h.now s0.world).0)
      × Accepts d
      × (allows_readback_route d.credential route ≡ true)

  -- The token may be used for the write key of the request, if there is one.
  abbrev CoversKey : QueryTokenAuthDecision → Type 0
  CoversKey d =
      (is_empty (query_write_key ctx) ≡ true)
      ⊎ (allows_write_key d.credential (query_write_key ctx) ≡ true)

  -- The request names a write key, which resolved to the source, whose origins it satisfies.
  abbrev pub IsResolved : SourceConfig → ServerState W → Type 0
  IsResolved source s =
      (is_empty (query_write_key ctx) ≡ false)
      × (s.resolved ≡ (query_write_key ctx, ok source) ∷ s0.resolved)
      × (allows_origin source (request_origin ctx) ≡ true)

  -- Every check passed.
  abbrev pub HasPassed : ReadbackRoute → SourceConfig → ServerState W → Type 0
  HasPassed route source s =
      ((d : QueryTokenAuthDecision) × IsGranted route d
        × (allows_write_key d.credential (query_write_key ctx) ≡ true))
      × IsResolved source s
      × (allows_readback source route ≡ true)

  check_decision_sound :
      (route : ReadbackRoute) (d : QueryTokenAuthDecision)
      → d
        ≡ authorize_query_token
            (bearer_token (ctx.header (text "Authorization")))
            h.query_credentials
            (h.now s0.world).0
      → Satisfies Untouched
          (check_decision h ctx route d)
          (λ d s. IsGranted route d × Untouched s)
          Unread
  unfolding check_decision audit_rejected_query_token ◌>>=◌
  check_decision_sound route d from_token =
      Satisfies-if (is_refused d.state) (λ refused. record { run = λ s u. u.1 })
        (λ fine.
          Satisfies-if (not (allows_readback_route d.credential route))
            (λ denied. record { run = λ s u. u.1 })
            (λ in_scope. record { run = λ s u. ((from_token, accepts fine, ground arith), u) }))
    where
      accepts : is_refused d.state ≡ false → Accepts d
      accepts fine = rw from_token (authorize-state _ _ _ (rw from_token at fine))

  pub require_process_query_token_sound :
      (route : ReadbackRoute)
      → Satisfies Unmoved
          (require_process_query_token h ctx route)
          (λ d s. IsGranted route d × Untouched s)
          Unread
  unfolding require_process_query_token ◌>>=◌
  require_process_query_token_sound route =
      Satisfies-if (no_credentials h.query_credentials) (λ none_set. record { run = λ s u. u.1.1 })
        (λ some_set. record {
          run = λ s (same, u). (check_decision_sound route _ (ap accepted same)).run _ u;
        })
    where
      accepted : W → QueryTokenAuthDecision
      accepted w =
          authorize_query_token (bearer_token (ctx.header (text "Authorization")))
            h.query_credentials (h.now w).0

  check_write_key_sound :
      (route : ReadbackRoute) (d : QueryTokenAuthDecision)
      → Satisfies
          (λ s. IsGranted route d × Untouched s)
          (check_write_key h ctx d)
          (λ d s. (IsGranted route d × CoversKey d) × Untouched s)
          Unread
  unfolding check_write_key audit_rejected_query_token ◌>>=◌
  check_write_key_sound route d =
      Satisfies-if
        (not (is_empty (query_write_key ctx))
          && not (allows_write_key d.credential (query_write_key ctx)))
        (λ denied. record { run = λ s u. u.1.1 })
        (λ fine. record { run = λ s u. ((u.0, ground arith), u.1) })

  pub accepted_audit_quiet :
      (st : QueryTokenAuthState) (c : QueryCredential) (source : SourceConfig) (s : ServerState W)
      → (lines : List LogLine) × (accepted_audit h ctx st c source s
          ≡ (ok tt, record s { logged = lines }))
  unfolding accepted_audit
  accepted_audit_quiet QueryTokenAuthState.allowed_grace c source s = (_, refl)
  accepted_audit_quiet other c source s = (s.logged, refl)

  check_source_sound :
      (d : QueryTokenAuthDecision) (answer : Result Error SourceConfig)
      → Satisfies
          (λ s.
            (is_empty (query_write_key ctx) ≡ false)
            × (s.resolved ≡ (query_write_key ctx, answer) ∷ s0.resolved)
            × (s.reads ≡ s0.reads))
          (check_source h ctx d answer)
          (λ source s. IsResolved source s × (s.reads ≡ s0.reads))
          Unread
  unfolding check_source write_resolve_error audit_accepted_query_token ◌>>=◌
  check_source_sound d (err e) = record { run = λ s (set, got, unread). unread }
  check_source_sound d (ok source) =
      Satisfies-if (not (allows_origin source (request_origin ctx)))
        (λ foreign. record { run = λ s (set, got, unread). unread })
        (λ fits. record {
          run = λ s (set, got, unread).
              rw (accepted_audit_quiet d.state d.credential source s).1
                ((set, got, ground arith), unread);
        })

  resolve_query_source_sound :
      (d : QueryTokenAuthDecision)
      → Satisfies Untouched
          (resolve_query_source h ctx d)
          (λ source s. IsResolved source s × (s.reads ≡ s0.reads))
          Unread
  unfolding resolve_query_source ◌>>=◌
  resolve_query_source_sound d =
      Satisfies-if (is_empty (query_write_key ctx)) (λ blank. record { run = λ s u. u.1 })
        (λ set. record {
          run = λ s u. (check_source_sound d _).run _ (
            set,
            ap (◌∷◌ (query_write_key ctx, (h.resolve (query_write_key ctx) s.world).0)) u.0,
            u.1,
          );
        })

  require_readback_policy_sound :
      (route : ReadbackRoute) (source : SourceConfig) (P : ServerState W → Type 0)
      → ((s : ServerState W) → P s → s.reads ≡ s0.reads)
      → Satisfies P
          (require_readback_policy h ctx source route)
          (λ done s. (allows_readback source route ≡ true) × P s)
          Unread
  unfolding require_readback_policy
  require_readback_policy_sound route source P unread =
      Satisfies-if (allows_readback source route) (λ on. record { run = λ s p. (on, p) })
        (λ off. record { run = λ s p. unread s p })

  -- A request that passes the checks has an accepted token with the right route and write key, and
  -- names a source that the resolver returned, whose origins and policy allow it; nothing is read on
  -- the way, whether it passes or not.
  pub pass_gates_sound :
      (route : ReadbackRoute)
      → Satisfies
          (λ s. s ≡ s0)
          (pass_gates h ctx route)
          (λ source s. HasPassed route source s × (s.reads ≡ s0.reads))
          Unread
  unfolding pass_gates require_query_token
  pass_gates_sound route = record { run = λ s same. (gates).run s (rw same (refl, (refl, refl))) }
    where
      Granted : QueryTokenAuthDecision → ServerState W → Type 0
      Granted d s = (IsGranted route d × CoversKey d) × Untouched s

      token : Satisfies Unmoved (require_query_token h ctx route) Granted Unread
      token = Satisfies-bind (require_process_query_token_sound route) (check_write_key_sound route)

      key_covered :
          (d : QueryTokenAuthDecision)
          → CoversKey d
          → is_empty (query_write_key ctx) ≡ false
          → allows_write_key d.credential (query_write_key ctx) ≡ true
      key_covered d c set = ground arith

      source :
          (d : QueryTokenAuthDecision)
          → IsGranted route d × CoversKey d
          → Satisfies Untouched
              (resolve_query_source h ctx d >>= λ source.
                require_readback_policy h ctx source route >> give source)
              (λ source s. HasPassed route source s × (s.reads ≡ s0.reads))
              Unread
      source d (granted, covers) = Satisfies-bind (resolve_query_source_sound d) (λ source.
          Satisfies-bind (require_readback_policy_sound route source _ (λ s p. p.1)) (λ done.
            record {
              run =
                  λ s (on, (r, unread)). (((d, granted, key_covered d covers r.0), r, on), unread);
            }))

      gates :
          Satisfies Unmoved
            (pass_gates h ctx route)
            (λ source s. HasPassed route source s × (s.reads ≡ s0.reads))
            Unread
      gates = Satisfies-bind token (λ d. Satisfies-with (source d))

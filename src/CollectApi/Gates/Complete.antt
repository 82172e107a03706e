-- ===== src/CollectApi/Gates/Complete.antt =====
-- internal/collectapi/query.go: a request that satisfies every check passes them.
use anaysitics_service.Base.{ℕ, true, false, ◌≡◌, refl, inl, inr, List, [], ◌∷◌, ok, arith}
use anaysitics_service.Base.Action.{◌>>=◌}
use anaysitics_service.Base.Text.{Text, text, is_empty, CaseTable}
use anaysitics_service.ControlPlane.Source.{SourceConfig}
use anaysitics_service.ControlPlane.Policy.{ReadbackRoute, allows_origin, allows_readback}
use anaysitics_service.CollectApi.Credentials.{
  QueryCredential, QueryTokenAuthDecision, authorize_query_token, last_match, decide_match,
  allows_readback_route, allows_write_key,
}
use anaysitics_service.CollectApi.Credentials.Authorize.{Accepts}
use anaysitics_service.CollectApi.Request.{
  HttpRequest, bearer_token, query_write_key, request_origin,
}
use anaysitics_service.CollectApi.Handler.{Handler, ServerState}
use anaysitics_service.CollectApi.Gates.{
  is_refused, no_credentials, audit_accepted_query_token, check_decision,
  require_process_query_token, check_write_key, require_query_token, check_source,
  resolve_query_source, require_readback_policy, pass_gates,
}
use anaysitics_service.CollectApi.Gates.Sound.{accepted_audit_quiet}

accepted-not_refused : (d : QueryTokenAuthDecision) → Accepts d → is_refused d.state ≡ false
accepted-not_refused d (inl e) = rw e refl
accepted-not_refused d (inr e) = rw e refl

accepted-some_credential :
    (value : Text) (accepted : List QueryCredential) (now : ℕ)
    → Accepts (authorize_query_token value accepted now)
    → no_credentials accepted ≡ false
unfolding authorize_query_token last_match decide_match
accepted-some_credential value [] now a = absurd (ground arith)
accepted-some_credential value (c ∷ cs) now a = refl

module _ {W : Type 0} ⦃cases : CaseTable⦄ (h : Handler W) (ctx : HttpRequest) where
  -- The decision on the bearer token of the request at an instant.
  abbrev pub decision_at : ℕ → QueryTokenAuthDecision
  decision_at now =
      authorize_query_token (bearer_token (ctx.header (text "Authorization"))) h.query_credentials
        now

  -- If the bearer token is accepted at the instant that the clock gives and allows the route and the
  -- request's write key, which is not empty, and the key then resolves to a source that allows the
  -- origin and the route, the checks end in that source.
  pub pass_gates_complete :
      (route : ReadbackRoute) (s : ServerState W) (now : ℕ) (w w' : W) (source : SourceConfig)
      → h.now s.world ≡ (now, w)
      → Accepts (decision_at now)
      → allows_readback_route (decision_at now).credential route ≡ true
      → is_empty (query_write_key ctx) ≡ false
      → allows_write_key (decision_at now).credential (query_write_key ctx) ≡ true
      → h.resolve (query_write_key ctx) w ≡ (ok source, w')
      → allows_origin source (request_origin ctx) ≡ true
      → allows_readback source route ≡ true
      → (pass_gates h ctx route s).0 ≡ ok source
  unfolding pass_gates require_query_token require_process_query_token check_decision
      check_write_key resolve_query_source check_source audit_accepted_query_token
      require_readback_policy ◌>>=◌
  pass_gates_complete route s now w w' source clock accepts in_scope set covered answer fits on =
      rw (accepted-some_credential _ _ now accepts) (
        rw clock (
          rw (accepted-not_refused (decision_at now) accepts) (
            rw in_scope (
              rw (set, covered)
                (rw answer (
                  rw fits (
                    rw
                      (accepted_audit_quiet h ctx s (decision_at now).state
                        (decision_at now).credential source
                        (record s {
                          world = w';
                          resolved = (query_write_key ctx, ok source) ∷ s.resolved;
                        })).1
                      (rw on refl))))))))

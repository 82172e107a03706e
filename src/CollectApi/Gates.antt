-- ===== src/CollectApi/Gates.antt =====
-- internal/collectapi/query.go: the checks that a readback request passes before anything is read.
pub mod Sound
pub mod Complete
use anaysitics_service.Base.{
  Bool, true, false, ◌&&◌, not, List, [], ◌∷◌, Result, ok, err, if◌then◌else◌,
}
use anaysitics_service.Base.Action.{◌>>=◌, ◌>>◌, give, stop}
use anaysitics_service.Base.Text.{text, is_empty, CaseTable}
use anaysitics_service.ControlPlane.Source.{SourceConfig}
use anaysitics_service.ControlPlane.Policy.{ReadbackRoute, allows_origin, allows_readback}
use anaysitics_service.ControlPlane.Validate.{Error}
use anaysitics_service.CollectApi.Credentials.{
  QueryCredential, QueryTokenAuthState, QueryTokenAuthDecision, authorize_query_token,
  allows_readback_route, allows_write_key,
}
use anaysitics_service.CollectApi.Request.{
  HttpRequest, bearer_token, query_write_key, request_origin,
}
use anaysitics_service.CollectApi.Handler.{
  Handler, Handling, LogLine, accepted_rotated_token, rejected_expired_token,
  rejected_not_yet_valid_token, rejected_out_of_scope_token, rejected_out_of_source_token,
  rejected_unknown_token, log, call, ask_resolver, reply, remote_ip, write_resolve_error,
}

abbrev pub no_credentials : List QueryCredential → Bool
no_credentials [] = true
no_credentials (c ∷ cs) = false

-- unknown, expired or not yet valid
abbrev pub is_refused : QueryTokenAuthState → Bool
is_refused QueryTokenAuthState.unknown = true
is_refused QueryTokenAuthState.expired = true
is_refused QueryTokenAuthState.not_yet_valid = true
is_refused other = false

module _ {W : Type 0} (h : Handler W) (ctx : HttpRequest) where
  unfoldable pub rejected_line : QueryCredential → QueryTokenAuthState → LogLine
  rejected_line c QueryTokenAuthState.expired =
      rejected_expired_token c.id ctx.path (remote_ip h ctx)
  rejected_line c QueryTokenAuthState.not_yet_valid =
      rejected_not_yet_valid_token c.id ctx.path (remote_ip h ctx)
  rejected_line c QueryTokenAuthState.scope_denied =
      rejected_out_of_scope_token c.id ctx.path c.scopes (remote_ip h ctx)
  rejected_line c QueryTokenAuthState.write_key_denied =
      rejected_out_of_source_token c.id ctx.path c.allowed_write_keys (remote_ip h ctx)
  rejected_line c other = rejected_unknown_token ctx.path (remote_ip h ctx)

  -- Handler.auditRejectedQueryToken
  unfoldable pub audit_rejected_query_token : QueryTokenAuthDecision → Handling W (Unit {0})
  audit_rejected_query_token decision = log (rejected_line decision.credential decision.state)

  unfoldable pub accepted_audit :
      QueryTokenAuthState → QueryCredential → SourceConfig → Handling W (Unit {0})
  accepted_audit QueryTokenAuthState.allowed_grace c source = log (
      accepted_rotated_token c.id source.tenant_id source.project_id source.source_id ctx.path
        (remote_ip h ctx))
  accepted_audit other c source = give tt

  -- Handler.auditAcceptedQueryToken
  unfoldable pub audit_accepted_query_token :
      QueryTokenAuthDecision → SourceConfig → Handling W (Unit {0})
  unfolding accepted_audit
  audit_accepted_query_token decision source =
      accepted_audit decision.state decision.credential source

  module _ ⦃cases : CaseTable⦄ where
    -- The checks on the decision.
    unfoldable pub check_decision :
        ReadbackRoute → QueryTokenAuthDecision → Handling W QueryTokenAuthDecision
    check_decision route decision =
        if is_refused decision.state
        then (do audit_rejected_query_token decision; stop (reply 401 (text "unauthorized")))
        else if not (allows_readback_route decision.credential route)
        then (do
          audit_rejected_query_token (record decision { state = QueryTokenAuthState.scope_denied })
          stop (reply 403 (text "forbidden")))
        else give decision

    -- Handler.requireProcessQueryToken
    unfoldable pub require_process_query_token : ReadbackRoute → Handling W QueryTokenAuthDecision
    require_process_query_token route =
        if no_credentials h.query_credentials then stop (reply 404 (text "not found")) else (do
          time ← call h.now
          check_decision route (
              authorize_query_token (bearer_token (ctx.header (text "Authorization")))
                h.query_credentials time))

    -- The check of the write key against the token's sources.
    unfoldable pub check_write_key : QueryTokenAuthDecision → Handling W QueryTokenAuthDecision
    check_write_key decision =
        let key = query_write_key ctx in
        if not (is_empty key) && not (allows_write_key decision.credential key)
        then (do
          audit_rejected_query_token
              (record decision { state = QueryTokenAuthState.write_key_denied })
          stop (reply 403 (text "forbidden")))
        else give decision

    -- Handler.requireQueryToken
    unfoldable pub require_query_token : ReadbackRoute → Handling W QueryTokenAuthDecision
    require_query_token route = do
      decision ← require_process_query_token route
      check_write_key decision

    unfoldable pub check_source :
        QueryTokenAuthDecision → Result Error SourceConfig → Handling W SourceConfig
    check_source decision (err e) = write_resolve_error e
    check_source decision (ok source) =
        if not (allows_origin source (request_origin ctx))
        then stop (reply 403 (text "origin is not allowed"))
        else (do audit_accepted_query_token decision source; give source)

    -- Handler.resolveQuerySource
    unfoldable pub resolve_query_source : QueryTokenAuthDecision → Handling W SourceConfig
    resolve_query_source decision =
        let key = query_write_key ctx in
        if is_empty key
        then stop (reply 400 (text "write_key is required"))
        else (do answer ← ask_resolver h key; check_source decision answer)

    -- Handler.requireReadbackPolicy
    unfoldable pub require_readback_policy : SourceConfig → ReadbackRoute → Handling W (Unit {0})
    require_readback_policy source route =
        if allows_readback source route
        then give tt
        else stop (reply 403 (text "readback is disabled"))

    -- The three checks that each readback route makes in a row.
    unfoldable pub pass_gates : ReadbackRoute → Handling W SourceConfig
    pass_gates route = do
      decision ← require_query_token route
      source ← resolve_query_source decision
      require_readback_policy source route
      give source

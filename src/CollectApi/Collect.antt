-- ===== src/CollectApi/Collect.antt =====
-- internal/collectapi/handler.go: the collect route.
pub mod Sealed
use anaysitics_service.Base.{
  ℕ, Bool, true, false, not, List, [], ◌∷◌, Option, none, some, Result, ok, err, if◌then◌else◌,
}
use anaysitics_service.Base.Action.{Action, ◌>>=◌, ◌>>◌, give, stop}
use anaysitics_service.Base.Int.{ℤ}
use anaysitics_service.Base.Text.{Text, text, is_empty, CaseTable}
use anaysitics_service.ControlPlane.Source.{SourceConfig}
use anaysitics_service.ControlPlane.Policy.{allows_origin}
use anaysitics_service.ControlPlane.Validate.{Error, source_not_found, source_disabled}
use anaysitics_service.CollectApi.Request.{
  HttpRequest, AddressParser, client_ip, write_key, request_origin,
}
use anaysitics_service.CollectApi.Handler.{ErrorReply, reply, resolve_error_reply}

pub record ClientInfo : Type 0 where
  pub user_agent : Text
  pub ip : Text
  pub referrer : Text

-- collect.Request: the fields that the handler sets, and the event, which it passes on.
pub record CollectRequest : Type 0 where
  pub tenant_id : Text
  pub project_id : Text
  pub source_id : Text
  pub source_type : Text
  pub client : ClientInfo
  pub event : Text

pub record CollectPayload : Type 0 where
  pub request : CollectRequest
  pub write_key : Text

pub record EventEnvelope : Type 0 where
  pub id : Text
  pub tenant_id : Text
  pub project_id : Text
  pub source_id : Text
  pub received_at : ℤ

-- An error of the core handler: collect.FilteredError with its envelope and reason,
-- collect.ValidationError with its message, or another.
pub data CollectError : Type 0 where
  filtered_error : EventEnvelope → Text → CollectError
  validation_error : Text → CollectError
  publish_error : ℕ → CollectError

pub record TrafficFilterConfig : Type 0 where
  pub bot_user_agents : List Text
  pub internal_cidrs : List Text
  pub internal_ips : List Text

-- The parsers that the options carry are the same for every request and are left out.
pub record ClientEnrichmentConfig : Type 0 where
  pub hash_salt : Text
  pub include_user_agent : Bool
  pub include_ip_hash : Bool
  pub include_referrer : Bool
  pub include_browser_info : Bool
  pub include_geo_info : Bool

pub record SessionResolverConfig : Type 0 where
  pub salt : Text
  pub include_client_fingerprint : Bool

pub record VisitResolverConfig : Type 0 where
  pub salt : Text
  pub window : ℤ

-- The stages and the handler of analytics-core, which publishes in a world W.
pub record CollectCore (W Stage Core : Type 0) : Type 0 where
  pub new_traffic_filter_stage : TrafficFilterConfig → Result ℕ Stage
  pub new_client_enrichment_stage : ClientEnrichmentConfig → Result ℕ Stage
  pub new_session_resolver_stage : SessionResolverConfig → Result ℕ Stage
  pub new_visit_resolver_stage : VisitResolverConfig → Result ℕ Stage
  pub new_handler : List Stage → Result ℕ Core
  pub handle : Core → CollectRequest → W → (EventEnvelope × Option CollectError) × W

-- Handler, as the collect route uses it.
pub record Collector (W Stage Core : Type 0) : Type 0 where
  pub trust_forwarded_headers : Bool
  pub has_geo_resolver : Bool
  pub addresses : AddressParser
  pub decode_payload : Text → Option CollectPayload
  pub format_rfc3339_nano : ℤ → Text
  pub resolve : Text → W → Result Error SourceConfig × W
  pub core : CollectCore W Stage Core

pub data CollectLine : Type 0 where
  collect_filtered : EventEnvelope → Text → CollectLine
  resolve_failed : Error → CollectLine
  stages_failed core_failed publish_failed : ℕ → CollectLine

-- The world, and the lines logged, keys resolved and requests handed to analytics-core; last first.
pub record CollectState (W Core : Type 0) : Type 0 where
  pub world : W
  pub logged : List CollectLine
  pub resolved : List (Text × Result Error SourceConfig)
  pub handled : List (Core × CollectRequest)

-- AcceptedResponse, with status 202.
pub record AcceptedResponse : Type 0 where
  pub id : Text
  pub received_at : Text
  pub filtered : Bool

abbrev pub internal_error : ErrorReply
internal_error = reply 500 (text "internal server error")

-- The envelope that the response names.
abbrev pub filtered_envelope : EventEnvelope → EventEnvelope → EventEnvelope
filtered_envelope envelope from_error = if is_empty envelope.id then from_error else envelope

module _ {W Stage Core : Type 0} (h : Collector W Stage Core) where
  abbrev pub Collecting : Type 0 → Type 0
  Collecting A = Action (CollectState W Core) ErrorReply A

  abbrev pub note : CollectLine → Collecting (Unit {0})
  note line s = (ok tt, record s { logged = line ∷ s.logged })

  -- Handler.stages
  unfoldable pub stages : SourceConfig → Result ℕ (List Stage)
  stages source =
      chain
        (h.core.new_traffic_filter_stage (record {
          bot_user_agents = source.bot_user_agents;
          internal_cidrs = source.internal_cidrs;
          internal_ips = source.internal_ips;
        }))
        (chain
          (h.core.new_client_enrichment_stage (record {
            hash_salt = source.client_hash_salt;
            include_user_agent = true;
            include_ip_hash = true;
            include_referrer = true;
            include_browser_info = true;
            include_geo_info = h.has_geo_resolver;
          }))
          (chain
            (h.core.new_session_resolver_stage (record {
              salt = source.session_salt;
              include_client_fingerprint = source.include_client_fingerprint;
            }))
            (chain
              (h.core.new_visit_resolver_stage
                (record { salt = source.visit_salt; window = source.visit_window }))
              (ok []))))
    where
      chain : Result ℕ Stage → Result ℕ (List Stage) → Result ℕ (List Stage)
      chain (err e) rest = err e
      chain (ok stage) (err e) = err e
      chain (ok stage) (ok rest) = ok (stage ∷ rest)

  -- Handler.clientInfo
  unfoldable pub client_info : HttpRequest → ClientInfo
  client_info ctx = record {
    user_agent = ctx.header (text "User-Agent");
    ip = client_ip h.addresses h.trust_forwarded_headers ctx;
    referrer = ctx.header (text "Referer");
  }

  abbrev pub accepted : EventEnvelope → Bool → AcceptedResponse
  accepted envelope filtered = record {
    id = envelope.id;
    received_at = h.format_rfc3339_nano envelope.received_at;
    filtered = filtered;
  }

  -- Handler.writeCollectError
  unfoldable pub write_collect_error : EventEnvelope → CollectError → Collecting AcceptedResponse
  write_collect_error envelope (filtered_error from_error reason) = do
    note (collect_filtered (filtered_envelope envelope from_error) reason)
    give (accepted (filtered_envelope envelope from_error) true)
  write_collect_error envelope (validation_error message) = stop (reply 400 message)
  write_collect_error envelope (publish_error e) = do note (publish_failed e); stop internal_error

  unfoldable pub collect_answer : EventEnvelope × Option CollectError → Collecting AcceptedResponse
  collect_answer (envelope, none) = give (accepted envelope false)
  collect_answer (envelope, some e) = write_collect_error envelope e

  abbrev handled_state :
      Core
      → CollectRequest
      → CollectState W Core
      → (EventEnvelope × Option CollectError) × W
      → Result ErrorReply (EventEnvelope × Option CollectError) × CollectState W Core
  handled_state core request s (answer, w) =
      (ok answer, record s { world = w; handled = (core, request) ∷ s.handled })

  -- `handler.Handle`
  unfoldable pub call_core :
      Core → CollectRequest → Collecting (EventEnvelope × Option CollectError)
  call_core core request s = handled_state core request s (h.core.handle core request s.world)

  abbrev asked_state :
      Text
      → CollectState W Core
      → Result Error SourceConfig × W
      → Result ErrorReply (Result Error SourceConfig) × CollectState W Core
  asked_state key s (answer, w) =
      (ok answer, record s { world = w; resolved = (key, answer) ∷ s.resolved })

  unfoldable pub ask_for_source : Text → Collecting (Result Error SourceConfig)
  ask_for_source key s = asked_state key s (h.resolve key s.world)

  -- A failure to build the stages or the handler, with the line logged.
  unfoldable pub or_internal_error : {A : Type 0} → (ℕ → CollectLine) → Result ℕ A → Collecting A
  or_internal_error line (ok a) = give a
  or_internal_error line (err e) = do note (line e); stop internal_error

  unfoldable pub stop_resolving : {A : Type 0} → Error → Collecting A
  stop_resolving source_not_found = stop (resolve_error_reply source_not_found)
  stop_resolving source_disabled = stop (resolve_error_reply source_disabled)
  stop_resolving other = do note (resolve_failed other); stop (resolve_error_reply other)

  -- The payload's scope is replaced by the source's.
  unfoldable pub seal_request : HttpRequest → CollectPayload → SourceConfig → CollectRequest
  seal_request ctx payload source = record payload.request {
    tenant_id = source.tenant_id;
    project_id = source.project_id;
    source_id = source.source_id;
    source_type = source.source_type;
    client = client_info ctx;
  }

  module _ ⦃cases : CaseTable⦄ (ctx : HttpRequest) where
    -- The request is handed to analytics-core.
    unfoldable pub hand_over : CollectPayload → SourceConfig → Collecting AcceptedResponse
    hand_over payload source = do
      built ← or_internal_error stages_failed (stages source)
      core ← or_internal_error core_failed (h.core.new_handler built)
      answer ← call_core core (seal_request ctx payload source)
      collect_answer answer

    -- What follows the resolution.
    unfoldable pub collect_for :
        CollectPayload → Result Error SourceConfig → Collecting AcceptedResponse
    collect_for payload (err e) = stop_resolving e
    collect_for payload (ok source) =
        if not (allows_origin source (request_origin ctx))
        then stop (reply 403 (text "origin is not allowed"))
        else hand_over payload source

    unfoldable pub collect_payload : Option CollectPayload → Collecting AcceptedResponse
    collect_payload none = stop (reply 400 (text "invalid collect payload"))
    collect_payload (some payload) = do
      answer ← ask_for_source (write_key ctx payload.write_key)
      collect_for payload answer

    -- Handler.handleCollect
    unfoldable pub handle_collect : Collecting AcceptedResponse
    handle_collect = collect_payload (h.decode_payload ctx.body)

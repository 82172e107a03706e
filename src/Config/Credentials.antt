-- ===== src/Config/Credentials.antt =====
-- internal/config/config.go: the query credentials of the environment.
pub mod Scopes
pub mod Sound
pub mod Primary
use anaysitics_service.Base.{
  ℕ, suc, ◌+◌, not, ◌&&◌, ltb, nat_eq, contains, List, [], ◌∷◌, ◌++◌, Option, none, some, Result,
  ok, err, ◌>>=◌, ◌>>◌, if◌then◌else◌, ◌==◌, Bool,
}
use anaysitics_service.Base.Text.{Text, Text_eq, text, is_empty, trim_space, CaseTable, to_lower}
use anaysitics_service.Base.Text.Decimal.{itoa}
use anaysitics_service.Config.{Environment, EncodedCredential, QueryTokenCredential}
use anaysitics_service.Config.Env.{env_string, env_optional_time, parse_optional_time}
use anaysitics_service.Config.Names.{split_comma, normalize_names, parse_csv}
use anaysitics_service.ControlPlane.Policy.{
  ReadbackRoute, readback_route_realtime, readback_route_events, readback_route_properties,
  readback_route_goals, readback_route_kafka_diagnostics, readback_route_kafka_metrics,
}
use anaysitics_service.ControlPlane.Validate.{Error, failure, require}

-- QueryTokenCredential{}
abbrev pub zero_credential : QueryTokenCredential
zero_credential = record {
  id = [];
  token = [];
  not_before = 0;
  expires_at = 0;
  scopes = [];
  allowed_write_keys = [];
}

abbrev pub known_routes : List ReadbackRoute
known_routes =
    readback_route_realtime ∷ readback_route_events ∷ readback_route_properties
    ∷ readback_route_goals ∷ readback_route_kafka_diagnostics ∷ readback_route_kafka_metrics ∷ []

module _ ⦃cases : CaseTable⦄ where
  -- The cases of the switch return the constant that they compare with; `[]` is no scope.
  unfoldable pub parse_query_token_scope : Text → Result Error ReadbackRoute
  parse_query_token_scope raw =
      let value = to_lower (trim_space raw) in
      if is_empty value
      then ok []
      else if contains known_routes value
      then ok value
      else err (
          failure
            "query token scope must be one of realtime, events, properties, goals, kafka_diagnostics, kafka_metrics")

  -- The scopes that are kept for the values, and the set of those seen so far.
  unfoldable pub scopes_from : List ReadbackRoute → List Text → Result Error (List ReadbackRoute)
  scopes_from seen [] = ok []
  scopes_from seen (value ∷ rest) = do
    scope ← parse_query_token_scope value
    if is_empty scope
        then scopes_from seen rest
        else if contains seen scope
        then scopes_from seen rest
        else do scopes ← scopes_from (scope ∷ seen) rest; ok (scope ∷ scopes)

  unfoldable pub parse_query_token_scopes_list : List Text → Result Error (List ReadbackRoute)
  parse_query_token_scopes_list raw = scopes_from [] raw

  unfoldable pub parse_query_token_scopes_csv : Text → Result Error (List ReadbackRoute)
  parse_query_token_scopes_csv raw =
      if is_empty (trim_space raw) then ok [] else parse_query_token_scopes_list (split_comma raw)

-- The window that a credential may not have.
unfoldable pub is_backwards : QueryTokenCredential → Bool
is_backwards c =
    not (nat_eq c.not_before 0)
    && not (nat_eq c.expires_at 0)
    && not (ltb c.not_before c.expires_at)

-- The slice and the set that the closure appendCredential writes.
pub record Collected : Type 0 where
  pub credentials : List QueryTokenCredential
  pub seen : List Text

unfoldable pub or_default_id : Text → Text → Text
or_default_id id default_id = if is_empty id then default_id else id

-- The closure appendCredential.
unfoldable pub collect_credential : Collected → QueryTokenCredential → Text → Result Error Collected
collect_credential s credential default_id =
    let token = trim_space credential.token in
    if is_empty token then ok s else do
      require (not (is_backwards credential))
          "query token not_before must be earlier than expires_at"
      if contains s.seen token
          then ok s
          else ok (record {
            credentials =
                s.credentials
                ++ (record credential {
                  token = token;
                  id = or_default_id (trim_space credential.id) default_id;
                }
                    ∷ []);
            seen = token ∷ s.seen;
          })

module _ ⦃cases : CaseTable⦄ (env : Environment) where
  unfoldable pub primary_query_credential_from_env : Text → Result Error QueryTokenCredential
  primary_query_credential_from_env primary = do
    let allowed_write_keys =
        parse_csv (env_string env (text "ANALYTICS_SERVICE_QUERY_TOKEN_WRITE_KEYS") [])
    not_before ← env_optional_time env (text "ANALYTICS_SERVICE_QUERY_TOKEN_NOT_BEFORE")
    expires_at ← env_optional_time env (text "ANALYTICS_SERVICE_QUERY_TOKEN_EXPIRES_AT")
    scopes ←
        parse_query_token_scopes_csv
          (env_string env (text "ANALYTICS_SERVICE_QUERY_TOKEN_SCOPES") [])
    ok (record {
      id = env_string env (text "ANALYTICS_SERVICE_QUERY_TOKEN_ID") [];
      token = primary;
      not_before = not_before;
      expires_at = expires_at;
      scopes = scopes;
      allowed_write_keys = allowed_write_keys;
    })

  -- What follows the decoding of an object.
  unfoldable pub credential_of_object : EncodedCredential → Result Error QueryTokenCredential
  credential_of_object encoded = do
    require (not (is_empty (trim_space encoded.token))) "query token entry token is required"
    not_before ← parse_optional_time env encoded.not_before
    expires_at ← parse_optional_time env encoded.expires_at
    scopes ← parse_query_token_scopes_list encoded.scopes
    ok (record {
      id = encoded.id;
      token = encoded.token;
      not_before = not_before;
      expires_at = expires_at;
      scopes = scopes;
      allowed_write_keys = normalize_names encoded.write_keys;
    })

  unfoldable pub decode_query_rotation_credential : Text → Result Error QueryTokenCredential
  decode_query_rotation_credential [] = ok zero_credential
  decode_query_rotation_credential (c ∷ item) =
      if nat_eq c b'"'
      then (do
        token ← env.unmarshal_string (c ∷ item)
        ok (record zero_credential { token = token }))
      else (do encoded ← env.unmarshal_credential (c ∷ item); credential_of_object encoded)

  -- The loop over the rotation list, from the index of the last item.
  unfoldable pub collect_rotation : ℕ → Collected → List Text → Result Error Collected
  collect_rotation rotation_index s [] = ok s
  collect_rotation rotation_index s (item ∷ rest) = do
    credential ← decode_query_rotation_credential item
    s' ← collect_credential s credential (text "rotation-" ++ itoa (rotation_index + 1))
    collect_rotation (suc rotation_index) s' rest

  unfoldable pub collect_from_env : Text → Result Error Collected
  collect_from_env primary = do
    primary_credential ← primary_query_credential_from_env primary
    s ←
        collect_credential (record { credentials = []; seen = [] }) primary_credential
          (text "current")
    let raw = trim_space (env.getenv (text "ANALYTICS_SERVICE_QUERY_TOKENS_JSON"))
    if is_empty raw
        then ok s
        else do encoded ← env.unmarshal_items raw; collect_rotation 0 s encoded

  unfoldable pub query_credentials_from_env : Text → Result Error (List QueryTokenCredential)
  query_credentials_from_env primary = do s ← collect_from_env primary; ok s.credentials

unfoldable pub query_token_values : List QueryTokenCredential → List Text
query_token_values [] = []
query_token_values (credential ∷ rest) =
    let token = trim_space credential.token in
    let values = query_token_values rest in if is_empty token then values else token ∷ values

-- ===== src/Tests/Tokens.antt =====
-- internal/collectapi/query_auth.go at concrete tokens.
use anaysitics_service.Base.{true, ◌≡◌, ◌↔◌, ◌⊎◌, inr, refl, false, All, Any, List, [], ◌∷◌, arith}
use anaysitics_service.Base.Distinct.{Fresh}
use anaysitics_service.Base.Text.{Text_eq, text, trim_space, is_empty}
use anaysitics_service.ControlPlane.Policy.{readback_route_events, readback_route_realtime}
use anaysitics_service.Tests.Runs.{request_runs}
use anaysitics_service.CollectApi.Credentials.{
  QueryCredential, QueryTokenAuthState, normalize_query_credentials, authorize_query_token,
}
use anaysitics_service.CollectApi.Credentials.{allows_write_key, normalize_query_write_keys}
use anaysitics_service.CollectApi.Credentials.WriteKeys.{allows_write_key_normalized_iff}
use anaysitics_service.CollectApi.Credentials.Normal.{token_of}
use anaysitics_service.CollectApi.Credentials.Tokens.{
  IsNormal, normalize_query_credentials_distinct, normalize_query_credentials_tokens,
}
use anaysitics_service.CollectApi.Credentials.Authorize.{
  AcceptedCredential, accepted_state, authorize_query_token_complete, authorize_query_token_sound,
}

abbrev pub dashboard : QueryCredential
dashboard = record {
  id = text " ";
  token = text " tok_1 ";
  not_before = 100;
  expires_at = 200;
  scopes = readback_route_events ∷ readback_route_realtime ∷ [];
  allowed_write_keys = text "wk_shop" ∷ text " " ∷ text " wk_shop" ∷ [];
}

abbrev pub dashboard' : QueryCredential
dashboard' = record dashboard {
  id = text "current";
  token = text "tok_1";
  allowed_write_keys = text "wk_shop" ∷ [];
}

abbrev pub old_token : QueryCredential
old_token = record {
  id = text "current";
  token = text "tok_0";
  not_before = 0;
  expires_at = 0;
  scopes = [];
  allowed_write_keys = [];
}

abbrev pub accepted : List QueryCredential
accepted = dashboard' ∷ old_token ∷ []

pub normalized :
    normalize_query_credentials (text "tok_0") (text "tok_1" ∷ text "" ∷ []) (dashboard ∷ [])
    ≡ accepted
unfolding request_runs
normalized = refl

normalize_query_credentials_distinct_example :
    Fresh token_of []
      (normalize_query_credentials (text "tok_0") (text "tok_1" ∷ []) (dashboard ∷ []))
    × All IsNormal (normalize_query_credentials (text "tok_0") (text "tok_1" ∷ []) (dashboard ∷ []))
normalize_query_credentials_distinct_example =
    normalize_query_credentials_distinct (text "tok_0") (text "tok_1" ∷ []) (dashboard ∷ [])

normalize_query_credentials_tokens_example :
    Any
      (λ c. c.token ≡ text "tok_1")
      (normalize_query_credentials (text "tok_0") (text "tok_1" ∷ []) (dashboard ∷ []))
    ↔ ((is_empty (text "tok_1") ≡ false)
        × (Any (λ c. trim_space c.token ≡ text "tok_1") (dashboard ∷ [])
            ⊎ ((trim_space (text "tok_0") ≡ text "tok_1")
                ⊎ Any (λ token. trim_space token ≡ text "tok_1") (text "tok_1" ∷ []))))
normalize_query_credentials_tokens_example =
    normalize_query_credentials_tokens (text "tok_0") (text "tok_1" ∷ []) (dashboard ∷ [])
      (text "tok_1")

accepted-Fresh : Fresh token_of [] accepted
unfolding request_runs
accepted-Fresh = (refl, (refl, tt))

accepted-IsNormal : All IsNormal accepted
unfolding request_runs
accepted-IsNormal = ((refl, refl), ((refl, refl), tt))

shown : (text "tok_1" ≡ trim_space (text " tok_1"))
unfolding request_runs
shown = refl

authorize_query_token_complete_example :
    authorize_query_token (text " tok_1") accepted 150
    ≡ record { credential = dashboard'; state = accepted_state 0 }
authorize_query_token_complete_example =
    authorize_query_token_complete (text " tok_1") accepted 150 0 dashboard' accepted-Fresh
      accepted-IsNormal refl shown (inr (omega arith), inr (omega arith))

old_is_accepted :
    (authorize_query_token (text "tok_0") accepted 500).state ≡ QueryTokenAuthState.allowed_grace
unfolding request_runs
old_is_accepted = refl

authorize_query_token_sound_example : AcceptedCredential (text "tok_0") accepted 500
authorize_query_token_sound_example =
    authorize_query_token_sound (text "tok_0") accepted 500 (inr old_is_accepted)

expires : (authorize_query_token (text "tok_1") accepted 200).state ≡ QueryTokenAuthState.expired
unfolding request_runs
expires = refl

too_early :
    (authorize_query_token (text "tok_1") accepted 99).state ≡ QueryTokenAuthState.not_yet_valid
unfolding request_runs
too_early = refl

allows_write_key_normalized_iff_example :
    (allows_write_key
        (record old_token {
          allowed_write_keys = normalize_query_write_keys (text " wk_shop" ∷ []);
        })
        (text "wk_shop")
      ≡ true)
    ↔ ((is_empty (trim_space (text "wk_shop")) ≡ true)
        ⊎ (All (λ value. is_empty (trim_space value) ≡ true) (text " wk_shop" ∷ [])
            ⊎ Any (λ value. trim_space value ≡ trim_space (text "wk_shop")) (text " wk_shop" ∷ [])))
allows_write_key_normalized_iff_example =
    allows_write_key_normalized_iff old_token (text " wk_shop" ∷ []) (text "wk_shop")

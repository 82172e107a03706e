-- ===== src/Tests/Configs.antt =====
-- internal/config/config.go at a concrete environment.
use anaysitics_service.Base.{
  ◌≡◌, refl, List, [], ◌∷◌, ◌==◌, none, some, ok, err, All, if◌then◌else◌, Yields,
}
use anaysitics_service.Base.Distinct.{Fresh}
use anaysitics_service.Base.Text.{Text, Text_eq, text}
use anaysitics_service.Base.Text.Case.{ascii_table}
use anaysitics_service.Config.{Environment, Config, QueryTokenCredential}
use anaysitics_service.Config.Credentials.{query_credentials_from_env}
use anaysitics_service.Config.Credentials.Sound.{
  IsUsable, token_of, query_credentials_from_env_sound,
}
use anaysitics_service.Config.Defaults.{read_settings}
use anaysitics_service.Config.Load.{load_from_env, with_credentials, decode_sources}
use anaysitics_service.Config.Load.Accepted.{IsAccepted, load_from_env_iff}
use anaysitics_service.ControlPlane.Validate.{library}
use anaysitics_service.Tests.Runs.{config_runs}

-- The variables that are set.
abbrev pub lookup : Text → List (Text × Text) → Text
lookup name [] = []
lookup name ((key, value) ∷ rest) = if key == name then value else lookup name rest

abbrev pub variables : List (Text × Text)
variables =
    (text "ANALYTICS_SERVICE_EVENTBUS", text " Kafka ")
    ∷ (text "ANALYTICS_SERVICE_KAFKA_BROKERS", text "k1:9092, k2:9092,k1:9092")
    ∷ (text "ANALYTICS_SERVICE_KAFKA_METRICS_ENABLED", text "YES")
    ∷ (text "ANALYTICS_SERVICE_SOURCE_RESOLVER", text "http")
    ∷ (text "ANALYTICS_SERVICE_CONTROL_PLANE_URL", text "https://saas.test/resolve")
    ∷ (text "ANALYTICS_SERVICE_CONTROL_PLANE_TOKEN", text "secret")
    ∷ (text "ANALYTICS_SERVICE_QUERY_TOKEN", text " tok_1 ")
    ∷ (text "ANALYTICS_SERVICE_QUERY_TOKEN_SCOPES", text "events, Realtime,events")
    ∷ (text "ANALYTICS_SERVICE_QUERY_TOKENS_JSON", text "[old]")
    ∷ []

-- A list of the rotation tokens, where the first repeats the primary one.
abbrev pub env : Environment
env = record {
  getenv = λ name. lookup name variables;
  hostname = some (text "Node 7");
  parse_duration = λ s. none;
  parse_time = λ s. ok 5;
  unmarshal_items = λ s. ok (text "\"tok_1\"" ∷ text "\"tok_0\"" ∷ []);
  unmarshal_string = λ s. ok (if s == text "\"tok_1\"" then text "tok_1" else text "tok_0");
  unmarshal_credential = λ s. err (library 1);
  unmarshal_sources = λ s. ok [];
}

abbrev pub credentials : List QueryTokenCredential
credentials =
    (record {
      id = text "current";
      token = text "tok_1";
      not_before = 0;
      expires_at = 0;
      scopes = text "events" ∷ text "realtime" ∷ [];
      allowed_write_keys = [];
    })
    ∷ (record {
      id = text "rotation-2";
      token = text "tok_0";
      not_before = 0;
      expires_at = 0;
      scopes = [];
      allowed_write_keys = [];
    })
    ∷ []

pub found_credentials : query_credentials_from_env env (text "tok_1") ≡ ok credentials
unfolding config_runs
found_credentials = refl

abbrev pub config : Config
config = with_credentials (read_settings env) credentials

pub loads : load_from_env env ≡ ok config
unfolding config_runs
loads = refl

brokers : config.kafka_brokers ≡ text "k1:9092" ∷ text "k2:9092" ∷ []
unfolding config_runs
brokers = refl

load_from_env_iff_example :
    (credentials : List QueryTokenCredential) × (query_credentials_from_env env
        (read_settings env).query_token
      ≡ ok credentials)
    × (decode_sources env (with_credentials (read_settings env) credentials) ≡ ok config)
    × IsAccepted config
load_from_env_iff_example = (load_from_env_iff env config).0 loads

query_credentials_from_env_sound_example :
    Yields
      (λ credentials. All IsUsable credentials × Fresh token_of [] credentials)
      (query_credentials_from_env env (text "tok_1"))
query_credentials_from_env_sound_example = query_credentials_from_env_sound env (text "tok_1")

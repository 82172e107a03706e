-- ===== src/CollectApi/Static.antt =====
-- internal/collectapi/handler.go: the application around the handler, and its static answers.
use anaysitics_service.Base.{Bool, not, List, [], ◌∷◌, Result, ok, err, ◌>>=◌, if◌then◌else◌, ℕ}
use anaysitics_service.Base.Text.{Text, text, is_empty, trim_space}
use anaysitics_service.CollectApi.App.{
  Options, OptionsError, Named, Target, new_handler, register_routes,
}
use anaysitics_service.CollectApi.Handler.{ErrorReply, reply}

-- cors.Config
pub record CorsConfig : Type 0 where
  pub allow_origins_func : Text → Bool
  pub allow_methods : List Text
  pub allow_headers : List Text
  pub max_age : ℕ

-- What a fiber.App is made of: the reply to an error that a handler returned, CORS, and the routes.
pub record App (W Bus : Type 0) : Type 0 where
  pub opts : Options W Bus
  pub error_handler : ErrorReply
  pub cors : CorsConfig
  pub routes : List (Text × Target)

abbrev pub cors_config : CorsConfig
cors_config = record {
  allow_origins_func = λ origin. not (is_empty (trim_space origin));
  allow_methods = text "GET" ∷ text "POST" ∷ text "OPTIONS" ∷ [];
  allow_headers = text "Content-Type" ∷ text "Authorization" ∷ text "X-SimpleTrack-Write-Key" ∷ [];
  max_age = 600;
}

-- NewApp
unfoldable pub new_app :
    {W Bus : Type 0} → (List Named → List Named) → Options W Bus → Result OptionsError (App W Bus)
new_app order opts = do
  opts' ← new_handler order opts
  ok (record {
    opts = opts';
    error_handler = reply 500 (text "internal server error");
    cors = cors_config;
    routes = register_routes opts';
  })

-- A response with a body that is not JSON.
pub record ScriptResponse : Type 0 where
  pub content_type : Text
  pub cache_control : Text
  pub body : Text

-- Handler.handleHealth, by the entries of its object.
abbrev pub handle_health : List (Text × Text)
handle_health = (text "status", text "ok") ∷ []

-- Handler.writeTracker
unfoldable pub write_tracker : {W Bus : Type 0} → Options W Bus → Result ErrorReply ScriptResponse
write_tracker opts =
    if is_empty opts.tracker_script
    then err (reply 404 (text "tracker script is not configured"))
    else ok (record {
      content_type = text "application/javascript; charset=utf-8";
      cache_control = text "public, max-age=300";
      body = opts.tracker_script;
    })

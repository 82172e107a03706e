-- ===== src/Runtime/Credentials.antt =====
-- internal/runtime/runtime.go: the credentials that are handed to the HTTP handler.
pub mod Accepted
pub mod Kept
use anaysitics_service.Base.{List, [], ◌∷◌}
use anaysitics_service.CollectApi.Credentials.{QueryCredential}
use anaysitics_service.Config.{QueryTokenCredential}

-- One round of the loop; the slices are copied.
abbrev pub to_query_credential : QueryTokenCredential → QueryCredential
to_query_credential c = record {
  id = c.id;
  token = c.token;
  not_before = c.not_before;
  expires_at = c.expires_at;
  scopes = c.scopes;
  allowed_write_keys = c.allowed_write_keys;
}

-- toQueryCredentials; a nil slice and an empty one are both the empty list.
unfoldable pub to_query_credentials : List QueryTokenCredential → List QueryCredential
to_query_credentials [] = []
to_query_credentials (c ∷ rest) = to_query_credential c ∷ to_query_credentials rest

-- ===== src/Runtime/Credentials/Kept.antt =====
-- internal/runtime/runtime.go: a credential of the HTTP layer that stands for one of the configuration.
use anaysitics_service.Base.{◌≡◌, refl, List, [], ◌∷◌}
use anaysitics_service.CollectApi.Credentials.{QueryCredential}
use anaysitics_service.Config.{QueryTokenCredential}
use anaysitics_service.Runtime.Credentials.{to_query_credentials}

-- The same id, token, window, scopes and write keys.
pub record Keeps (c : QueryTokenCredential) (q : QueryCredential) : Type 0 where
  pub id : q.id ≡ c.id
  pub token : q.token ≡ c.token
  pub not_before : q.not_before ≡ c.not_before
  pub expires_at : q.expires_at ≡ c.expires_at
  pub scopes : q.scopes ≡ c.scopes
  pub allowed_write_keys : q.allowed_write_keys ≡ c.allowed_write_keys

-- The same credentials, in the same order.
abbrev pub AreKept : List QueryTokenCredential → List QueryCredential → Type 0
AreKept [] [] = Unit {0}
AreKept [] (q ∷ qs) = ⊥
AreKept (c ∷ cs) [] = ⊥
AreKept (c ∷ cs) (q ∷ qs) = Keeps c q × AreKept cs qs

pub to_query_credentials-AreKept :
    (cs : List QueryTokenCredential) → AreKept cs (to_query_credentials cs)
unfolding to_query_credentials
to_query_credentials-AreKept [] = tt
to_query_credentials-AreKept (c ∷ cs) = (
  record {
    id = refl;
    token = refl;
    not_before = refl;
    expires_at = refl;
    scopes = refl;
    allowed_write_keys = refl;
  },
  to_query_credentials-AreKept cs,
)

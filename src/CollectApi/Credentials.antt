-- ===== src/CollectApi/Credentials.antt =====
-- internal/collectapi/query_auth.go: the bearer tokens of the internal readback routes.
pub mod Normal
pub mod Tokens
pub mod WriteKeys
pub mod Authorize
use anaysitics_service.Base.{
  ℕ, zero, suc, ◌+◌, ◌<◌, Bool, true, false, not, ◌&&◌, ◌||◌, ltb, nat_eq, ◌==◌, contains, List, [],
  ◌∷◌, ◌++◌, Option, none, some, if◌then◌else◌,
}
use anaysitics_service.Base.Distinct.{distinct}
use anaysitics_service.Base.Text.{Text, Text_eq, text, is_empty, trim_space}
use anaysitics_service.Base.Text.Decimal.{itoa}
use anaysitics_service.ControlPlane.Source.{trimmed}
use anaysitics_service.ControlPlane.Policy.{ReadbackRoute}

-- A time.Time is the number of nanoseconds since the zero time, which IsZero tells from the others.
pub record QueryCredential : Type 0 where
  pub id : Text
  pub token : Text
  pub not_before : ℕ
  pub expires_at : ℕ
  pub scopes : List ReadbackRoute
  pub allowed_write_keys : List Text

-- QueryCredential{}
abbrev pub zero_credential : QueryCredential
zero_credential = record {
  id = [];
  token = [];
  not_before = 0;
  expires_at = 0;
  scopes = [];
  allowed_write_keys = [];
}

pub data QueryTokenAuthState : Type 0 where
  unknown allowed allowed_grace expired not_yet_valid scope_denied write_key_denied :
      QueryTokenAuthState

pub record QueryTokenAuthDecision : Type 0 where
  pub credential : QueryCredential
  pub state : QueryTokenAuthState

-- normalizeQueryWriteKeys; a nil slice and an empty one are both the empty list.
unfoldable pub normalize_query_write_keys : List Text → List Text
normalize_query_write_keys write_keys = distinct trimmed (λ key. key) [] write_keys

-- The slice and the set that the closure appendCredential writes.
pub record Appended : Type 0 where
  pub normalized : List QueryCredential
  pub seen : List Text

unfoldable pub or_fallback : Text → Text → Text
or_fallback id fallback_id = if is_empty id then fallback_id else id

unfoldable pub append_credential : Appended → QueryCredential → Text → Appended
append_credential s credential fallback_id =
    let token = trim_space credential.token in
    if is_empty token then s else if contains s.seen token then s else record {
      normalized =
          s.normalized
          ++ (record credential {
            token = token;
            id = or_fallback (trim_space credential.id) fallback_id;
            allowed_write_keys = normalize_query_write_keys credential.allowed_write_keys;
          }
              ∷ []);
      seen = token ∷ s.seen;
    }

unfoldable pub rotation_id : ℕ → Text
rotation_id idx = text "rotation-" ++ itoa idx

unfoldable pub explicit_id : ℕ → Text
explicit_id idx = if nat_eq idx 0 then text "current" else rotation_id idx

unfoldable pub append_explicit : ℕ → Appended → List QueryCredential → Appended
append_explicit idx s [] = s
append_explicit idx s (credential ∷ rest) =
    append_explicit (suc idx) (append_credential s credential (explicit_id idx)) rest

unfoldable pub append_legacy : ℕ → Appended → List Text → Appended
append_legacy idx s [] = s
append_legacy idx s (token ∷ rest) =
    append_legacy (suc idx)
      (append_credential s (record zero_credential { token = token }) (rotation_id (idx + 1))) rest

-- normalizeQueryCredentials
unfoldable pub normalize_query_credentials :
    Text → List Text → List QueryCredential → List QueryCredential
normalize_query_credentials primary legacy explicit =
    let s = append_explicit 0 (record { normalized = []; seen = [] }) explicit in
    let current : QueryCredential = record zero_credential {
      id = text "current";
      token = primary;
    } in
    let s' = append_credential s current (text "current") in (append_legacy 0 s' legacy).normalized

-- The loop that compares every credential and keeps the last match, with its index.
unfoldable pub last_match :
    Text → ℕ → Option (ℕ × QueryCredential) → List QueryCredential → Option (ℕ × QueryCredential)
last_match value idx matched [] = matched
last_match value idx matched (credential ∷ rest) =
    last_match value (suc idx)
      (if value == credential.token then some (idx, credential) else matched) rest

-- What follows the loop.
unfoldable pub decide_match : Option (ℕ × QueryCredential) → ℕ → QueryTokenAuthDecision
decide_match none now = record { credential = zero_credential; state = unknown }
decide_match (some (matched, credential)) now =
    if not (nat_eq credential.not_before 0) && ltb now credential.not_before
    then record { credential = credential; state = not_yet_valid }
    else if not (nat_eq credential.expires_at 0) && not (ltb now credential.expires_at)
    then record { credential = credential; state = expired }
    else if ltb 0 matched
    then record { credential = credential; state = allowed_grace }
    else record { credential = credential; state = allowed }

-- authorizeQueryToken
unfoldable pub authorize_query_token : Text → List QueryCredential → ℕ → QueryTokenAuthDecision
authorize_query_token value accepted now =
    let value' = trim_space value in
    if is_empty value'
    then record { credential = zero_credential; state = unknown }
    else decide_match (last_match value' 0 none accepted) now

-- `len(xs) == 0`
abbrev pub no_entries : List Text → Bool
no_entries [] = true
no_entries (x ∷ xs) = false

-- QueryCredential.AllowsReadbackRoute
unfoldable pub allows_readback_route : QueryCredential → ReadbackRoute → Bool
allows_readback_route c route = if no_entries c.scopes then true else contains c.scopes route

-- QueryCredential.AllowsWriteKey
unfoldable pub allows_write_key : QueryCredential → Text → Bool
allows_write_key c write_key =
    let write_key' = trim_space write_key in
    if is_empty write_key' || no_entries c.allowed_write_keys
    then true
    else contains c.allowed_write_keys write_key'

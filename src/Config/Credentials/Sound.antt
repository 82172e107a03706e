-- ===== src/Config/Credentials/Sound.antt =====
-- internal/config/config.go: the credentials that LoadFromEnv accepts.
use anaysitics_service.Base.{
  ℕ, suc, ◌+◌, ◌≡◌, refl, ap, sym, ◌∙◌, inl, inr, true, false, contains, List, [], ◌∷◌, ◌++◌,
  Result, ok, err, Bool-cases, All, arith, not, nat_eq, Yields, Yields-ok, Yields-err, Yields-if,
  Yields-bind,
}
use anaysitics_service.Base.Distinct.{Fresh}
use anaysitics_service.Base.Distinct.Append.{seen_after, seen_after-append, Fresh-append}
use anaysitics_service.Base.Text.{is_space, Text, Text_eq, text, is_empty, trim_space, CaseTable}
use anaysitics_service.Base.Text.Trim.{trim_space_idem, IsSolid, IsSolid-append, trim_space_solid}
use anaysitics_service.Base.Text.Decimal.{itoa, itoa-IsSolid}
use anaysitics_service.Config.{Environment, EncodedCredential, QueryTokenCredential}
use anaysitics_service.Config.Env.{env_string, env_optional_time, parse_optional_time}
use anaysitics_service.Config.Names.{normalize_names}
use anaysitics_service.Config.Names.Laws.{normalize_none, normalize_names_idem, parse_csv_stable}
use anaysitics_service.Config.Credentials.{
  zero_credential, is_backwards, Collected, or_default_id, collect_credential,
  primary_query_credential_from_env, credential_of_object, decode_query_rotation_credential,
  collect_rotation, collect_from_env, query_credentials_from_env, parse_query_token_scopes_csv,
  parse_query_token_scopes_list,
}
use anaysitics_service.Config.Credentials.Scopes.{
  AreScopes, parse_query_token_scopes_list_sound, parse_query_token_scopes_csv_sound,
}
use anaysitics_service.ControlPlane.Validate.{Error, require}

abbrev pub token_of : QueryTokenCredential → Text
token_of c = c.token

-- What a decoded credential has.
abbrev pub HasLimits : QueryTokenCredential → Type 0
HasLimits c = AreScopes c.scopes × (normalize_names c.allowed_write_keys ≡ c.allowed_write_keys)

-- What an accepted credential has.
pub record IsUsable (c : QueryTokenCredential) : Type 0 where
  pub limits : HasLimits c
  pub token_set : is_empty c.token ≡ false
  pub token_trimmed : trim_space c.token ≡ c.token
  pub id_set : is_empty c.id ≡ false
  pub id_trimmed : trim_space c.id ≡ c.id
  pub window : is_backwards c ≡ false

pub record AreUsable (s : Collected) : Type 0 where
  pub all : All IsUsable s.credentials
  pub fresh : Fresh token_of [] s.credentials
  pub tokens : s.seen ≡ seen_after token_of [] s.credentials

-- An id that is not blank is a fallback.
abbrev pub IsId : Text → Type 0
IsId id = (is_empty id ≡ false) × (trim_space id ≡ id)

or_default_id-IsId :
    (id default_id : Text) → IsId default_id → IsId (or_default_id (trim_space id) default_id)
unfolding or_default_id
or_default_id-IsId id default_id h = elim (Bool-cases (is_empty (trim_space id))) [
  | inl blank ↦ rw blank h
  | inr set ↦ rw set (set, trim_space_idem id)
]

require_sound : (b : _) (m : _) → Yields (λ _. b ≡ true) (require b m)
require_sound true m = Yields-ok _ refl
require_sound false m = Yields-err _

All-append :
    (xs : List QueryTokenCredential) (x : QueryTokenCredential)
    → All IsUsable xs
    → IsUsable x
    → All IsUsable (xs ++ (x ∷ []))
All-append [] x h p = (p, tt)
All-append (y ∷ xs) x h p = (h.0, All-append xs x h.1 p)

add-AreUsable :
    (s : Collected) (c : QueryTokenCredential)
    → AreUsable s
    → IsUsable c
    → contains s.seen c.token ≡ false
    → AreUsable (record { credentials = s.credentials ++ (c ∷ []); seen = c.token ∷ s.seen })
add-AreUsable s c h u new = record {
  all = All-append s.credentials c h.all u;
  fresh = Fresh-append token_of [] s.credentials (c ∷ []) h.fresh (rw (sym h.tokens) (new, tt));
  tokens =
      ap (λ seen. c.token ∷ seen) h.tokens
      ∙ sym (seen_after-append token_of [] s.credentials (c ∷ []));
}

forwards :
    (c : QueryTokenCredential) (t i : Text)
    → not (is_backwards c) ≡ true
    → is_backwards (record c { token = t; id = i }) ≡ false
unfolding is_backwards
forwards c t i h = ground arith

collect_credential_sound :
    (s : Collected) (c : QueryTokenCredential) (default_id : Text)
    → AreUsable s
    → HasLimits c
    → IsId default_id
    → Yields AreUsable (collect_credential s c default_id)
unfolding collect_credential
collect_credential_sound s c default_id h limits id =
    let token = trim_space c.token in
    let c' : QueryTokenCredential = record c {
      token = token;
      id = or_default_id (trim_space c.id) default_id;
    } in
    Yields-if (is_empty token) (λ blank. Yields-ok s h)
      (λ set. Yields-bind (require (not (is_backwards c)) _) _ (require_sound _ _) (λ _ ordered.
        Yields-if (contains s.seen token) (λ old. Yields-ok s h)
          (λ new. Yields-ok _ (add-AreUsable s c' h (usable set ordered) new))))
  where
    usable :
        is_empty (trim_space c.token) ≡ false
        → not (is_backwards c) ≡ true
        → IsUsable (record c {
          token = trim_space c.token;
          id = or_default_id (trim_space c.id) default_id;
        })
    usable set ordered = record {
      limits = limits;
      token_set = set;
      token_trimmed = trim_space_idem c.token;
      id_set = (or_default_id-IsId c.id default_id id).0;
      id_trimmed = (or_default_id-IsId c.id default_id id).1;
      window = forwards c _ _ ordered;
    }

current_id : IsId (text "current")
unfolding text trim_space
current_id = (refl, refl)

prefix-IsSolid : IsSolid (text "rotation-") × (is_empty (text "rotation-") ≡ false)
unfolding text is_space
prefix-IsSolid = ((refl, (refl, (refl, (refl, (refl, (refl, (refl, (refl, (refl, tt))))))))), refl)

append_set : (s t : Text) → is_empty s ≡ false → is_empty (s ++ t) ≡ false
append_set [] t h = absurd (cc)
append_set (c ∷ s) t h = refl

rotation_id : (n : ℕ) → IsId (text "rotation-" ++ itoa n)
rotation_id n = (
  append_set _ (itoa n) prefix-IsSolid.1,
  trim_space_solid _ (IsSolid-append _ (itoa n) prefix-IsSolid.0 (itoa-IsSolid n)),
)

-- What a library returns.
pub anything : {A : Type 0} (r : Result Error A) → Yields (λ _. Unit {0}) r
anything (ok a) = Yields-ok a tt
anything (err e) = Yields-err e

bare_limits : (token : Text) → HasLimits (record zero_credential { token = token })
bare_limits token = ((tt, tt), normalize_none)

module _ ⦃cases : CaseTable⦄ (env : Environment) where
  pub primary_sound :
      (primary : Text)
      → Yields
          (λ c. HasLimits c × (c.token ≡ primary))
          (primary_query_credential_from_env env primary)
  unfolding primary_query_credential_from_env
  primary_sound primary =
      let not_before = env_optional_time env (text "ANALYTICS_SERVICE_QUERY_TOKEN_NOT_BEFORE") in
      let expires_at = env_optional_time env (text "ANALYTICS_SERVICE_QUERY_TOKEN_EXPIRES_AT") in
      let scopes = env_string env (text "ANALYTICS_SERVICE_QUERY_TOKEN_SCOPES") [] in
      Yields-bind not_before _ (anything not_before) (λ _ _.
        Yields-bind expires_at _ (anything expires_at) (λ _ _.
          Yields-bind (parse_query_token_scopes_csv scopes) _
            (parse_query_token_scopes_csv_sound scopes)
            (λ _ known. Yields-ok _ ((known, parse_csv_stable _), refl))))

  credential_of_object_sound :
      (encoded : EncodedCredential) → Yields HasLimits (credential_of_object env encoded)
  unfolding credential_of_object
  credential_of_object_sound encoded =
      let not_before = parse_optional_time env encoded.not_before in
      let expires_at = parse_optional_time env encoded.expires_at in
      Yields-bind (require (not (is_empty (trim_space encoded.token))) _) _ (anything _) (λ _ _.
        Yields-bind not_before _ (anything not_before) (λ _ _.
          Yields-bind expires_at _ (anything expires_at) (λ _ _.
            Yields-bind (parse_query_token_scopes_list encoded.scopes) _
              (parse_query_token_scopes_list_sound encoded.scopes)
              (λ _ known. Yields-ok _ (known, normalize_names_idem encoded.write_keys)))))

  decode_sound : (item : Text) → Yields HasLimits (decode_query_rotation_credential env item)
  unfolding decode_query_rotation_credential
  decode_sound [] = Yields-ok _ (bare_limits [])
  decode_sound (c ∷ item) =
      let token = env.unmarshal_string (c ∷ item) in
      let encoded = env.unmarshal_credential (c ∷ item) in
      Yields-if (nat_eq c b'"')
        (λ _. Yields-bind token _ (anything token) (λ t _. Yields-ok _ (bare_limits t)))
        (λ _. Yields-bind encoded _ (anything encoded) (λ e _. credential_of_object_sound e))

  collect_rotation_sound :
      (n : ℕ) (s : Collected) (items : List Text)
      → AreUsable s
      → Yields AreUsable (collect_rotation env n s items)
  unfolding collect_rotation
  collect_rotation_sound n s [] h = Yields-ok s h
  collect_rotation_sound n s (item ∷ rest) h =
      Yields-bind (decode_query_rotation_credential env item) _ (decode_sound item) (λ c limits.
        Yields-bind (collect_credential s c (text "rotation-" ++ itoa (n + 1))) _
          (collect_credential_sound s c _ h limits (rotation_id (n + 1)))
          (λ s' h'. collect_rotation_sound (suc n) s' rest h'))

  pub collect_from_env_sound : (primary : Text) → Yields AreUsable (collect_from_env env primary)
  unfolding collect_from_env
  collect_from_env_sound primary =
      let empty : Collected = record { credentials = []; seen = [] } in
      let raw = trim_space (env.getenv (text "ANALYTICS_SERVICE_QUERY_TOKENS_JSON")) in
      let items = env.unmarshal_items raw in
      Yields-bind (primary_query_credential_from_env env primary) _ (primary_sound primary)
        (λ c limits.
          Yields-bind (collect_credential empty c (text "current")) _
            (collect_credential_sound empty c _ nothing limits.0 current_id)
            (λ s h.
              Yields-if (is_empty raw) (λ _. Yields-ok s h)
                (λ _.
                  Yields-bind items _ (anything items) (λ xs _. collect_rotation_sound 0 s xs h))))
    where
      nothing : AreUsable (record { credentials = []; seen = [] })
      nothing = record { all = tt; fresh = tt; tokens = refl }

  -- The credentials of an accepted environment have trimmed tokens that are not blank and all differ,
  -- trimmed ids that are not blank, known scopes without repetition, trimmed write keys without
  -- repetition, and no window that ends before it begins.
  pub query_credentials_from_env_sound :
      (primary : Text)
      → Yields
          (λ credentials. All IsUsable credentials × Fresh token_of [] credentials)
          (query_credentials_from_env env primary)
  unfolding query_credentials_from_env
  query_credentials_from_env_sound primary =
      Yields-bind (collect_from_env env primary) _ (collect_from_env_sound primary)
        (λ s h. Yields-ok _ (h.all, h.fresh))

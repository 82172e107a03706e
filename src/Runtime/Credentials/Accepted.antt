-- ===== src/Runtime/Credentials/Accepted.antt =====
-- internal/runtime/runtime.go, internal/config/config.go, internal/collectapi/query_auth.go: the
-- credentials on their way from the environment to the routes.
use anaysitics_service.Base.{
  ℕ, suc, ◌≡◌, refl, sym, ap, ◌∙◌, true, false, contains, List, [], ◌∷◌, append-nil, some, Result,
  ok, >>=-iff, subst, Bool-cases, inl, inr, All, ==_refl,
}
use anaysitics_service.Base.Distinct.{distinct, Fresh}
use anaysitics_service.Base.Distinct.Append.{
  seen_after, distinct-append, distinct_nothing_new, contains-seen_after,
}
use anaysitics_service.Base.Text.{Text, Text_eq, is_empty, trim_space, CaseTable}
use anaysitics_service.CollectApi.Credentials.{
  QueryCredential, normalize_query_credentials, normalize_query_write_keys, or_fallback,
}
use anaysitics_service.CollectApi.Credentials.Normal as Normal
use anaysitics_service.ControlPlane.Validate.{Error}
use anaysitics_service.Config.{Environment, QueryTokenCredential}
use anaysitics_service.Config.Names.{normalize_names}
use anaysitics_service.Config.Credentials.{
  Collected, query_token_values, query_credentials_from_env, collect_from_env,
}
use anaysitics_service.Config.Credentials.Sound.{
  IsUsable, token_of, AreUsable, collect_from_env_sound,
}
use anaysitics_service.Config.Credentials.Primary.{collect_from_env_has}
use anaysitics_service.Runtime.Credentials.{to_query_credential, to_query_credentials}
use anaysitics_service.Runtime.Credentials.Kept.{AreKept, to_query_credentials-AreKept}

-- An accepted credential is in its normal form already.
normal_form-usable :
    (c : QueryTokenCredential) (fallback_id : Text)
    → IsUsable c
    → Normal.normal_form (to_query_credential c, fallback_id) ≡ some (to_query_credential c)
unfolding Normal.normal_form or_fallback normalize_query_write_keys normalize_names
normal_form-usable c fallback_id u =
    rw (u.token_trimmed, u.token_set, u.id_trimmed, u.id_set, u.limits.1) refl

-- The keys after the credentials, under either name of a credential.
seen_after-to_query :
    (seen : List Text) (cs : List QueryTokenCredential)
    → seen_after Normal.token_of seen (to_query_credentials cs) ≡ seen_after token_of seen cs
unfolding to_query_credentials
seen_after-to_query seen [] = refl
seen_after-to_query seen (c ∷ cs) = seen_after-to_query (c.token ∷ seen) cs

distinct-usable :
    (idx : ℕ) (seen : List Text) (cs : List QueryTokenCredential)
    → All IsUsable cs
    → Fresh token_of seen cs
    → distinct Normal.normal_form Normal.token_of seen
        (Normal.explicit_offers idx (to_query_credentials cs))
      ≡ to_query_credentials cs
unfolding distinct to_query_credentials
distinct-usable idx seen [] u f = refl
distinct-usable idx seen (c ∷ cs) u f =
    rw (normal_form-usable c _ u.0, distinct)
      (rw f.0
        (ap (◌∷◌ (to_query_credential c)) (distinct-usable (suc idx) (c.token ∷ seen) cs u.1 f.1)))

some_eq : {A : Type 0} {x y : A} → some x ≡ some y → x ≡ y
some_eq e = cc

ok_eq :
    {x y : List QueryTokenCredential}
    → ◌≡◌ {A = Result Error (List QueryTokenCredential)} (ok x) (ok y)
    → x ≡ y
ok_eq e = cc

-- What an offer adds has the trimmed token.
IsOld : List Text → Normal.Offered → Type 0
IsOld seen offer =
    (b : QueryCredential)
    → Normal.normal_form offer ≡ some b
    → contains seen (Normal.token_of b) ≡ true

offer-IsOld :
    (seen : List Text) (offer : Normal.Offered)
    → (is_empty (trim_space offer.0.token) ≡ false
        → contains seen (trim_space offer.0.token) ≡ true)
    → IsOld seen offer
unfolding IsOld Normal.normal_form
offer-IsOld seen offer h = elim (Bool-cases (is_empty (trim_space offer.0.token))) [
  | inl blank ↦ rw blank (λ b e. absurd (cc))
  | inr set ↦
      rw set (λ b e. subst (λ c. contains seen (Normal.token_of c) ≡ true) (some_eq e) (h set))
]

legacy-IsOld :
    (seen : List Text) (idx : ℕ) (tokens : List Text)
    → All (λ token. contains seen (trim_space token) ≡ true) tokens
    → All (IsOld seen) (Normal.legacy_offers idx tokens)
legacy-IsOld seen idx [] h = tt
legacy-IsOld seen idx (token ∷ rest) h =
    (offer-IsOld seen _ (λ _. h.0), legacy-IsOld seen (suc idx) rest h.1)

tokens-seen :
    (seen : List Text) (cs : List QueryTokenCredential)
    → All IsUsable cs
    → All
        (λ token. contains (seen_after token_of seen cs) (trim_space token) ≡ true)
        (query_token_values cs)
unfolding query_token_values contains
tokens-seen seen [] u = tt
tokens-seen seen (c ∷ cs) u =
    rw (u.0.token_trimmed, u.0.token_set)
      (
        rw u.0.token_trimmed
            (contains-seen_after token_of c.token (c.token ∷ seen) cs (rw (==_refl c.token) refl)),
        tokens-seen (c.token ∷ seen) cs u.1,
      )

usable_stable :
    (primary : Text) (s : Collected)
    → AreUsable s
    → (is_empty (trim_space primary) ≡ false → contains s.seen (trim_space primary) ≡ true)
    → normalize_query_credentials primary
        (query_token_values s.credentials)
        (to_query_credentials s.credentials)
      ≡ to_query_credentials s.credentials
unfolding IsOld
usable_stable primary s h given =
    let cs = to_query_credentials s.credentials in
    let values = query_token_values s.credentials in
    let seen = seen_after token_of [] s.credentials in
    let rest = Normal.current_offer primary ∷ Normal.legacy_offers 0 values in
    let old : All (IsOld seen) rest = (
      offer-IsOld seen (Normal.current_offer primary) (
          subst
            (λ seen.
              is_empty (trim_space primary) ≡ false → contains seen (trim_space primary) ≡ true)
            h.tokens given),
      legacy-IsOld seen 0 values (tokens-seen [] s.credentials h.all),
    ) in
    Normal.normalize-distinct primary values cs
    ∙ distinct-append Normal.normal_form Normal.token_of [] (Normal.explicit_offers 0 cs) rest
    ∙ rw
        (
          distinct-usable 0 [] s.credentials h.all h.fresh,
          seen_after-to_query [] s.credentials,
          distinct_nothing_new Normal.normal_form Normal.token_of seen rest old,
        )
        (append-nil cs)

-- Normalising what was loaded again, with the primary token and the list of all tokens that the handler
-- is given besides, changes nothing.
pub normalize-to_query_credentials :
    ⦃cases : CaseTable⦄ (env : Environment) (primary : Text) (cs : List QueryTokenCredential)
    → query_credentials_from_env env primary ≡ ok cs
    → normalize_query_credentials primary (query_token_values cs) (to_query_credentials cs)
      ≡ to_query_credentials cs
unfolding query_credentials_from_env
normalize-to_query_credentials env primary cs h =
    let (s, e, same) = (>>=-iff (collect_from_env env primary) (λ s. ok s.credentials) cs).0 h in
    subst
      (λ cs.
        normalize_query_credentials primary (query_token_values cs) (to_query_credentials cs)
        ≡ to_query_credentials cs)
      (ok_eq same)
      (usable_stable primary s ((collect_from_env_sound env primary).holds s e)
        (λ set. (collect_from_env_has env (trim_space primary) primary set refl).holds s e))

-- The credentials that the HTTP handler accepts are exactly those that were loaded from the environment,
-- in their order, each with the same id, token, window, scopes and write keys: the primary token and the
-- list of all tokens, which the handler is given besides, add none and drop none.
pub normalize-AreKept :
    ⦃cases : CaseTable⦄ (env : Environment) (primary : Text) (cs : List QueryTokenCredential)
    → query_credentials_from_env env primary ≡ ok cs
    → AreKept cs
        (normalize_query_credentials primary (query_token_values cs) (to_query_credentials cs))
normalize-AreKept env primary cs h =
    subst (AreKept cs) (sym (normalize-to_query_credentials env primary cs h))
      (to_query_credentials-AreKept cs)

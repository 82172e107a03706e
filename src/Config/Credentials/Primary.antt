-- ===== src/Config/Credentials/Primary.antt =====
-- internal/config/config.go: the token of ANALYTICS_SERVICE_QUERY_TOKEN is among the credentials.
use anaysitics_service.Base.{
  suc, ◌+◌, ◌≡◌, refl, ◌⊎◌, inl, inr, true, false, not, contains, List, [], ◌∷◌, ◌++◌, ==_refl,
  arith, Yields, Yields-ok, Yields-bind, Yields-if,
}
use anaysitics_service.Base.Text.{Text, Text_eq, text, is_empty, trim_space, CaseTable}
use anaysitics_service.Base.Text.Decimal.{itoa}
use anaysitics_service.Config.{Environment, QueryTokenCredential}
use anaysitics_service.Config.Credentials.{
  is_backwards, Collected, collect_credential, primary_query_credential_from_env,
  decode_query_rotation_credential, collect_rotation, collect_from_env,
}
use anaysitics_service.Config.Credentials.Sound.{anything, primary_sound}
use anaysitics_service.ControlPlane.Validate.{require}

-- A token that was there, or that is not blank and has just been offered.
abbrev Offered : Text → Collected → QueryTokenCredential → Type 0
Offered k s c = (contains s.seen k ≡ true) ⊎ ((is_empty k ≡ false) × (trim_space c.token ≡ k))

contains_offered :
    (k : Text) (seen : List Text) (token : Text)
    → (contains seen k ≡ true) ⊎ ((is_empty k ≡ false) × (token ≡ k))
    → contains (token ∷ seen) k ≡ true
unfolding contains
contains_offered k seen token (inl old) = ground arith
contains_offered k seen token (inr (set, same)) = rw (same, ==_refl k) refl

collect_credential_has :
    (k : Text) (s : Collected) (c : QueryTokenCredential) (default_id : Text)
    → Offered k s c
    → Yields (λ s'. contains s'.seen k ≡ true) (collect_credential s c default_id)
unfolding collect_credential
collect_credential_has k s c default_id offered =
    let token = trim_space c.token in
    Yields-if (is_empty token) (λ blank. Yields-ok s (old_if_blank blank offered))
      (λ set. Yields-bind (require (not (is_backwards c)) _) _ (anything _) (λ _ _.
        Yields-if (contains s.seen token) (λ old. Yields-ok s (old_if_seen old offered))
          (λ new. Yields-ok _ (added offered))))
  where
    old_if_blank : is_empty (trim_space c.token) ≡ true → Offered k s c → contains s.seen k ≡ true
    old_if_blank blank (inl old) = old
    old_if_blank blank (inr (set, same)) = absurd (cc)

    old_if_seen :
        contains s.seen (trim_space c.token) ≡ true → Offered k s c → contains s.seen k ≡ true
    old_if_seen old (inl seen) = seen
    old_if_seen old (inr (set, same)) = cc

    added : Offered k s c → contains (trim_space c.token ∷ s.seen) k ≡ true
    added = contains_offered k s.seen (trim_space c.token)

module _ ⦃cases : CaseTable⦄ (env : Environment) (k : Text) where
  collect_rotation_keeps :
      (n : _) (s : Collected) (items : List Text)
      → contains s.seen k ≡ true
      → Yields (λ s'. contains s'.seen k ≡ true) (collect_rotation env n s items)
  unfolding collect_rotation
  collect_rotation_keeps n s [] h = Yields-ok s h
  collect_rotation_keeps n s (item ∷ rest) h =
      Yields-bind (decode_query_rotation_credential env item) _ (anything _) (λ c _.
        Yields-bind (collect_credential s c (text "rotation-" ++ itoa (n + 1))) _
          (collect_credential_has k s c _ (inl h))
          (λ s' h'. collect_rotation_keeps (suc n) s' rest h'))

  pub collect_from_env_has :
      (primary : Text)
      → is_empty k ≡ false
      → trim_space primary ≡ k
      → Yields (λ s. contains s.seen k ≡ true) (collect_from_env env primary)
  unfolding collect_from_env
  collect_from_env_has primary set same =
      let empty : Collected = record { credentials = []; seen = [] } in
      let raw = trim_space (env.getenv (text "ANALYTICS_SERVICE_QUERY_TOKENS_JSON")) in
      let items = env.unmarshal_items raw in
      Yields-bind (primary_query_credential_from_env env primary) _ (primary_sound env primary)
        (λ c given.
          Yields-bind (collect_credential empty c (text "current")) _
            (collect_credential_has k empty c _ (inr (set, ground (arith, given, same))))
            (λ s h.
              Yields-if (is_empty raw) (λ _. Yields-ok s h)
                (λ _.
                  Yields-bind items _ (anything items) (λ xs _. collect_rotation_keeps 0 s xs h))))

-- ===== src/CollectApi/Credentials/Tokens.antt =====
-- internal/collectapi/query_auth.go: the tokens of the normalised credentials.
use anaysitics_service.Base.{
  ℕ, suc, ◌≡◌, refl, sym, ◌∙◌, ◌↔◌, ◌⊎◌, inl, inr, contains, List, [], ◌∷◌, Option, none, some,
  Bool-cases, All, Any, Any-map, Any_const, Any-append, true, false, arith,
}
use anaysitics_service.Base.Distinct.{
  Fresh, distinct-Fresh, All-distinct, distinct_complete, distinct_sound,
}
use anaysitics_service.Base.Text.{Text, Text_eq, is_empty, trim_space}
use anaysitics_service.Base.Text.Trim.{trim_space_idem}
use anaysitics_service.CollectApi.Credentials.{QueryCredential, normalize_query_credentials}
use anaysitics_service.CollectApi.Credentials.Normal.{
  prepared, Offered, normal_form, token_of, explicit_offers, legacy_offers, current_offer, offers,
  normalize-distinct,
}

-- What a prepared credential has.
abbrev pub IsNormal : QueryCredential → Type 0
IsNormal c = (is_empty c.token ≡ false) × (trim_space c.token ≡ c.token)

normal_form-cases :
    (offer : Offered)
    → ((normal_form offer ≡ none) × (is_empty (trim_space offer.0.token) ≡ true))
      ⊎ ((c : QueryCredential) × (normal_form offer ≡ some c)
          × (is_empty c.token ≡ false)
          × (c.token ≡ trim_space offer.0.token))
unfolding normal_form
normal_form-cases offer = elim (Bool-cases (is_empty (trim_space offer.0.token))) [
  | inl blank ↦ inl (rw blank refl, blank)
  | inr set ↦ inr (prepared offer, rw set refl, set, refl)
]

the_same : {A : Type 0} {o : Option A} {x y : A} → o ≡ some x → o ≡ some y → x ≡ y
the_same p q = cc

normal_form-IsNormal :
    (offer : Offered) (c : QueryCredential) → normal_form offer ≡ some c → IsNormal c
normal_form-IsNormal offer c h = elim (normal_form-cases offer) [
  | inl (p, blank) ↦ absurd (cc)
  | inr (c', p, set, q) ↦ rw (sym (the_same p h)) (set, rw q (trim_space_idem offer.0.token))
]

-- The token of a prepared credential is the trimmed one.
normal_form_iff :
    (offer : Offered) (t : Text)
    → ((c : QueryCredential) × (normal_form offer ≡ some c) × (c.token ≡ t))
      ↔ ((is_empty t ≡ false) × (trim_space offer.0.token ≡ t))
normal_form_iff offer t = elim (normal_form-cases offer) [
  | inl (p, blank) ↦ (λ (c, q, r). absurd (cc), λ (q, r). absurd (cc))
  | inr (c', p, set, q) ↦ (λ (c, q', r). (cc, cc), λ (s, r). (c', p, q ∙ r))
]

-- The normalised credentials have non-blank, trimmed tokens, and no token twice.
pub normalize_query_credentials_distinct :
    (primary : Text) (legacy : List Text) (explicit : List QueryCredential)
    → Fresh token_of [] (normalize_query_credentials primary legacy explicit)
      × All IsNormal (normalize_query_credentials primary legacy explicit)
normalize_query_credentials_distinct primary legacy explicit =
    rw (normalize-distinct primary legacy explicit) (
      distinct-Fresh normal_form token_of [] _,
      All-distinct normal_form token_of IsNormal normal_form-IsNormal [] _,
    )

abbrev Offers : Text → Offered → Type 0
Offers t offer = trim_space offer.0.token ≡ t

abbrev Named : Text → Offered → Type 0
Named t offer = (is_empty t ≡ false) × Offers t offer

Any-explicit :
    (t : Text) (idx : ℕ) (explicit : List QueryCredential)
    → Any (Offers t) (explicit_offers idx explicit) ↔ Any (λ c. trim_space c.token ≡ t) explicit
Any-explicit t idx [] = ground arith
Any-explicit t idx (c ∷ explicit) = ground (arith, Any-explicit t (suc idx) explicit)

Any-legacy :
    (t : Text) (idx : ℕ) (legacy : List Text)
    → Any (Offers t) (legacy_offers idx legacy) ↔ Any (λ token. trim_space token ≡ t) legacy
Any-legacy t idx [] = ground arith
Any-legacy t idx (token ∷ legacy) = ground (arith, Any-legacy t (suc idx) legacy)

Any-offers :
    (t : Text) (primary : Text) (legacy : List Text) (explicit : List QueryCredential)
    → Any (Offers t) (offers primary legacy explicit) ↔ (
        Any (λ c. trim_space c.token ≡ t) explicit
        ⊎ ((trim_space primary ≡ t) ⊎ Any (λ token. trim_space token ≡ t) legacy))
Any-offers t primary legacy explicit = ground (
  arith,
  Any-append (Offers t) (explicit_offers 0 explicit)
      (current_offer primary ∷ legacy_offers 0 legacy),
  Any-explicit t 0 explicit,
  Any-legacy t 0 legacy,
)

-- A token is accepted exactly if it is not blank and, trimmed, is that of an explicit credential, the
-- primary token, or a legacy token.
pub normalize_query_credentials_tokens :
    (primary : Text) (legacy : List Text) (explicit : List QueryCredential) (t : Text)
    → Any (λ c. c.token ≡ t) (normalize_query_credentials primary legacy explicit) ↔ (
        (is_empty t ≡ false)
        × (Any (λ c. trim_space c.token ≡ t) explicit
            ⊎ ((trim_space primary ≡ t) ⊎ Any (λ token. trim_space token ≡ t) legacy)))
unfolding contains
normalize_query_credentials_tokens primary legacy explicit t =
    rw (normalize-distinct primary legacy explicit) (
      λ m.
          let named =
            Any-map _ (Named t) all (λ o. (normal_form_iff o t).0)
              (distinct_sound normal_form token_of (λ c. c.token ≡ t) [] all m) in
          (
            Any_const (is_empty t ≡ false) all (Any-map (Named t) _ all (λ o h. h.0) named),
            (Any-offers t primary legacy explicit).0
                (Any-map (Named t) (Offers t) all (λ o h. h.1) named),
          ),
      λ (set, m).
          elim (distinct_complete normal_form token_of t [] all (
            Any-map (Offers t) _ all (λ o h. (normal_form_iff o t).1 (set, h))
              ((Any-offers t primary legacy explicit).1 m))) [ inl old ↦ absurd (cc) | inr m ↦ m ],
    )
  where
    all : List Offered
    all = offers primary legacy explicit

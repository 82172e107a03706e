-- ===== src/CollectApi/Credentials/Authorize.antt =====
-- internal/collectapi/query_auth.go: which bearer token is accepted at what time.
use anaysitics_service.Base.{
  ℕ, suc, zero, ◌+◌, ◌<◌, ◌≤◌, ◌≡◌, refl, sym, ap, ap₂, ◌∙◌, ◌⊎◌, inl, inr, contains, List, [], ◌∷◌,
  Option, none, some, Bool-cases, All, All-get_elem?, subst, true, arith, get_elem?, ◌==◌, ==_sound,
}
use anaysitics_service.Base.Distinct.{Fresh}
use anaysitics_service.Base.Text.{Text, Text_eq, is_empty, trim_space}
use anaysitics_service.CollectApi.Credentials.{
  zero_credential, QueryCredential, QueryTokenAuthState, QueryTokenAuthDecision, last_match,
  decide_match, authorize_query_token,
}
use anaysitics_service.CollectApi.Credentials.Normal.{token_of}
use anaysitics_service.CollectApi.Credentials.Tokens.{IsNormal}

-- An instant at which the credential may be used; a zero bound is no bound.
abbrev pub IsActive : ℕ → QueryCredential → Type 0
IsActive now c =
    ((c.not_before ≡ 0) ⊎ (c.not_before ≤ now)) × ((c.expires_at ≡ 0) ⊎ (now < c.expires_at))

-- The state of an accepted token: only the first credential is the current one.
abbrev pub accepted_state : ℕ → QueryTokenAuthState
accepted_state zero = QueryTokenAuthState.allowed
accepted_state (suc idx) = QueryTokenAuthState.allowed_grace

abbrev pub Accepts : QueryTokenAuthDecision → Type 0
Accepts d = (d.state ≡ QueryTokenAuthState.allowed) ⊎ (d.state ≡ QueryTokenAuthState.allowed_grace)

decide_match-active :
    (idx : ℕ) (c : QueryCredential) (now : ℕ)
    → IsActive now c
    → decide_match (some (idx, c)) now ≡ record { credential = c; state = accepted_state idx }
unfolding decide_match
decide_match-active zero c now active = ground (arith)
decide_match-active (suc idx) c now active = ground (arith)

decide_match-Accepts :
    (idx : ℕ) (c : QueryCredential) (now : ℕ)
    → Accepts (decide_match (some (idx, c)) now)
    → IsActive now c
unfolding decide_match
decide_match-Accepts idx c now h = ground (arith)

==_hit : (v w : Text) → v ≡ w → (v == w) ≡ true
==_hit v w h = (Text_eq.equal_iff v w).1 h

abbrev hit : ℕ → QueryCredential → Option (ℕ × QueryCredential)
hit idx c = some (idx, c)

shift : (idx j : ℕ) (c : QueryCredential) → hit (suc idx + j) c ≡ hit (idx + suc j) c
shift idx j c = ap (λ i. hit i c) (omega arith)

unshift : (idx : ℕ) (c : QueryCredential) → hit idx c ≡ hit (idx + 0) c
unshift idx c = ap (λ i. hit i c) (omega arith)

zero_hit : (idx : ℕ) (c : QueryCredential) → hit (0 + idx) c ≡ hit idx c
zero_hit idx c = ap (λ i. hit i c) (omega arith)

last_match_unseen :
    (v : Text) (idx : ℕ) (m : Option (ℕ × QueryCredential)) (seen : List Text)
    (rest : List QueryCredential)
    → contains seen v ≡ true
    → Fresh token_of seen rest
    → last_match v idx m rest ≡ m
unfolding last_match contains
last_match_unseen v idx m seen [] h f = refl
last_match_unseen v idx m seen (c ∷ rest) h f = elim (Bool-cases (v == c.token)) [
  | inl e ↦ absurd (cc (==_sound v c.token e))
  | inr e ↦ rw e (last_match_unseen v (suc idx) m (c.token ∷ seen) rest (ground arith) f.1)
]

-- Distinct tokens have one match, so the last one is it.
last_match_complete :
    (v : Text) (idx : ℕ) (m : Option (ℕ × QueryCredential)) (seen : List Text)
    (accepted : List QueryCredential) (j : ℕ) (c : QueryCredential)
    → Fresh token_of seen accepted
    → get_elem? accepted j ≡ some c
    → c.token ≡ v
    → last_match v idx m accepted ≡ some (idx + j, c)
unfolding last_match contains
last_match_complete v idx m seen [] j c f h t = absurd (cc)
last_match_complete v idx m seen (c' ∷ rest) zero c f h t =
    rw (==_hit v c'.token (sym t ∙ ap token_of (sym same))) (
      last_match_unseen v (suc idx) (some (idx, c')) (c'.token ∷ seen) rest seen_now f.1
      ∙ ap₂ hit (sym plus_zero) same)
  where
    same : c' ≡ c
    same = cc

    plus_zero : idx + 0 ≡ idx
    plus_zero = omega arith

    seen_now : contains (c'.token ∷ seen) v ≡ true
    seen_now = ground (arith, ==_hit c'.token v (ap token_of same ∙ t))
last_match_complete v idx m seen (c' ∷ rest) (suc j) c f h t =
    last_match_complete v (suc idx) _ (c'.token ∷ seen) rest j c f.1 h t ∙ shift idx j c

last_match_sound :
    (v : Text) (idx : ℕ) (m : Option (ℕ × QueryCredential)) (accepted : List QueryCredential)
    → (last_match v idx m accepted ≡ m)
      ⊎ ((j : ℕ) × (c : QueryCredential) × (get_elem? accepted j ≡ some c)
          × (c.token ≡ v)
          × (last_match v idx m accepted ≡ some (idx + j, c)))
unfolding last_match
last_match_sound v idx m [] = inl refl
last_match_sound v idx m (c ∷ rest) = elim (Bool-cases (v == c.token)) [
  | inl e ↦ elim (last_match_sound v (suc idx) (some (idx, c)) rest) [
    | inl p ↦ inr (0, c, refl, sym (==_sound v c.token e), rw e (p ∙ unshift idx c))
    | inr (j, c', g, t, p) ↦ inr (suc j, c', g, t, rw e (p ∙ shift idx j c'))
  ]
  | inr e ↦ elim (last_match_sound v (suc idx) m rest) [
    | inl p ↦ inl (rw e p)
    | inr (j, c', g, t, p) ↦ inr (suc j, c', g, t, rw e (p ∙ shift idx j c'))
  ]
]

-- A credential that the token names, active, and the decision for it.
abbrev pub AcceptedCredential : Text → List QueryCredential → ℕ → Type 0
AcceptedCredential value accepted now =
    (idx : ℕ) × (c : QueryCredential) × (get_elem? accepted idx ≡ some c)
    × (c.token ≡ trim_space value)
    × IsActive now c
    × (authorize_query_token value accepted now
        ≡ record { credential = c; state = accepted_state idx })

unknown-not_accepted :
    (d : QueryTokenAuthDecision)
    → d ≡ record { credential = zero_credential; state = QueryTokenAuthState.unknown }
    → ¬ Accepts d
unknown-not_accepted d e h = elim (subst Accepts e h) [ inl p ↦ absurd (cc) | inr p ↦ absurd (cc) ]

module _ (value : Text) (accepted : List QueryCredential) (now : ℕ) where
  -- If the accepted tokens are distinct and normal, the bearer of the token with index idx is
  -- accepted while the credential is active: as the current token if idx is 0, with grace otherwise.
  pub authorize_query_token_complete :
      (idx : ℕ) (c : QueryCredential)
      → Fresh token_of [] accepted
      → All IsNormal accepted
      → get_elem? accepted idx ≡ some c
      → c.token ≡ trim_space value
      → IsActive now c
      → authorize_query_token value accepted now
        ≡ record { credential = c; state = accepted_state idx }
  unfolding authorize_query_token
  authorize_query_token_complete idx c fresh normal at t active =
      rw (sym (ap is_empty t) ∙ (All-get_elem? IsNormal accepted idx normal at).0) (
        rw (last_match_complete (trim_space value) 0 none [] accepted idx c fresh at t)
          (ap (λ m. decide_match m now) (zero_hit idx c) ∙ decide_match-active idx c now active))

  -- Whatever is accepted is the token of an active credential, and the decision names that
  -- credential.
  pub authorize_query_token_sound :
      Accepts (authorize_query_token value accepted now) → AcceptedCredential value accepted now
  unfolding authorize_query_token decide_match
  authorize_query_token_sound h = elim (Bool-cases (is_empty (trim_space value))) [
    | inl blank ↦
        absurd (unknown-not_accepted (authorize_query_token value accepted now) (rw blank refl) h)
    | inr set ↦ elim (last_match_sound (trim_space value) 0 none accepted) [
      | inl p ↦
          absurd
            (unknown-not_accepted (authorize_query_token value accepted now) (rw set (rw p refl)) h)
      | inr (idx, c, at, t, p) ↦
          matching idx c at t (rw set (ap (λ m. decide_match m now) (p ∙ zero_hit idx c)))
    ]
  ]
    where
      matching :
          (idx : ℕ) (c : QueryCredential)
          → get_elem? accepted idx ≡ some c
          → c.token ≡ trim_space value
          → authorize_query_token value accepted now ≡ decide_match (some (idx, c)) now
          → AcceptedCredential value accepted now
      matching idx c at t q =
          let active = decide_match-Accepts idx c now (subst Accepts q h) in
          (idx, c, at, t, active, q ∙ decide_match-active idx c now active)

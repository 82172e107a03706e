-- ===== src/CollectApi/Credentials/Normal.antt =====
-- internal/collectapi/query_auth.go: the normalised credentials as one loop over all that is offered.
use anaysitics_service.Base.{
  ap, ℕ, suc, ◌+◌, ◌≡◌, refl, sym, ◌∙◌, inl, inr, contains, List, [], ◌∷◌, ◌++◌, append-nil,
  append_assoc, Option, none, some, if◌then◌else◌, Bool-cases,
}
use anaysitics_service.Base.Distinct.{distinct, distinct_rule}
use anaysitics_service.Base.Text.{Text, Text_eq, text, is_empty, trim_space}
use anaysitics_service.CollectApi.Credentials.{
  zero_credential, rotation_id, explicit_id, append_explicit, append_legacy,
  normalize_query_credentials, QueryCredential, normalize_query_write_keys, Appended, or_fallback,
  append_credential,
}

-- A credential with the id that it falls back to.
abbrev pub Offered : Type 0
Offered = QueryCredential × Text

-- The credential as it is appended.
abbrev pub prepared : Offered → QueryCredential
prepared (credential, fallback_id) = record credential {
  token = trim_space credential.token;
  id = or_fallback (trim_space credential.id) fallback_id;
  allowed_write_keys = normalize_query_write_keys credential.allowed_write_keys;
}

-- One offered credential in its normal form, unless its token is blank.
unfoldable pub normal_form : Offered → Option QueryCredential
normal_form offer = if is_empty (trim_space offer.0.token) then none else some (prepared offer)

abbrev pub token_of : QueryCredential → Text
token_of c = c.token

-- The entry that one round adds.
abbrev add_entry : Appended → Option QueryCredential → Appended
add_entry s none = s
add_entry s (some b) =
    if contains s.seen b.token
    then s
    else record { normalized = s.normalized ++ (b ∷ []); seen = b.token ∷ s.seen }

append_credential_rule :
    (s : Appended) (credential : QueryCredential) (fallback_id : Text)
    → append_credential s credential fallback_id
      ≡ add_entry s (normal_form (credential, fallback_id))
unfolding append_credential normal_form
append_credential_rule s credential fallback_id =
    elim (Bool-cases (is_empty (trim_space credential.token))) [
      | inl blank ↦ rw blank refl
      | inr set ↦ rw set refl
    ]

append_all : Appended → List Offered → Appended
append_all s [] = s
append_all s ((credential, fallback_id) ∷ rest) =
    append_all (append_credential s credential fallback_id) rest

append_all-distinct :
    (s : Appended) (offers : List Offered)
    → (append_all s offers).normalized ≡ s.normalized ++ distinct normal_form token_of s.seen offers
unfolding append_all distinct
append_all-distinct s [] = sym (append-nil s.normalized)
append_all-distinct s ((credential, fallback_id) ∷ rest) =
    rw (append_all, append_credential_rule s credential fallback_id)
      (distinct_rule normal_form token_of
        (λ seen offer rest bs.
          (append_all (add_entry s (normal_form offer)) rest).normalized ≡ s.normalized ++ bs)
        s.seen (credential, fallback_id) rest (λ p. rw p (append_all-distinct s rest))
        (λ b p q. rw (p, q) (append_all-distinct s rest))
        (λ b p q. rw (p, q) (append_all-distinct _ rest ∙ append_assoc s.normalized _ _)))

append_all-append :
    (s : Appended) (xs ys : List Offered)
    → append_all s (xs ++ ys) ≡ append_all (append_all s xs) ys
unfolding append_all
append_all-append s [] ys = refl
append_all-append s ((credential, fallback_id) ∷ xs) ys =
    append_all-append (append_credential s credential fallback_id) xs ys

abbrev pub explicit_offers : ℕ → List QueryCredential → List Offered
explicit_offers idx [] = []
explicit_offers idx (credential ∷ rest) =
    (credential, explicit_id idx) ∷ explicit_offers (suc idx) rest

-- A credential that only has a token.
abbrev pub bare_credential : Text → QueryCredential
bare_credential token = record zero_credential { token = token }

abbrev pub legacy_offers : ℕ → List Text → List Offered
legacy_offers idx [] = []
legacy_offers idx (token ∷ rest) =
    (bare_credential token, rotation_id (idx + 1)) ∷ legacy_offers (suc idx) rest

abbrev pub current_offer : Text → Offered
current_offer primary = (record (bare_credential primary) { id = text "current" }, text "current")

append_explicit-append_all :
    (idx : ℕ) (s : Appended) (explicit : List QueryCredential)
    → append_explicit idx s explicit ≡ append_all s (explicit_offers idx explicit)
unfolding append_explicit append_all
append_explicit-append_all idx s [] = refl
append_explicit-append_all idx s (credential ∷ rest) = append_explicit-append_all (suc idx) _ rest

append_legacy-append_all :
    (idx : ℕ) (s : Appended) (legacy : List Text)
    → append_legacy idx s legacy ≡ append_all s (legacy_offers idx legacy)
unfolding append_legacy append_all
append_legacy-append_all idx s [] = refl
append_legacy-append_all idx s (token ∷ rest) = append_legacy-append_all (suc idx) _ rest

-- Everything offered: the explicit credentials, the primary token, the legacy tokens.
abbrev pub offers : Text → List Text → List QueryCredential → List Offered
offers primary legacy explicit =
    explicit_offers 0 explicit ++ (current_offer primary ∷ legacy_offers 0 legacy)

pub normalize-distinct :
    (primary : Text) (legacy : List Text) (explicit : List QueryCredential)
    → normalize_query_credentials primary legacy explicit
      ≡ distinct normal_form token_of [] (offers primary legacy explicit)
unfolding normalize_query_credentials append_all
normalize-distinct primary legacy explicit =
    ap (λ s. (append_legacy 0 (append_credential s current (text "current")) legacy).normalized)
      (append_explicit-append_all 0 empty explicit)
    ∙ ap (λ s. s.normalized) (append_legacy-append_all 0 after_current legacy)
    ∙ ap (λ s. s.normalized)
        (sym (
          append_all-append empty (explicit_offers 0 explicit)
            (current_offer primary ∷ legacy_offers 0 legacy)))
    ∙ append_all-distinct empty (offers primary legacy explicit)
  where
    empty : Appended
    empty = record { normalized = []; seen = [] }

    current : QueryCredential
    current = (current_offer primary).0

    after_current : Appended
    after_current =
        append_credential (append_all empty (explicit_offers 0 explicit)) current (text "current")

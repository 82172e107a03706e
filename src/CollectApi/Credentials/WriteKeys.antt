-- ===== src/CollectApi/Credentials/WriteKeys.antt =====
-- internal/collectapi/query_auth.go: what a write-key allowlist allows, as it is configured.
use anaysitics_service.Base.{
  true, false, ◌≡◌, refl, ◌↔◌, ◌⊎◌, inl, inr, contains, contains_iff, List, [], ◌∷◌, some,
  Bool-cases, All, Any, Any-map, arith,
}
use anaysitics_service.Base.Distinct.{distinct, distinct_complete, distinct_sound}
use anaysitics_service.Base.Text.{Text, Text_eq, is_empty, trim_space}
use anaysitics_service.ControlPlane.Source.{trimmed}
use anaysitics_service.CollectApi.Credentials.{
  QueryCredential, normalize_query_write_keys, no_entries, allows_write_key,
}

-- A value that gives the entry k.
abbrev Gives : Text → Text → Type 0
Gives k value = (b : Text) × (trimmed value ≡ some b) × (b ≡ k)

trimmed_iff : (value k : Text) → is_empty k ≡ false → Gives k value ↔ (trim_space value ≡ k)
unfolding trimmed
trimmed_iff value k set = elim (Bool-cases (is_empty (trim_space value))) [
  | inl blank ↦ rw blank (λ (b, p, q). absurd (cc), λ e. absurd (cc))
  | inr full ↦ rw full (λ (b, p, q). cc, λ e. (trim_space value, refl, e))
]

normalized_contains_iff :
    (keys : List Text) (k : Text)
    → is_empty k ≡ false
    → (contains (normalize_query_write_keys keys) k ≡ true)
      ↔ Any (λ value. trim_space value ≡ k) keys
unfolding normalize_query_write_keys contains
normalized_contains_iff keys k set = (
  λ h.
      Any-map (Gives k) _ keys (λ value. (trimmed_iff value k set).0)
        (distinct_sound trimmed (λ key. key) (λ b. b ≡ k) [] keys ((contains_iff _ k).0 h)),
  λ m.
      elim (distinct_complete trimmed (λ key. key) k [] keys
        (Any-map _ (Gives k) keys (λ value. (trimmed_iff value k set).1) m)) [
          | inl old ↦ absurd (cc)
          | inr found ↦ (contains_iff _ k).1 found
        ],
)

no_entries_iff :
    (keys : List Text)
    → (no_entries (normalize_query_write_keys keys) ≡ true)
      ↔ All (λ value. is_empty (trim_space value) ≡ true) keys
unfolding normalize_query_write_keys distinct trimmed contains
no_entries_iff [] = (λ e. tt, λ a. refl)
no_entries_iff (value ∷ keys) = elim (Bool-cases (is_empty (trim_space value))) [
  | inl blank ↦
      rw (blank, distinct, trimmed)
        (λ e. (refl, (no_entries_iff keys).0 e), λ a. (no_entries_iff keys).1 a.1)
  | inr full ↦ rw (full, distinct, trimmed) (λ e. absurd (cc), λ a. absurd (cc a.0))
]

-- A credential whose configured allowlist is keys may be used for a write key exactly if the write
-- key is blank, or every entry is blank, or an entry is, trimmed, the trimmed write key.
pub allows_write_key_normalized_iff :
    (c : QueryCredential) (keys : List Text) (key : Text)
    → (allows_write_key (record c { allowed_write_keys = normalize_query_write_keys keys }) key
        ≡ true)
      ↔ ((is_empty (trim_space key) ≡ true)
          ⊎ (All (λ value. is_empty (trim_space value) ≡ true) keys
              ⊎ Any (λ value. trim_space value ≡ trim_space key) keys))
unfolding allows_write_key
allows_write_key_normalized_iff c keys key = elim (Bool-cases (is_empty (trim_space key))) [
  | inl blank ↦ (λ h. inl blank, λ h. rw blank refl)
  | inr set ↦
      rw set
        (ground (arith, no_entries_iff keys, normalized_contains_iff keys (trim_space key) set))
]

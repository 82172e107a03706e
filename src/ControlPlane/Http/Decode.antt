-- ===== src/ControlPlane/Http/Decode.antt =====
-- internal/controlplane/http_resolver.go: which answers of the control plane become a source.
use anaysitics_service.Base.{
  ℕ, true, false, ◌≡◌, ◌≢◌, refl, ◌↔◌, List, take, Result, ok, err, arith, Result-cases, inl, inr,
}
use anaysitics_service.Base.Text.{Text, Text_eq, text_eq_iff, CaseTable}
use anaysitics_service.ControlPlane.Source.{SourceConfig, normalize}
use anaysitics_service.ControlPlane.Validate.{Error, validate_source_config}
use anaysitics_service.ControlPlane.Validate.Sound.{IsValidSource, validate_source_config_iff}
use anaysitics_service.ControlPlane.Http.{
  ControlPlaneClient, max_runtime_config_response_bytes, decode_runtime_source, Response, Fetched,
  interpret,
}

-- What a resolver may hand to the collect path for a write key.
pub record IsUsable (write_key : Text) (s : SourceConfig) : Type 0 where
  pub named : s.write_key ≡ write_key
  pub valid : IsValidSource s
  pub on : s.enabled ≡ true

module _ {W : Type 0} (client : ControlPlaneClient W) ⦃cases : CaseTable⦄ where
  decoded-IsUsable :
      (body : List ℕ) (write_key : Text) (s : SourceConfig) (raw : Result Error SourceConfig)
      → client.decode (take max_runtime_config_response_bytes body) ≡ raw
      → decode_runtime_source client body write_key ≡ ok s
      → (c : SourceConfig) × (raw ≡ ok c) × (normalize c ≡ s) × IsUsable write_key s
  unfolding decode_runtime_source
  decoded-IsUsable body write_key s (err e) p h = absurd (cc)
  decoded-IsUsable body write_key s (ok c) p h =
      let accepted : (normalize c ≡ s) × (validate_source_config s ≡ ok tt) =
        (ground arith, ground arith) in
      (
        c,
        refl,
        accepted.0,
        record {
          named = ground (arith, text_eq_iff (normalize c).write_key write_key);
          valid = (validate_source_config_iff s).0 accepted.1;
          on = ground arith;
        },
      )

  -- A body becomes a source exactly when its first 64 KiB decode to a configuration that, once
  -- normalised, is that source, has the write key that was asked for, is valid and is enabled.
  pub decode_runtime_source_iff :
      (body : List ℕ) (write_key : Text) (s : SourceConfig)
      → (decode_runtime_source client body write_key ≡ ok s) ↔ (
          (c : SourceConfig) × (client.decode (take max_runtime_config_response_bytes body) ≡ ok c)
          × (normalize c ≡ s)
          × IsUsable write_key s)
  unfolding decode_runtime_source
  decode_runtime_source_iff body write_key s = (
    (λ h. decoded-IsUsable body write_key s _ refl h),
    (λ (c, p, q, u).
        let valid = (validate_source_config_iff s).1 u.valid in
        ground (arith, text_eq_iff (normalize c).write_key write_key)),
  )

  -- A response becomes a source that may be used, or says that nothing was modified.
  pub interpret-IsUsable :
      (write_key : Text) (response : Response) (f : Fetched)
      → interpret client write_key response ≡ ok f
      → response.status_code ≢ 304
      → IsUsable write_key f.source × (f.not_modified ≡ false)
  unfolding interpret
  interpret-IsUsable write_key response f h n =
      elim (Result-cases (decode_runtime_source client response.body write_key)) [
        | inl (s, e) ↦
            let (c, p, q, u) = (decode_runtime_source_iff response.body write_key s).0 e in
            ground (arith)
        | inr (x, e) ↦ ground arith
      ]

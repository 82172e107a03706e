-- ===== src/ControlPlane/SchemaBound.antt =====
-- internal/controlplane/resolver.go: the Resolver interface and SchemaBoundResolver.
pub mod Surface
use anaysitics_service.Base.{
  Bool, true, false, ◌&&◌, ◌≡◌, ◌↔◌, ◌==◌, DecEq, contains, List, [], ◌∷◌, Option, none, some,
  Result, ok, err, ◌>>=◌, ◌>>◌, if◌then◌else◌, arith,
}
use anaysitics_service.Base.Text.{Text, Text_eq, text_eq_iff, CaseTable}
use anaysitics_service.ControlPlane.Source.{SourceConfig, normalize}
use anaysitics_service.ControlPlane.Validate.{
  Error, failure, source_outside_schema_surface, validate_source_config,
}

-- Resolver.ResolveSource, with the state `S` that a resolver and the world around it keep.
abbrev pub Resolver : Type 0 → Type 0
Resolver S = Text → S → Result Error SourceConfig × S

pub record SchemaSurfaceKey : Type 0 where
  pub write_key : Text
  pub tenant_id : Text
  pub project_id : Text
  pub source_id : Text
  pub source_type : Text

unfoldable pub key_eq : SchemaSurfaceKey → SchemaSurfaceKey → Bool
key_eq a b =
    a.write_key == b.write_key
    && a.tenant_id == b.tenant_id
    && a.project_id == b.project_id
    && a.source_id == b.source_id
    && a.source_type == b.source_type

pub key_eq_iff : (a b : SchemaSurfaceKey) → (key_eq a b ≡ true) ↔ (a ≡ b)
unfolding key_eq
key_eq_iff a b = ground (
  arith,
  text_eq_iff a.write_key b.write_key,
  text_eq_iff a.tenant_id b.tenant_id,
  text_eq_iff a.project_id b.project_id,
  text_eq_iff a.source_id b.source_id,
  text_eq_iff a.source_type b.source_type,
)

instance abbrev pub Key_eq : DecEq SchemaSurfaceKey
Key_eq = record { equal = key_eq; equal_iff = key_eq_iff }

-- newSchemaSurfaceKey
unfoldable pub new_schema_surface_key : SourceConfig → SchemaSurfaceKey
new_schema_surface_key source = record {
  write_key = source.write_key;
  tenant_id = source.tenant_id;
  project_id = source.project_id;
  source_id = source.source_id;
  source_type = source.source_type;
}

pub record SchemaBoundResolver (S : Type 0) : Type 0 where
  pub inner : Resolver S
  pub allow : List SchemaSurfaceKey

module _ ⦃cases : CaseTable⦄ where
  -- The loop over the startup sources; a source that is not enabled is passed over.
  unfoldable pub allow_sources :
      List SchemaSurfaceKey → List SourceConfig → Result Error (List SchemaSurfaceKey)
  allow_sources allow [] = ok allow
  allow_sources allow (source ∷ rest) = elim (normalize source).enabled [
    | false ↦ allow_sources allow rest
    | true ↦
        validate_source_config (normalize source)
        >> allow_sources (new_schema_surface_key (normalize source) ∷ allow) rest
  ]

  unfoldable pub check_surface :
      List SchemaSurfaceKey → Result Error SourceConfig → Result Error SourceConfig
  check_surface allow (err e) = err e
  check_surface allow (ok source) =
      if contains allow (new_schema_surface_key (normalize source))
      then ok (normalize source)
      else err source_outside_schema_surface

module _ {S : Type 0} ⦃cases : CaseTable⦄ where
  -- NewSchemaBoundResolver; the inner resolver may be nil.
  unfoldable pub new_schema_bound_resolver :
      Option (Resolver S) → List SourceConfig → Result Error (SchemaBoundResolver S)
  new_schema_bound_resolver none sources = err (failure "control-plane resolver is required")
  new_schema_bound_resolver (some resolver) sources = do
    allow ← allow_sources [] sources
    ok (record { inner = resolver; allow = allow })

  -- SchemaBoundResolver.ResolveSource; the receiver may be nil.
  unfoldable pub schema_bound_resolve : Option (SchemaBoundResolver S) → Resolver S
  schema_bound_resolve none write_key s = (err (failure "control-plane resolver is required"), s)
  schema_bound_resolve (some r) write_key s =
      let (source, s') = r.inner write_key s in (check_surface r.allow source, s')

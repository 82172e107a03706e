-- ===== src/ControlPlane/SchemaBound/Surface.antt =====
-- internal/controlplane/resolver.go: a bound resolver lets the startup sources through, no others.
use anaysitics_service.Base.{
  true, false, ◌≡◌, refl, ◌↔◌, ◌⊎◌, inl, inr, contains, List, [], ◌∷◌, some, Result, ok, err, arith,
  Any, Any-map,
}
use anaysitics_service.Base.Text.{Text, CaseTable}
use anaysitics_service.ControlPlane.Source.{SourceConfig, normalize}
use anaysitics_service.ControlPlane.Validate.{Error}
use anaysitics_service.ControlPlane.SchemaBound.{
  Resolver, SchemaSurfaceKey, Key_eq, key_eq_iff, new_schema_surface_key, SchemaBoundResolver,
  allow_sources, new_schema_bound_resolver, check_surface, schema_bound_resolve,
}

module _ ⦃cases : CaseTable⦄ where
  -- A startup source that is enabled and has the key.
  abbrev HasKey : SchemaSurfaceKey → SourceConfig → Type 0
  HasKey key c = ((normalize c).enabled ≡ true) × (new_schema_surface_key (normalize c) ≡ key)

  -- A startup source that is enabled, once normalised, and then has the write key, tenant, project, source
  -- id and source type of the source.
  abbrev pub OnSurface : SourceConfig → SourceConfig → Type 0
  OnSurface source c =
      ((normalize c).enabled ≡ true)
      × ((normalize c).write_key ≡ source.write_key)
      × ((normalize c).tenant_id ≡ source.tenant_id)
      × ((normalize c).project_id ≡ source.project_id)
      × ((normalize c).source_id ≡ source.source_id)
      × ((normalize c).source_type ≡ source.source_type)

  same_key :
      (a b : SourceConfig)
      → (new_schema_surface_key a ≡ new_schema_surface_key b) ↔ (
          (a.write_key ≡ b.write_key)
          × (a.tenant_id ≡ b.tenant_id)
          × (a.project_id ≡ b.project_id)
          × (a.source_id ≡ b.source_id)
          × (a.source_type ≡ b.source_type))
  unfolding new_schema_surface_key
  same_key a b = ground arith

  listed_iff :
      (source : SourceConfig) (sources : List SourceConfig)
      → Any (HasKey (new_schema_surface_key source)) sources ↔ Any (OnSurface source) sources
  listed_iff source sources = (
    Any-map _ _ sources (λ c (on, same).
        let (w, t, p, s, y) = (same_key (normalize c) source).0 same in (on, w, t, p, s, y)),
    Any-map _ _ sources
        (λ c (on, w, t, p, s, y). (on, (same_key (normalize c) source).1 (w, t, p, s, y))),
  )

  allow_step :
      (allow : List SchemaSurfaceKey) (source : SourceConfig) (rest : List SourceConfig)
      (allow' : List SchemaSurfaceKey)
      → allow_sources allow (source ∷ rest) ≡ ok allow'
      → (((normalize source).enabled ≡ false) × (allow_sources allow rest ≡ ok allow'))
        ⊎ (((normalize source).enabled ≡ true)
            × (allow_sources (new_schema_surface_key (normalize source) ∷ allow) rest ≡ ok allow'))
  unfolding allow_sources
  allow_step allow source rest allow' h = ground arith

  allow_sources_iff :
      (key : SchemaSurfaceKey) (allow : List SchemaSurfaceKey) (sources : List SourceConfig)
      (allow' : List SchemaSurfaceKey)
      → allow_sources allow sources ≡ ok allow'
      → (contains allow' key ≡ true) ↔ ((contains allow key ≡ true) ⊎ Any (HasKey key) sources)
  unfolding allow_sources contains
  allow_sources_iff key allow [] allow' h = ground arith
  allow_sources_iff key allow (source ∷ rest) allow' h =
      elim (allow_step allow source rest allow' h) [
        | inl (off, more) ↦ ground (arith, allow_sources_iff key allow rest allow' more)
        | inr (on, more) ↦ ground (
          arith,
          key_eq_iff (new_schema_surface_key (normalize source)) key,
          allow_sources_iff key (new_schema_surface_key (normalize source) ∷ allow) rest allow'
              more,
        )
      ]

module _ ⦃cases : CaseTable⦄ where
  check_surface_iff :
      (allow : List SchemaSurfaceKey) (answer : Result Error SourceConfig) (source : SourceConfig)
      → (check_surface allow answer ≡ ok source) ↔ (
          (c : SourceConfig) × (answer ≡ ok c)
          × (normalize c ≡ source)
          × (contains allow (new_schema_surface_key source) ≡ true))
  unfolding check_surface
  check_surface_iff allow (err e) source = ((λ h. absurd (cc)), (λ (c, h, n, m). absurd (cc)))
  check_surface_iff allow (ok a) source =
      ((λ h. (a, refl, ground arith, ground arith)), (λ (c, h, n, m). ground arith))

  built :
      {S : Type 0} (resolver : Resolver S) (sources : List SourceConfig) (r : SchemaBoundResolver S)
      → new_schema_bound_resolver (some resolver) sources ≡ ok r
      → (allow_sources [] sources ≡ ok r.allow) × (r.inner ≡ resolver)
  unfolding new_schema_bound_resolver
  built resolver sources r h = ground arith

module _ {S : Type 0} ⦃cases : CaseTable⦄ where
  -- A bound resolver returns a source exactly when the inner resolver returns a configuration that
  -- normalises to it and some startup source, enabled once normalised, has its write key, tenant,
  -- project, source id and source type. The inner resolver is asked once, whatever the answer.
  pub schema_bound_resolve_iff :
      (resolver : Resolver S) (sources : List SourceConfig) (r : SchemaBoundResolver S)
      (write_key : Text) (s : S) (source : SourceConfig)
      → new_schema_bound_resolver (some resolver) sources ≡ ok r
      → (((schema_bound_resolve (some r) write_key s).0 ≡ ok source) ↔ (
          (c : SourceConfig) × ((resolver write_key s).0 ≡ ok c)
          × (normalize c ≡ source)
          × Any (OnSurface source) sources))
        × ((schema_bound_resolve (some r) write_key s).1 ≡ (resolver write_key s).1)
  unfolding schema_bound_resolve contains
  schema_bound_resolve_iff resolver sources r write_key s source h =
      let (allowed, same) = built resolver sources r h in
      let answer = (resolver write_key s).0 in
      let surface = allow_sources_iff (new_schema_surface_key source) [] sources r.allow allowed in
      let check = check_surface_iff r.allow answer source in
      rw same (
        (
          (λ e.
              let (c, asked, n, m) = check.0 e in
              (c, asked, n, (listed_iff source sources).0 (only_listed (surface.0 m)))),
          (λ (c, asked, n, m).
              check.1 (c, asked, n, surface.1 (inr ((listed_iff source sources).1 m)))),
        ),
        refl,
      )
    where
      only_listed : {P : Type 0} → (contains [] (new_schema_surface_key source) ≡ true) ⊎ P → P
      only_listed (inl e) = absurd (cc)
      only_listed (inr p) = p

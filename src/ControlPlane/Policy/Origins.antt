-- ===== src/ControlPlane/Policy/Origins.antt =====
-- internal/controlplane/resolver.go: AllowsOrigin against the origins that match.
use anaysitics_service.Base.{true, ◌≡◌, ◌↔◌, ◌⊎◌, List, [], ◌∷◌, map, arith, Any}
use anaysitics_service.Base.Text.{
  Text, Text_eq, text, text_eq_iff, trim_space, CaseTable, equal_fold,
}
use anaysitics_service.ControlPlane.Source.{SourceConfig}
use anaysitics_service.ControlPlane.Policy.{any_origin, allows_origin}

module _ ⦃cases : CaseTable⦄ where
  -- An allowed origin is the wildcard, or the same letters in some case.
  abbrev pub OriginMatches : Text → Text → Type 0
  OriginMatches origin allowed =
      (allowed ≡ text "*") ⊎ (map cases.fold allowed ≡ map cases.fold origin)

  any_origin_iff :
      (allowed : List Text) (origin : Text)
      → (any_origin allowed origin ≡ true) ↔ Any (OriginMatches origin) allowed
  unfolding any_origin equal_fold
  any_origin_iff [] origin = ground arith
  any_origin_iff (a ∷ rest) origin = ground (
    arith,
    text_eq_iff a (text "*"),
    text_eq_iff (map cases.fold a) (map cases.fold origin),
    any_origin_iff rest origin,
  )

  -- An origin is allowed exactly when it is blank, or matches an allowed origin of the source.
  pub allows_origin_iff :
      (c : SourceConfig) (origin : Text)
      → (allows_origin c origin ≡ true)
        ↔ ((trim_space origin ≡ []) ⊎ Any (OriginMatches (trim_space origin)) c.allowed_origins)
  unfolding allows_origin
  allows_origin_iff c origin = ground (arith, any_origin_iff c.allowed_origins (trim_space origin))

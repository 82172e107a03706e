-- ===== src/ControlPlane/Http/Transparent.antt =====
-- internal/controlplane/http_resolver.go: revalidated caching gives the answers of no caching.
use anaysitics_service.Base.{
  ltb, ◌≡◌, refl, sym, ap, ◌∙◌, inl, inr, List, [], ◌∷◌, Option, none, some, Result, err,
  if◌then◌else◌, Bool-cases,
}
use anaysitics_service.Base.Int.{pos, leb_ℤ}
use anaysitics_service.Base.Table.{find}
use anaysitics_service.Base.Text.{Text, CaseTable, is_empty, trim_space}
use anaysitics_service.ControlPlane.Source.{SourceConfig}
use anaysitics_service.ControlPlane.Validate.{Error, source_not_found}
use anaysitics_service.ControlPlane.Http.{
  CachedSourceConfig, HttpResolver, ControlPlaneClient, Response, live_entry, cached,
  resolve_source,
}
use anaysitics_service.ControlPlane.Http.Entries.{cached-AllEntries, cached-at}
use anaysitics_service.ControlPlane.Http.Honest.{IsHonest, AllBacked}
use anaysitics_service.ControlPlane.Http.Revalidated.{
  plain, resolve_from-plain, resolve_from-AllBacked,
}

-- The same resolver with its cache off.
abbrev pub uncached : HttpResolver → HttpResolver
uncached r = record r { cache_ttl = pos 0 }

module _ {W : Type 0} (client : ControlPlaneClient W) ⦃cases : CaseTable⦄ where
  -- Lookups in turn, with a change of the world after each.
  unfoldable pub lookups : List (Text × (W → W)) → HttpResolver → W → HttpResolver × W
  lookups [] r w = (r, w)
  lookups ((write_key, change) ∷ rest) r w =
      let (answered, r', w') = resolve_source client write_key r w in lookups rest r' (change w')

module _ {W : Type 0} (client : ControlPlaneClient W) (answer : W → Text → Result Error Response)
    (honest : IsHonest client answer) ⦃cases : CaseTable⦄ where
  -- Looking into the cache may read the clock, and does no more to the world.
  live_entry_world :
      (o : Option CachedSourceConfig) (key : Text) (r : HttpResolver) (w : W)
      → answer (live_entry client o key r w).2 key ≡ answer w key
  unfolding live_entry
  live_entry_world none key r w = refl
  live_entry_world (some e) key r w = elim (Bool-cases (ltb (client.now w).0 e.expires_at)) [
    | inl p ↦ rw p (honest.clock w key)
    | inr p ↦ rw p (honest.clock w key)
  ]

  cached_world :
      (key : Text) (r : HttpResolver) (w : W) → answer (cached client key r w).2 key ≡ answer w key
  unfolding cached
  cached_world key r w = elim (Bool-cases (leb_ℤ r.cache_ttl (pos 0))) [
    | inl p ↦ rw p
    | inr p ↦ rw p (live_entry_world (find key r.cache) key r w)
  ]

  abbrev current : Text → W → Result Error SourceConfig
  current write_key w =
      if is_empty (trim_space write_key)
      then err source_not_found
      else plain client answer (trim_space write_key) (answer w (trim_space write_key))

  resolve_source-current :
      (write_key : Text) (r : HttpResolver) (w : W)
      → AllBacked client answer r
      → (resolve_source client write_key r w).0 ≡ current write_key w
  unfolding resolve_source
  resolve_source-current write_key r w h = elim (Bool-cases (is_empty (trim_space write_key))) [
    | inl blank ↦ rw blank
    | inr set ↦ rw set (
        resolve_from-plain client answer honest _ (trim_space write_key) _ _
          (λ e p. cached-at _ client (trim_space write_key) r w e h p)
        ∙ ap (plain client answer (trim_space write_key)) (cached_world (trim_space write_key) r w))
  ]

  pub resolve_source-AllBacked :
      (write_key : Text) (r : HttpResolver) (w : W)
      → AllBacked client answer r
      → AllBacked client answer (resolve_source client write_key r w).1
  unfolding resolve_source
  resolve_source-AllBacked write_key r w h = elim (Bool-cases (is_empty (trim_space write_key))) [
    | inl blank ↦ rw blank h
    | inr set ↦ rw set (
        resolve_from-AllBacked client answer honest _ (trim_space write_key) _ _
          (λ e p. cached-at _ client (trim_space write_key) r w e h p)
          (cached-AllEntries _ client (trim_space write_key) r w h))
  ]

  lookups-AllBacked :
      (history : List (Text × (W → W))) (r : HttpResolver) (w : W)
      → AllBacked client answer r
      → AllBacked client answer (lookups client history r w).0
  unfolding lookups
  lookups-AllBacked [] r w h = h
  lookups-AllBacked ((write_key, change) ∷ rest) r w h =
      lookups-AllBacked rest _ _ (resolve_source-AllBacked write_key r w h)

  -- Against a control plane that keeps to the rules of entity tags, whatever lookups came before
  -- and however the world changed after each, a resolver that began with an empty cache returns
  -- for a write key what it would return with its cache off: the same source or the same error.
  pub resolve_source_transparent :
      (history : List (Text × (W → W))) (r : HttpResolver) (w : W) (write_key : Text)
      → r.cache ≡ []
      → (resolve_source client write_key
          (lookups client history r w).0
          (lookups client history r w).1).0
        ≡ (resolve_source client write_key
            (uncached (lookups client history r w).0)
            (lookups client history r w).1).0
  resolve_source_transparent history r w write_key new =
      resolve_source-current write_key (lookups client history r w).0 _ (backed)
      ∙ sym (
          resolve_source-current write_key (uncached (lookups client history r w).0) _
            (record { at = backed.at }))
    where
      none_cached :
          (m : List (Text × CachedSourceConfig)) (key : Text) (e : CachedSourceConfig)
          → m ≡ []
          → find key m ≡ some e
          → ⊥
      none_cached [] key e q p = unfold find in cc p
      none_cached (x ∷ m) key e q p = cc q

      backed : AllBacked client answer (lookups client history r w).0
      backed =
          lookups-AllBacked history r w
            (record { at = λ key e p. absurd (none_cached r.cache key e new p) })

-- ===== src/ControlPlane/Memory/Lookup.antt =====
-- internal/controlplane/resolver.go: a memory resolver answers from its list of sources.
use anaysitics_service.Base.{
  true, false, ◌==◌, ◌≡◌, ◌↔◌, refl, sym, ap, ◌∙◌, inl, inr, List, [], ◌∷◌, Option, none, some,
  Bool-cases, ok, if◌then◌else◌, arith, Any, All, contains, map,
}
use anaysitics_service.Base.Distinct.{Fresh}
use anaysitics_service.Base.Table.{find}
use anaysitics_service.Base.Text.{Text, Text_eq, text_eq, text_eq_iff, trim_space, CaseTable}
use anaysitics_service.ControlPlane.Source.{SourceConfig, normalize}
use anaysitics_service.ControlPlane.Validate.{validate_source_config}
use anaysitics_service.ControlPlane.Validate.Sound.{IsValidSource, validate_source_config_iff}
use anaysitics_service.ControlPlane.Memory.{
  MemoryResolver, add_source, index_sources, new_memory_resolver, enabled_source, memory_resolve,
}

module _ ⦃cases : CaseTable⦄ where
  -- The first source of the list with a write key, normalised.
  unfoldable pub first_source : Text → List SourceConfig → Option SourceConfig
  first_source key [] = none
  first_source key (source ∷ rest) =
      if (normalize source).write_key == key then some (normalize source) else first_source key rest

  abbrev or_first : Option SourceConfig → Option SourceConfig → Option SourceConfig
  or_first (some a) o = some a
  or_first none o = o

  -- One round of the loop that indexed all of the sources.
  index_step :
      (index : List (Text × SourceConfig)) (source : SourceConfig) (rest : List SourceConfig)
      (index' : List (Text × SourceConfig))
      → index_sources index (source ∷ rest) ≡ ok index'
      → (validate_source_config (normalize source) ≡ ok tt)
        × (find (normalize source).write_key index ≡ none)
        × (index_sources (((normalize source).write_key, normalize source) ∷ index) rest
            ≡ ok index')
  unfolding index_sources add_source
  index_step index source rest index' h = ground arith

  index_step_back :
      (index : List (Text × SourceConfig)) (source : SourceConfig) (rest : List SourceConfig)
      (index' : List (Text × SourceConfig))
      → validate_source_config (normalize source) ≡ ok tt
      → find (normalize source).write_key index ≡ none
      → index_sources (((normalize source).write_key, normalize source) ∷ index) rest ≡ ok index'
      → index_sources index (source ∷ rest) ≡ ok index'
  unfolding index_sources add_source
  index_step_back index source rest index' valid new more = rw (valid, new) more

  find-none_iff :
      (key : Text) (index : List (Text × SourceConfig))
      → (find key index ≡ none) ↔ (contains (map (λ e. e.0) index) key ≡ false)
  unfolding find contains
  find-none_iff key [] = ground arith
  find-none_iff key ((k, v) ∷ rest) = ground (arith, find-none_iff key rest)

  find-index_sources :
      (key : Text) (index : List (Text × SourceConfig)) (sources : List SourceConfig)
      (index' : List (Text × SourceConfig))
      → index_sources index sources ≡ ok index'
      → find key index' ≡ or_first (find key index) (first_source key sources)
  unfolding index_sources find first_source
  find-index_sources key index [] index' h = ground arith
  find-index_sources key index (source ∷ rest) index' h =
      let (valid, new, more) = index_step index source rest index' h in
      find-index_sources key (((normalize source).write_key, normalize source) ∷ index) rest index'
        more
      ∙ ground (arith, new, text_eq_iff (normalize source).write_key key)

  -- A resolver built from a list of sources answers from the first source of the list that has the
  -- trimmed write key, normalised: not found if there is none, disabled if it is not enabled.
  pub memory_resolve-first :
      (sources : List SourceConfig) (r : MemoryResolver) (write_key : Text)
      → new_memory_resolver sources ≡ ok r
      → memory_resolve (some r) write_key
        ≡ enabled_source (first_source (trim_space write_key) sources)
  unfolding new_memory_resolver memory_resolve find
  memory_resolve-first sources r write_key h =
      let built : index_sources [] sources ≡ ok r.sources = ground arith in
      ap enabled_source (find-index_sources (trim_space write_key) [] sources r.sources built)

  first_source_sound :
      (key : Text) (sources : List SourceConfig) (s : SourceConfig)
      → first_source key sources ≡ some s
      → (s.write_key ≡ key) × Any (λ c. normalize c ≡ s) sources
  unfolding first_source
  first_source_sound key [] s h = absurd (cc)
  first_source_sound key (source ∷ rest) s h =
      elim (Bool-cases (text_eq (normalize source).write_key key)) [
        | inl e ↦ ground (arith, text_eq_iff (normalize source).write_key key)
        | inr e ↦
            let (named, listed) = first_source_sound key rest s (rw e at h) in (named, inr listed)
      ]

  index_sources_iff :
      (index : List (Text × SourceConfig)) (sources : List SourceConfig)
      → ((index' : List (Text × SourceConfig)) × (index_sources index sources ≡ ok index')) ↔ (
          All (λ c. IsValidSource (normalize c)) sources
          × Fresh (λ c. (normalize c).write_key) (map (λ e. e.0) index) sources)
  unfolding index_sources
  index_sources_iff index [] = ((λ r. (tt, tt)), (λ r. (index, refl)))
  index_sources_iff index (source ∷ rest) = (
    (λ (i, h).
        let (valid, new, more) = index_step index source rest i h in
        let (all, fresh) = (index_sources_iff (entry ∷ index) rest).0 (i, more) in
        (((validate_source_config_iff _).0 valid, all), ((find-none_iff _ index).0 new, fresh))),
    (λ (all, fresh).
        let (i, more) = (index_sources_iff (entry ∷ index) rest).1 (all.1, fresh.1) in
        (
          i,
          index_step_back index source rest i ((validate_source_config_iff _).1 all.0)
              ((find-none_iff _ index).1 fresh.0) more,
        )),
  )
    where
      entry : Text × SourceConfig
      entry = ((normalize source).write_key, normalize source)

  -- Building a resolver succeeds exactly when every normalised source is valid and no two of them
  -- have the same write key.
  pub new_memory_resolver_iff :
      (sources : List SourceConfig)
      → ((r : MemoryResolver) × (new_memory_resolver sources ≡ ok r)) ↔ (
          All (λ c. IsValidSource (normalize c)) sources
          × Fresh (λ c. (normalize c).write_key) [] sources)
  unfolding new_memory_resolver
  new_memory_resolver_iff sources = (
    (λ (r, h). (index_sources_iff [] sources).0 (r.sources, ground arith)),
    (λ h.
        let (index, built) = (index_sources_iff [] sources).1 h in
        (record { sources = index }, rw built)),
  )

  enabled_source-eq-ok :
      (o : Option SourceConfig) (s : SourceConfig)
      → enabled_source o ≡ ok s
      → (o ≡ some s) × (s.enabled ≡ true)
  unfolding enabled_source
  enabled_source-eq-ok none s h = absurd (cc)
  enabled_source-eq-ok (some a) s h = ground arith

  -- A source that the resolver returns is enabled, has the trimmed write key, and is the
  -- normalisation of a source of the list.
  pub memory_resolve_sound :
      (sources : List SourceConfig) (r : MemoryResolver) (write_key : Text) (s : SourceConfig)
      → new_memory_resolver sources ≡ ok r
      → memory_resolve (some r) write_key ≡ ok s
      → (s.enabled ≡ true)
        × (s.write_key ≡ trim_space write_key)
        × Any (λ c. normalize c ≡ s) sources
  memory_resolve_sound sources r write_key s built h =
      let (found, enabled) =
        enabled_source-eq-ok _ s (sym (memory_resolve-first sources r write_key built) ∙ h) in
      let (named, listed) = first_source_sound _ sources s found in (enabled, named, listed)

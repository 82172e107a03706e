-- ===== src/ControlPlane/Memory.antt =====
-- internal/controlplane/resolver.go: MemoryResolver, an index of source configurations by write key.
pub mod Lookup
use anaysitics_service.Base.{
  Bool, true, false, ◌==◌, List, [], ◌∷◌, Option, none, some, Result, ok, err, ◌>>=◌, ◌>>◌,
  if◌then◌else◌,
}
use anaysitics_service.Base.Table.{find}
use anaysitics_service.Base.Text.{Text, Text_eq, trim_space, CaseTable}
use anaysitics_service.ControlPlane.Source.{SourceConfig, normalize}
use anaysitics_service.ControlPlane.Validate.{
  Error, failure, source_not_found, source_disabled, validate_source_config,
}

pub record MemoryResolver : Type 0 where
  pub sources : List (Text × SourceConfig)

-- `if _, exists := index[key]; exists`, and the write otherwise.
unfoldable pub add_source :
    Option SourceConfig
    → List (Text × SourceConfig)
    → SourceConfig
    → Result Error (List (Text × SourceConfig))
add_source (some old) index source = err (failure "source write key must be unique")
add_source none index source = ok ((source.write_key, source) ∷ index)

module _ ⦃cases : CaseTable⦄ where
  unfoldable pub index_sources :
      List (Text × SourceConfig) → List SourceConfig → Result Error (List (Text × SourceConfig))
  index_sources index [] = ok index
  index_sources index (source ∷ rest) =
      let source' = normalize source in
      do
        validate_source_config source'
        index' ← add_source (find source'.write_key index) index source'
        index_sources index' rest

  -- NewMemoryResolver
  unfoldable pub new_memory_resolver : List SourceConfig → Result Error MemoryResolver
  new_memory_resolver sources = do index ← index_sources [] sources; ok (record { sources = index })

unfoldable pub enabled_source : Option SourceConfig → Result Error SourceConfig
enabled_source none = err source_not_found
enabled_source (some source) = if source.enabled then ok source else err source_disabled

-- MemoryResolver.ResolveSource; the receiver may be nil.
unfoldable pub memory_resolve : Option MemoryResolver → Text → Result Error SourceConfig
memory_resolve none write_key = err (failure "control-plane resolver is required")
memory_resolve (some r) write_key = enabled_source (find (trim_space write_key) r.sources)

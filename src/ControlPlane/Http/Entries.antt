-- ===== src/ControlPlane/Http/Entries.antt =====
-- internal/controlplane/http_resolver.go: what holds of every cache entry of a resolver.
use anaysitics_service.Base.{
  ltb, false, ◌≡◌, refl, sym, ◌∙◌, inl, inr, Option, none, some, Bool-cases, Result, ok, err, arith,
}
use anaysitics_service.Base.Int.{pos, leb_ℤ}
use anaysitics_service.Base.Table.{find, without, put, find-without, find-put}
use anaysitics_service.Base.Text.{Text, Text_eq, text_eq, text_eq_iff, CaseTable, trim_space}
use anaysitics_service.Base.Text.Trim.{trim_space_idem}
use anaysitics_service.ControlPlane.Source.{SourceConfig}
use anaysitics_service.ControlPlane.Validate.{Error}
use anaysitics_service.ControlPlane.Http.{
  CachedSourceConfig, HttpResolver, ControlPlaneClient, Fetched, live_entry, cached, store,
  keep_fetched, keep_revalidated,
}

module _ (P : Text → SourceConfig → Text → Type 0) where
  -- The write key, the source and the entity tag of every entry satisfy `P`.
  pub record AllEntries (r : HttpResolver) : Type 0 where
    pub at :
        (key : Text) (e : CachedSourceConfig)
        → find key r.cache ≡ some e
        → P key e.source (trim_space e.etag)

  without-AllEntries :
      (key : Text) (r : HttpResolver)
      → AllEntries r
      → AllEntries (record r { cache = without key r.cache })
  without-AllEntries key r h = record {
    at = λ j e p. h.at j e (ground (arith, find-without key j r.cache));
  }

  put-AllEntries :
      (key : Text) (entry : CachedSourceConfig) (r : HttpResolver)
      → P key entry.source (trim_space entry.etag)
      → AllEntries r
      → AllEntries (record r { cache = put key entry r.cache })
  put-AllEntries key entry r new h = record {
    at = λ j e p. elim (Bool-cases (text_eq key j)) [
      | inl same ↦
          let this : entry ≡ e = ground (arith, find-put key j entry r.cache) in
          rw (← (text_eq_iff key j).0 same) (rw (← this) new)
      | inr other ↦ h.at j e (sym (find-put key j entry r.cache ∙ rw other) ∙ p)
    ];
  }

  module _ {W : Type 0} (client : ControlPlaneClient W) where
    live_entry-AllEntries :
        (o : Option CachedSourceConfig) (key : Text) (r : HttpResolver) (w : W)
        → AllEntries r
        → AllEntries (live_entry client o key r w).1
    unfolding live_entry
    live_entry-AllEntries none key r w h = without-AllEntries key r h
    live_entry-AllEntries (some e) key r w h =
        elim (Bool-cases (ltb (client.now w).0 e.expires_at)) [
          | inl p ↦ rw p h
          | inr p ↦ rw p (without-AllEntries key r h)
        ]

    pub cached-AllEntries :
        (key : Text) (r : HttpResolver) (w : W)
        → AllEntries r
        → AllEntries (cached client key r w).1
    unfolding cached
    cached-AllEntries key r w h = elim (Bool-cases (leb_ℤ r.cache_ttl (pos 0))) [
      | inl p ↦ rw p h
      | inr p ↦ rw p (live_entry-AllEntries (find key r.cache) key r w h)
    ]

    -- An entry that `cached` returns stands in the cache.
    pub cached-at :
        (key : Text) (r : HttpResolver) (w : W) (e : CachedSourceConfig)
        → AllEntries r
        → (cached client key r w).0 ≡ some e
        → P key e.source (trim_space e.etag)
    unfolding cached
    cached-at key r w e h p = h.at key e (ground arith)

    pub store-AllEntries :
        (key : Text) (source : SourceConfig) (etag : Text) (r : HttpResolver) (w : W)
        → P key source (trim_space etag)
        → AllEntries r
        → AllEntries (store client key source etag r w).0
    unfolding store
    store-AllEntries key source etag r w new h = elim (Bool-cases (leb_ℤ r.cache_ttl (pos 0))) [
      | inl p ↦ rw p h
      | inr p ↦ rw p (put-AllEntries key _ r (rw trim_space_idem new) h)
    ]

    module _ ⦃cases : CaseTable⦄ where
      pub keep_fetched-AllEntries :
          (key : Text) (fetched : Result Error Fetched) (r : HttpResolver) (w : W)
          → ((f : Fetched) → fetched ≡ ok f → P key f.source (trim_space f.etag))
          → AllEntries r
          → AllEntries (keep_fetched client key fetched r w).1
      unfolding keep_fetched
      keep_fetched-AllEntries key (err e) r w new h = h
      keep_fetched-AllEntries key (ok f) r w new h =
          store-AllEntries key f.source f.etag r w (new f refl) h

      pub keep_revalidated-AllEntries :
          (entry : CachedSourceConfig) (key : Text) (fetched : Result Error Fetched)
          (r : HttpResolver) (w : W)
          → P key entry.source (trim_space entry.etag)
          → ((f : Fetched)
              → fetched ≡ ok f
              → f.not_modified ≡ false
              → P key f.source (trim_space f.etag))
          → AllEntries r
          → AllEntries (keep_revalidated client entry key fetched r w).1
      unfolding keep_revalidated
      keep_revalidated-AllEntries entry key (err e) r w old new h = h
      keep_revalidated-AllEntries entry key (ok f) r w old new h =
          elim (Bool-cases f.not_modified) [
            | inl p ↦ rw p (store-AllEntries key entry.source entry.etag r w old h)
            | inr p ↦ rw p (store-AllEntries key f.source f.etag r w (new f refl p) h)
          ]

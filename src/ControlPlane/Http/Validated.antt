-- ===== src/ControlPlane/Http/Validated.antt =====
-- internal/controlplane/http_resolver.go: what the collect path receives from the control plane.
use anaysitics_service.Base.{
  false, ◌≡◌, ◌≢◌, refl, ◌⊎◌, inl, inr, [], Option, none, some, Result, ok, err, arith, Bool-cases,
  Result-cases,
}
use anaysitics_service.Base.Table.{find, without}
use anaysitics_service.Base.Int.{pos, leb_ℤ}
use anaysitics_service.Base.Text.{Text, CaseTable, is_empty, trim_space}
use anaysitics_service.ControlPlane.Source.{SourceConfig}
use anaysitics_service.ControlPlane.Validate.{Error}
use anaysitics_service.ControlPlane.Http.{
  CachedSourceConfig, HttpResolver, ControlPlaneClient, Request, Response, Fetched, zero_source,
  cached, resolve_request, interpret, fetch_source, keep_fetched, keep_revalidated, resolve_from,
  resolve_source,
}
use anaysitics_service.ControlPlane.Http.Decode.{IsUsable, interpret-IsUsable}
use anaysitics_service.ControlPlane.Http.Entries.{
  AllEntries, cached-AllEntries, cached-at, keep_fetched-AllEntries, keep_revalidated-AllEntries,
}

-- A server that answers 304 only to a request with a condition, as RFC 9110 has it.
pub record AnswersConditions {W : Type 0} (client : ControlPlaneClient W) : Type 0 where
  pub no_304 :
      (request : Request) (w : W) (response : Response)
      → request.if_none_match ≡ none
      → (client.do_request request w).0 ≡ ok response
      → response.status_code ≢ 304

-- Every cached source may be used for its key.
abbrev pub AllUsable : HttpResolver → Type 0
AllUsable = AllEntries (λ key source etag. IsUsable key source)

module _ {W : Type 0} (client : ControlPlaneClient W) ⦃cases : CaseTable⦄ where
  interpret-304 :
      (key : Text) (response : Response) (f : Fetched)
      → interpret client key response ≡ ok f
      → f.not_modified ≡ false
      → response.status_code ≢ 304
  unfolding interpret
  interpret-304 key response f h n = ground arith

  fetched_new :
      (r : HttpResolver) (key etag : Text) (w : W) (f : Fetched)
      → (fetch_source client r key etag w).0 ≡ ok f
      → f.not_modified ≡ false
      → IsUsable key f.source
  unfolding fetch_source
  fetched_new r key etag w f h n =
      elim (Result-cases (client.do_request (resolve_request r key etag) w).0) [
        | inl (response, e) ↦
            let i : interpret client key response ≡ ok f = ground arith in
            (interpret-IsUsable client key response f i (interpret-304 key response f i n)).0
        | inr (x, e) ↦ absurd (ground arith)
      ]

  -- What is returned for an answer was in it, or in the entry that it confirms.
  pub keep_fetched-ok :
      (key : Text) (fetched : Result Error Fetched) (r : HttpResolver) (w : W) (s : SourceConfig)
      → (keep_fetched client key fetched r w).0 ≡ ok s
      → (f : Fetched) × (fetched ≡ ok f) × (f.source ≡ s)
  unfolding keep_fetched
  keep_fetched-ok key (err e) r w s h = absurd (cc)
  keep_fetched-ok key (ok f) r w s h = (f, refl, ground arith)

  pub keep_revalidated-ok :
      (entry : CachedSourceConfig) (key : Text) (fetched : Result Error Fetched) (r : HttpResolver)
      (w : W) (s : SourceConfig)
      → (keep_revalidated client entry key fetched r w).0 ≡ ok s
      → (f : Fetched) × (fetched ≡ ok f)
        × ((entry.source ≡ s) ⊎ ((f.not_modified ≡ false) × (f.source ≡ s)))
  unfolding keep_revalidated
  keep_revalidated-ok entry key (err e) r w s h = absurd (cc)
  keep_revalidated-ok entry key (ok f) r w s h = (f, refl, ground arith)

  module _ (server : AnswersConditions client) where
    fetched_plain :
        (r : HttpResolver) (key : Text) (w : W) (f : Fetched)
        → (fetch_source client r key [] w).0 ≡ ok f
        → IsUsable key f.source
    unfolding fetch_source
    fetched_plain r key w f h =
        elim (Result-cases (client.do_request (resolve_request r key []) w).0) [
          | inl (response, e) ↦
              let i : interpret client key response ≡ ok f = ground arith in
              (interpret-IsUsable client key response f i (
                server.no_304 (resolve_request r key []) w response
                  (unfold resolve_request trim_space in refl) e)).0
          | inr (x, e) ↦ absurd (ground arith)
        ]

    resolve_from-AllUsable :
        (o : Option CachedSourceConfig) (key : Text) (r : HttpResolver) (w : W)
        → ((e : CachedSourceConfig) → o ≡ some e → IsUsable key e.source)
        → AllUsable r
        → AllUsable (resolve_from client o key r w).1
    unfolding resolve_from
    resolve_from-AllUsable none key r w at h =
        keep_fetched-AllEntries _ client key _ r _ (λ f. fetched_plain r key w f) h
    resolve_from-AllUsable (some e) key r w at h =
        keep_revalidated-AllEntries _ client e key _ r _ (at e refl)
          (λ f p n. fetched_new r key e.etag w f p n) h

    resolve_from-IsUsable :
        (o : Option CachedSourceConfig) (key : Text) (r : HttpResolver) (w : W) (s : SourceConfig)
        → ((e : CachedSourceConfig) → o ≡ some e → IsUsable key e.source)
        → (resolve_from client o key r w).0 ≡ ok s
        → IsUsable key s
    unfolding resolve_from
    resolve_from-IsUsable none key r w s at h =
        let (f, p, q) = keep_fetched-ok key _ r _ s h in rw (← q) (fetched_plain r key w f p)
    resolve_from-IsUsable (some e) key r w s at h =
        let (f, p, q) = keep_revalidated-ok e key _ r _ s h in
        elim q [
          | inl q ↦ rw (← q) (at e refl)
          | inr (n, q) ↦ rw (← q) (fetched_new r key e.etag w f p n)
        ]

    -- With such a server and a cache of usable sources, a source that the resolver returns is
    -- valid, enabled and has the trimmed write key, and the cache again holds usable sources only,
    -- whether the lookup succeeded or not.
    pub resolve_source-IsUsable :
        (write_key : Text) (r : HttpResolver) (w : W)
        → AllUsable r
        → ((s : SourceConfig)
            → (resolve_source client write_key r w).0 ≡ ok s
            → IsUsable (trim_space write_key) s)
          × AllUsable (resolve_source client write_key r w).1
    unfolding resolve_source
    resolve_source-IsUsable write_key r w h = elim (Bool-cases (is_empty (trim_space write_key))) [
      | inl blank ↦ rw blank ((λ s p. absurd (cc)), h)
      | inr set ↦ rw set (
        (λ s p. resolve_from-IsUsable _ (trim_space write_key) _ _ s (entry_usable) p),
        resolve_from-AllUsable _ (trim_space write_key) _ _ (entry_usable)
            (cached-AllEntries _ client (trim_space write_key) r w h),
      )
    ]
      where
        entry_usable :
            (e : CachedSourceConfig)
            → (cached client (trim_space write_key) r w).0 ≡ some e
            → IsUsable (trim_space write_key) e.source
        entry_usable e p = cached-at _ client (trim_space write_key) r w e h p

  plain_304 :
      (key : Text) (r : HttpResolver) (w : W) (response : Response)
      → (client.do_request (resolve_request r key []) w).0 ≡ ok response
      → response.status_code ≡ 304
      → (resolve_from client none key r w).0 ≡ ok zero_source
  unfolding resolve_from fetch_source interpret keep_fetched
  plain_304 key r w response answer modified = ground arith

  -- On a lookup that finds no cache entry, a 304 answer of the control plane is returned as a
  -- success: the source is the zero SourceConfig, which no check has passed.
  pub resolve_source_unconditional_304 :
      (write_key : Text) (r : HttpResolver) (w : W) (response : Response)
      → trim_space write_key ≢ []
      → find (trim_space write_key) r.cache ≡ none
      → (client.do_request (resolve_request r (trim_space write_key) []) w).0 ≡ ok response
      → response.status_code ≡ 304
      → (resolve_source client write_key r w).0 ≡ ok zero_source
  unfolding resolve_source cached resolve_request
  resolve_source_unconditional_304 write_key r w response set miss answer modified =
      elim (Bool-cases (leb_ℤ r.cache_ttl (pos 0))) [
        | inl off ↦
            ground (arith, off, plain_304 (trim_space write_key) r w response answer modified)
        | inr on ↦ ground (
          arith,
          on,
          plain_304 (trim_space write_key)
              (record r { cache = without (trim_space write_key) r.cache }) w response answer
              modified,
        )
      ]

-- ===== src/ControlPlane/Http/Revalidated.antt =====
-- internal/controlplane/http_resolver.go: a lookup that starts from backed entries gives the
-- current answer of the control plane.
use anaysitics_service.Base.{
  false, ◌&&◌, ◌==◌, nat_eq, ◌≡◌, ◌≢◌, refl, sym, ap, ◌∙◌, inl, inr, [], ◌∷◌, Option, none, some,
  Result, ok, err, ◌>>=◌, if◌then◌else◌, arith, Bool-cases, Result-cases,
}
use anaysitics_service.Base.Text.{Text, Text_eq, text_eq_iff, CaseTable, is_empty, trim_space}
use anaysitics_service.Base.Text.Trim.{trim_space_idem}
use anaysitics_service.ControlPlane.Source.{SourceConfig}
use anaysitics_service.ControlPlane.Validate.{Error}
use anaysitics_service.ControlPlane.Http.{
  CachedSourceConfig, HttpResolver, ControlPlaneClient, Response, Fetched, decode_runtime_source,
  resolve_request, interpret, fetch_source, keep_fetched, keep_revalidated, resolve_from,
}
use anaysitics_service.ControlPlane.Http.Decode.{interpret-IsUsable}
use anaysitics_service.ControlPlane.Http.Entries.{
  keep_fetched-AllEntries, keep_revalidated-AllEntries,
}
use anaysitics_service.ControlPlane.Http.Honest.{conditional, IsHonest, Backed, AllBacked}

module _ {W : Type 0} (client : ControlPlaneClient W) (answer : W → Text → Result Error Response)
    ⦃cases : CaseTable⦄ where
  -- The source, or the error, in an answer without a condition.
  abbrev pub plain : Text → Result Error Response → Result Error SourceConfig
  plain key reply = do response ← reply; f ← interpret client key response; ok f.source

  keep_fetched-plain :
      (key : Text) (reply : Result Error Response) (r : HttpResolver) (w : W)
      → (keep_fetched client key (do response ← reply; interpret client key response) r w).0
        ≡ plain key reply
  unfolding keep_fetched
  keep_fetched-plain key (err e) r w = refl
  keep_fetched-plain key (ok response) r w = elim (Result-cases (interpret client key response)) [
    | inl (f, p) ↦ rw p
    | inr (e, p) ↦ rw p
  ]

  -- A response without a condition that becomes a source is a 200 answer.
  interpret_new :
      (key : Text) (a : Response) (f : Fetched)
      → interpret client key a ≡ ok f
      → f.not_modified ≡ false
      → (a.status_code ≡ 200)
        × (trim_space a.etag ≡ f.etag)
        × (decode_runtime_source client a.body key ≡ ok f.source)
  unfolding interpret
  interpret_new key a f h n = elim (Result-cases (decode_runtime_source client a.body key)) [
    | inl (s, p) ↦ (ground arith, ground arith, ground arith)
    | inr (e, p) ↦ absurd (ground arith)
  ]

  modified_304 :
      (key : Text) (a : Response) (f : Fetched)
      → a.status_code ≡ 304
      → interpret client key a ≡ ok f
      → f.not_modified ≡ false
      → ⊥
  unfolding interpret
  modified_304 key a f status h n = ground arith

  interpret-Backed :
      (w : W) (key : Text) (a : Response) (f : Fetched)
      → answer w key ≡ ok a
      → interpret client key a ≡ ok f
      → f.not_modified ≡ false
      → Backed client answer key f.source (trim_space f.etag)
  interpret-Backed w key a f said h n =
      let (status, tag, decoded) = interpret_new key a f h n in
      record {
        seen =
            λ _. (w, a, said, status, (sym (trim_space_idem a.etag) ∙ ap trim_space tag), decoded);
      }

  conditional-Backed :
      (tag : Option Text) (w : W) (key : Text) (reply : Result Error Response) (f : Fetched)
      → answer w key ≡ reply
      → (do response ← conditional tag reply; interpret client key response) ≡ ok f
      → f.not_modified ≡ false
      → Backed client answer key f.source (trim_space f.etag)
  conditional-Backed none w key (err e) f said h n = absurd (cc)
  conditional-Backed none w key (ok a) f said h n = interpret-Backed w key a f said h n
  conditional-Backed (some tag) w key (err e) f said h n = absurd (cc)
  conditional-Backed (some tag) w key (ok a) f said h n =
      elim (Bool-cases (nat_eq a.status_code 200 && trim_space a.etag == tag)) [
        | inl same ↦
            absurd
              (modified_304 key (record a { status_code = 304; body = [] }) f refl (rw same at h) n)
        | inr other ↦ interpret-Backed w key a f said (rw other at h) n
      ]

  keep_revalidated-plain :
      (entry : CachedSourceConfig) (key : Text) (response : Response) (r : HttpResolver) (w : W)
      → response.status_code ≢ 304
      → (keep_revalidated client entry key (interpret client key response) r w).0
        ≡ plain key (ok response)
  unfolding keep_revalidated
  keep_revalidated-plain entry key response r w n =
      elim (Result-cases (interpret client key response)) [
        | inl (f, p) ↦ rw p (rw (interpret-IsUsable client key response f p n).1)
        | inr (e, p) ↦ rw p
      ]

  module _ (honest : IsHonest client answer) where
    resolve_plain :
        (key : Text) (r : HttpResolver) (w : W)
        → (resolve_from client none key r w).0 ≡ plain key (answer w key)
    unfolding resolve_from fetch_source resolve_request trim_space
    resolve_plain key r w =
        rw (honest.asked (resolve_request r key []) w) (keep_fetched-plain key (answer w key) r _)

    -- A confirmed entry has the source of the current answer.
    confirmed :
        (w : W) (key : Text) (a : Response) (source : SourceConfig) (tag : Text)
        → answer w key ≡ ok a
        → a.status_code ≡ 200
        → trim_space a.etag ≡ tag
        → tag ≢ []
        → Backed client answer key source tag
        → plain key (ok a) ≡ ok source
    unfolding interpret
    confirmed w key a source tag said status same set back =
        let (v, b, before, status', tag', decoded) = back.seen set in
        let body =
          honest.same_tag w v key a b said before status status' (same ∙ sym tag')
            (λ e. set (sym tag' ∙ e)) in
        rw status (rw body (rw decoded))

    conditional-plain :
        (tag : Option Text) (entry : CachedSourceConfig) (key : Text)
        (reply : Result Error Response) (r : HttpResolver) (w v : W)
        → answer w key ≡ reply
        → ((t : Text) → tag ≡ some t → (t ≢ []) × Backed client answer key entry.source t)
        → (keep_revalidated client entry key
            (do response ← conditional tag reply; interpret client key response)
            r
            v).0
          ≡ plain key reply
    conditional-plain none entry key (err e) r w v said back = unfold keep_revalidated in refl
    conditional-plain none entry key (ok a) r w v said back =
        keep_revalidated-plain entry key a r v (honest.no_304 w key a said)
    conditional-plain (some tag) entry key (err e) r w v said back = unfold keep_revalidated in refl
    conditional-plain (some tag) entry key (ok a) r w v said back =
        elim (Bool-cases (nat_eq a.status_code 200 && trim_space a.etag == tag)) [
          | inl same ↦
              let both : (a.status_code ≡ 200) × (trim_space a.etag ≡ tag) =
                (ground arith, ground (arith, text_eq_iff (trim_space a.etag) tag)) in
              rw same (
                unfold keep_revalidated interpret in
                sym (
                  confirmed w key a entry.source tag said both.0 both.1 (back tag refl).0
                    (back tag refl).1))
          | inr other ↦
              rw other (keep_revalidated-plain entry key a r v (honest.no_304 w key a said))
        ]

    condition_of_text :
        (s t : Text) → (if is_empty s then none else some s) ≡ some t → (s ≡ t) × (t ≢ [])
    condition_of_text [] t h = absurd (cc)
    condition_of_text (c ∷ s) t h = (ground arith, λ e. absurd (ground arith))

    condition_of :
        (etag t : Text)
        → (if is_empty (trim_space etag) then none else some (trim_space etag)) ≡ some t
        → (trim_space etag ≡ t) × (t ≢ [])
    condition_of etag t h = condition_of_text (trim_space etag) t h

    pub resolve_from-plain :
        (o : Option CachedSourceConfig) (key : Text) (r : HttpResolver) (w : W)
        → ((e : CachedSourceConfig)
            → o ≡ some e
            → Backed client answer key e.source (trim_space e.etag))
        → (resolve_from client o key r w).0 ≡ plain key (answer w key)
    unfolding resolve_from fetch_source resolve_request
    resolve_from-plain none key r w back = resolve_plain key r w
    resolve_from-plain (some e) key r w back = rw (honest.asked (resolve_request r key e.etag) w) (
        conditional-plain _ e key (answer w key) r w _ refl
          (λ t h. let (tag, set) = condition_of e.etag t h in (set, (rw tag at (back e refl)))))

    fetched-Backed :
        (r : HttpResolver) (key etag : Text) (w : W) (f : Fetched)
        → (fetch_source client r key etag w).0 ≡ ok f
        → f.not_modified ≡ false
        → Backed client answer key f.source (trim_space f.etag)
    unfolding fetch_source resolve_request
    fetched-Backed r key etag w f h n =
        conditional-Backed (resolve_request r key etag).if_none_match w key (answer w key) f refl
          (rw (honest.asked (resolve_request r key etag) w) at h) n

    plain_fetched :
        (r : HttpResolver) (key : Text) (w : W) (f : Fetched)
        → (fetch_source client r key [] w).0 ≡ ok f
        → f.not_modified ≡ false
    unfolding fetch_source resolve_request trim_space
    plain_fetched r key w f h = elim (Result-cases (answer w key)) [
      | inl (a, said) ↦
          (interpret-IsUsable client key a f
            (rw (honest.asked (resolve_request r key []) w, said) at h)
            (honest.no_304 w key a said)).1
      | inr (e, said) ↦ absurd (cc (rw (honest.asked (resolve_request r key []) w, said) at h))
    ]

    pub resolve_from-AllBacked :
        (o : Option CachedSourceConfig) (key : Text) (r : HttpResolver) (w : W)
        → ((e : CachedSourceConfig)
            → o ≡ some e
            → Backed client answer key e.source (trim_space e.etag))
        → AllBacked client answer r
        → AllBacked client answer (resolve_from client o key r w).1
    unfolding resolve_from
    resolve_from-AllBacked none key r w back h =
        keep_fetched-AllEntries _ client key _ r _
          (λ f p. fetched-Backed r key [] w f p (plain_fetched r key w f p)) h
    resolve_from-AllBacked (some e) key r w back h =
        keep_revalidated-AllEntries _ client e key _ r _ (back e refl)
          (λ f p n. fetched-Backed r key e.etag w f p n) h

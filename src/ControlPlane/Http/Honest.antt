-- ===== src/ControlPlane/Http/Honest.antt =====
-- internal/controlplane/http_resolver.go: a control plane that keeps to the rules of entity tags,
-- and cache entries that its answers back.
use anaysitics_service.Base.{
  ◌&&◌, ◌==◌, nat_eq, ◌≡◌, ◌≢◌, [], Option, none, some, Result, ok, err, if◌then◌else◌,
}
use anaysitics_service.Base.Text.{Text, Text_eq, CaseTable, trim_space}
use anaysitics_service.ControlPlane.Source.{SourceConfig}
use anaysitics_service.ControlPlane.Validate.{Error}
use anaysitics_service.ControlPlane.Http.{
  HttpResolver, ControlPlaneClient, Request, Response, decode_runtime_source,
}
use anaysitics_service.ControlPlane.Http.Entries.{AllEntries}

-- An answer under If-None-Match: 304 where the tag is that of the current 200 answer.
abbrev pub conditional : Option Text → Result Error Response → Result Error Response
conditional none answer = answer
conditional (some tag) (err e) = err e
conditional (some tag) (ok response) =
    if nat_eq response.status_code 200 && trim_space response.etag == tag
    then ok (record response { status_code = 304; body = [] })
    else ok response

-- A control plane that keeps to the rules of entity tags. `answer` is what it says of a write key
-- without a condition, in each state of the world; the clock of the service does not change it.
pub record IsHonest {W : Type 0} (client : ControlPlaneClient W)
    (answer : W → Text → Result Error Response) : Type 0 where
  pub asked :
      (request : Request) (w : W)
      → (client.do_request request w).0
        ≡ conditional request.if_none_match (answer w request.write_key)
  pub clock : (w : W) (key : Text) → answer (client.now w).1 key ≡ answer w key
  pub no_304 :
      (w : W) (key : Text) (response : Response)
      → answer w key ≡ ok response
      → response.status_code ≢ 304
  pub same_tag :
      (v w : W) (key : Text) (a b : Response)
      → answer v key ≡ ok a
      → answer w key ≡ ok b
      → a.status_code ≡ 200
      → b.status_code ≡ 200
      → trim_space a.etag ≡ trim_space b.etag
      → trim_space b.etag ≢ []
      → a.body ≡ b.body

module _ {W : Type 0} (client : ControlPlaneClient W) (answer : W → Text → Result Error Response)
    ⦃cases : CaseTable⦄ where
  -- A 200 answer of the past had the tag and decoded to the source.
  pub record Backed (key : Text) (source : SourceConfig) (etag : Text) : Type 0 where
    pub seen :
        etag ≢ []
        → (v : W) × (a : Response) × (answer v key ≡ ok a)
          × (a.status_code ≡ 200)
          × (trim_space a.etag ≡ etag)
          × (decode_runtime_source client a.body key ≡ ok source)

  abbrev pub AllBacked : HttpResolver → Type 0
  AllBacked = AllEntries Backed

-- ===== src/CollectApi/Request/Carriers.antt =====
-- internal/collectapi/handler.go: which of its carriers a write key is taken from.
use anaysitics_service.Base.{not, List, [], ◌∷◌, ◌≡◌, refl, if◌then◌else◌}
use anaysitics_service.Base.Text.{Text, text, is_empty, trim_space, CaseTable}
use anaysitics_service.CollectApi.Request.{HttpRequest, bearer_token, write_key, query_write_key}

-- The first text that is not empty.
abbrev pub first_set : List Text → Text
first_set [] = []
first_set (x ∷ xs) = if is_empty x then first_set xs else x

last_carrier : (x : Text) → x ≡ first_set (x ∷ [])
last_carrier [] = refl
last_carrier (c ∷ x) = refl

next_carrier :
    (x rest : Text) (xs : List Text)
    → rest ≡ first_set xs
    → (if not (is_empty x) then x else rest) ≡ first_set (x ∷ xs)
next_carrier [] rest xs h = h
next_carrier (c ∷ x) rest xs h = refl

module _ ⦃cases : CaseTable⦄ where
  -- The collect route takes the key from the header of its own, the bearer token, the query and the
  -- body, in this order; the readback routes, whose bearer token is another secret, from the header
  -- and the query. Both ignore a carrier that is blank.
  pub write_key-first_set :
      (ctx : HttpRequest) (body_value : Text)
      → (write_key ctx body_value
          ≡ first_set (
              trim_space (ctx.header (text "X-SimpleTrack-Write-Key"))
              ∷ bearer_token (ctx.header (text "Authorization"))
              ∷ trim_space (ctx.query (text "write_key"))
              ∷ trim_space body_value
              ∷ []))
        × (query_write_key ctx
            ≡ first_set (
                trim_space (ctx.header (text "X-SimpleTrack-Write-Key"))
                ∷ trim_space (ctx.query (text "write_key"))
                ∷ []))
  unfolding write_key query_write_key
  write_key-first_set ctx body_value = (
    next_carrier own_header _ (bearer ∷ in_query ∷ in_body ∷ []) (
        next_carrier bearer _ (in_query ∷ in_body ∷ [])
          (next_carrier in_query _ (in_body ∷ []) (last_carrier in_body))),
    negated own_header in_query (in_query ∷ []) (last_carrier in_query),
  )
    where
      own_header : Text
      own_header = trim_space (ctx.header (text "X-SimpleTrack-Write-Key"))

      bearer : Text
      bearer = bearer_token (ctx.header (text "Authorization"))

      in_query : Text
      in_query = trim_space (ctx.query (text "write_key"))

      in_body : Text
      in_body = trim_space body_value

      negated :
          (x rest : Text) (xs : List Text)
          → rest ≡ first_set xs
          → (if is_empty x then rest else x) ≡ first_set (x ∷ xs)
      negated [] rest xs h = h
      negated (c ∷ x) rest xs h = refl

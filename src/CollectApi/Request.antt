-- ===== src/CollectApi/Request.antt =====
-- internal/collectapi/handler.go: what the handlers read of a request.
pub mod Carriers
use anaysitics_service.Base.{
  Bool, ◌||◌, not, ltb, nat_eq, List, [], ◌∷◌, Option, none, some, length, take, drop,
  if◌then◌else◌,
}
use mathlib.Core.Option
use anaysitics_service.Base.Text.{Text, text, is_empty, trim_space, CaseTable, equal_fold}

-- A request as the web framework gives it: a header or a query argument that is absent is empty,
-- and the arguments in their order with what repeats.
pub record HttpRequest : Type 0 where
  pub header : Text → Text
  pub query : Text → Text
  pub query_args : List (Text × Text)
  pub ip : Text
  pub path : Text
  pub body : Text

-- net/netip: the canonical text of an address, alone or with a port.
pub record AddressParser : Type 0 where
  pub parse_addr : Text → Option Text
  pub parse_addr_port : Text → Option Text

-- What is before the first comma, if there is one.
unfoldable pub cut_at_comma : Text → Option Text
cut_at_comma [] = none
cut_at_comma (c ∷ s) =
    let rest = Option.map (◌∷◌ c) (cut_at_comma s) in if nat_eq c b',' then some [] else rest

abbrev trimmed_or : Text → Option Text → Text
trimmed_or value none = value
trimmed_or value (some before) = trim_space before

-- firstHeaderValue
unfoldable pub first_header_value : Text → Text
first_header_value value = let value' = trim_space value in trimmed_or value' (cut_at_comma value')

module _ ⦃cases : CaseTable⦄ where
  -- bearerToken
  unfoldable pub bearer_token : Text → Text
  bearer_token value =
      let value' = trim_space value in
      if ltb (length value') 7 || not (equal_fold (take 7 value') (text "Bearer "))
      then []
      else trim_space (drop 7 value')

-- requestOrigin
unfoldable pub request_origin : HttpRequest → Text
request_origin ctx = trim_space (ctx.header (text "Origin"))

-- Handler.queryWriteKey
unfoldable pub query_write_key : HttpRequest → Text
query_write_key ctx =
    let value = trim_space (ctx.header (text "X-SimpleTrack-Write-Key")) in
    if is_empty value then trim_space (ctx.query (text "write_key")) else value

module _ ⦃cases : CaseTable⦄ where
  -- Handler.writeKey
  unfoldable pub write_key : HttpRequest → Text → Text
  write_key ctx body_value =
      let in_header = trim_space (ctx.header (text "X-SimpleTrack-Write-Key")) in
      let bearer = bearer_token (ctx.header (text "Authorization")) in
      let in_query = trim_space (ctx.query (text "write_key")) in
      if not (is_empty in_header)
      then in_header
      else if not (is_empty bearer)
      then bearer
      else if not (is_empty in_query)
      then in_query
      else trim_space body_value

module _ (parser : AddressParser) where
  abbrev or_empty : Option Text → Text
  or_empty none = []
  or_empty (some addr) = addr

  abbrev addr_or_port : Option Text → Text → Text
  addr_or_port (some addr) value = addr
  addr_or_port none value = or_empty (parser.parse_addr_port value)

  -- canonicalClientIP
  unfoldable pub canonical_client_ip : Text → Text
  canonical_client_ip value =
      let value' = trim_space value in
      if is_empty value' then [] else addr_or_port (parser.parse_addr value') value'

  -- The address that a header gives, if it gives one.
  unfoldable pub forwarded_ip : Text → Text
  forwarded_ip value = if is_empty value then [] else canonical_client_ip value

  -- Handler.clientIP
  unfoldable pub client_ip : Bool → HttpRequest → Text
  client_ip trust_forwarded_headers ctx =
      let forwarded = forwarded_ip (first_header_value (ctx.header (text "X-Forwarded-For"))) in
      let real_ip = forwarded_ip (trim_space (ctx.header (text "X-Real-IP"))) in
      if trust_forwarded_headers
      then (if not (is_empty forwarded)
          then forwarded
          else if not (is_empty real_ip)
          then real_ip
          else canonical_client_ip ctx.ip)
      else canonical_client_ip ctx.ip

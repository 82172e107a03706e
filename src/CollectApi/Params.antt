-- ===== src/CollectApi/Params.antt =====
-- internal/collectapi/query.go: the query arguments of the readback routes.
pub mod Bounds
use anaysitics_service.Base.{
  ℕ, ◌&&◌, not, ◌*◌, ◌++◌, ◌==◌, [], Option, none, some, Result, ok, err, ◌>>=◌, if◌then◌else◌,
}
use anaysitics_service.Base.Int.{ℤ, pos, ltb_ℤ}
use anaysitics_service.Base.Text.{Text, Text_eq, text, is_empty, trim_space, CaseTable, to_lower}
use anaysitics_service.Base.Text.Decimal.{itoa, atoi}
use anaysitics_service.ControlPlane.Source.{minute}
use anaysitics_service.CollectApi.Request.{HttpRequest}
use anaysitics_service.CollectApi.Handler.{Codecs, ErrorReply, reply}

abbrev pub default_realtime_window : ℕ
default_realtime_window = 30 * minute

abbrev pub default_realtime_query_cap : ℤ
default_realtime_query_cap = pos 50

abbrev pub default_events_query_cap : ℤ
default_events_query_cap = pos 100

abbrev pub default_property_catalog_limit : ℤ
default_property_catalog_limit = pos 100

abbrev pub max_property_catalog_limit : ℤ
max_property_catalog_limit = pos 200

abbrev pub Parsed : Type 0 → Type 0
Parsed A = Result Text A

module _ (codecs : Codecs) where
  parsed_by : Option ℤ → Option ℤ → Parsed ℤ
  parsed_by (some time) second_try = ok time
  parsed_by none (some time) = ok time
  parsed_by none none = err (text "time must use RFC3339 or RFC3339Nano")

  -- parseTimeValue
  unfoldable pub parse_time_value : Text → Parsed ℤ
  unfolding parsed_by
  parse_time_value value = parsed_by (codecs.parse_rfc3339_nano value) (codecs.parse_rfc3339 value)

  -- parseRequiredQueryTime
  unfoldable pub parse_required_query_time : HttpRequest → Text → Parsed ℤ
  parse_required_query_time ctx key =
      let value = trim_space (ctx.query key) in
      if is_empty value then err (key ++ text " is required") else parse_time_value value

  -- parseQueryTimeOrDefault
  unfoldable pub parse_query_time_or_default : HttpRequest → Text → ℤ → Parsed ℤ
  parse_query_time_or_default ctx key fallback =
      let value = trim_space (ctx.query key) in
      if is_empty value then ok fallback else parse_time_value value

-- The check of the number that strconv.Atoi read.
unfoldable pub at_least : Text → ℕ → Option ℤ → Parsed ℤ
at_least key min none = err (key ++ text " must be an integer")
at_least key min (some parsed) =
    if ltb_ℤ parsed (pos min)
    then err (key ++ text " must be greater than or equal to " ++ itoa min)
    else ok parsed

-- normalizeQueryIntOrDefault
unfoldable pub normalize_query_int_or_default : HttpRequest → Text → ℤ → ℕ → Parsed ℤ
normalize_query_int_or_default ctx key fallback min =
    let value = trim_space (ctx.query key) in
    if is_empty value then ok fallback else at_least key min (atoi value)

-- parseQueryLimitOrDefault
unfoldable pub parse_query_limit_or_default : HttpRequest → Text → ℤ → Parsed ℤ
parse_query_limit_or_default ctx key fallback = normalize_query_int_or_default ctx key fallback 1

-- parseQueryIntOrDefault
unfoldable pub parse_query_int_or_default : HttpRequest → Text → ℤ → Parsed ℤ
parse_query_int_or_default ctx key fallback = normalize_query_int_or_default ctx key fallback 0

abbrev pub within_catalog : ℤ → Parsed ℤ
within_catalog limit =
    if ltb_ℤ max_property_catalog_limit limit
    then err (text "limit must be less than or equal to " ++ itoa 200)
    else ok limit

-- parsePropertyCatalogLimit
unfoldable pub parse_property_catalog_limit : HttpRequest → Parsed ℤ
parse_property_catalog_limit ctx =
    parse_query_limit_or_default ctx (text "limit") default_property_catalog_limit
    >>= within_catalog

module _ ⦃cases : CaseTable⦄ where
  -- parsePropertyCatalogScope
  unfoldable pub parse_property_catalog_scope : HttpRequest → Parsed Text
  parse_property_catalog_scope ctx =
      let value = to_lower (trim_space (ctx.query (text "scope"))) in
      if is_empty value
      then ok []
      else if not (value == text "event") && not (value == text "user")
      then err (text "scope must be event or user")
      else ok value

-- A parameter that does not parse is answered with status 400.
unfoldable pub or_bad_request : {A : Type 0} → Parsed A → Result ErrorReply A
or_bad_request (ok a) = ok a
or_bad_request (err message) = err (reply 400 message)

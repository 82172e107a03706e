-- ===== src/CollectApi/Params/Bounds.antt =====
-- internal/collectapi/query.go: the numbers that reach a store are in their bounds.
use anaysitics_service.Base.{
  ℕ, ◌≤◌, ◌≡◌, refl, Option, none, some, ok, Yields, Yields-ok, Yields-err, Yields-if, Yields-bind,
  arith,
}
use anaysitics_service.Base.Int.{ℤ, pos, negsuc, ltb_ℤ}
use anaysitics_service.Base.Text.{Text, text, is_empty, trim_space}
use anaysitics_service.CollectApi.Request.{HttpRequest}
use anaysitics_service.CollectApi.Params.{
  max_property_catalog_limit, parse_query_int_or_default, default_property_catalog_limit, at_least,
  normalize_query_int_or_default, parse_query_limit_or_default, within_catalog,
  parse_property_catalog_limit,
}

-- A number that is at least the bound.
abbrev AtLeast : ℕ → ℤ → Type 0
AtLeast min n = (m : ℕ) × (n ≡ pos m) × (min ≤ m)

at_least-AtLeast : (key : Text) (min : ℕ) (n : Option ℤ) → Yields (AtLeast min) (at_least key min n)
unfolding at_least
at_least-AtLeast key min none = Yields-err _
at_least-AtLeast key min (some (pos m)) =
    Yields-if (ltb_ℤ (pos m) (pos min)) (λ low. Yields-err _)
      (λ fine. Yields-ok _ (m, refl, ground arith))
at_least-AtLeast key min (some (negsuc m)) =
    Yields-if (ltb_ℤ (negsuc m) (pos min)) (λ low. Yields-err _) (λ fine. absurd (ground arith))

normalize_query_int-AtLeast :
    (ctx : HttpRequest) (key : Text) (fallback : ℤ) (min : ℕ)
    → AtLeast min fallback
    → Yields (AtLeast min) (normalize_query_int_or_default ctx key fallback min)
unfolding normalize_query_int_or_default
normalize_query_int-AtLeast ctx key fallback min h =
    Yields-if (is_empty (trim_space (ctx.query key))) (λ blank. Yields-ok _ h)
      (λ set. at_least-AtLeast key min _)

-- A limit is positive and an offset is not negative, given that the default is so.
pub parse_query_int_bounds :
    (ctx : HttpRequest) (key : Text) (fallback : ℕ) (limit offset : ℤ)
    → 1 ≤ fallback
    → parse_query_limit_or_default ctx key (pos fallback) ≡ ok limit
    → parse_query_int_or_default ctx key (pos fallback) ≡ ok offset
    → ((m : ℕ) × (limit ≡ pos m) × (1 ≤ m)) × ((m : ℕ) × (offset ≡ pos m))
unfolding parse_query_limit_or_default parse_query_int_or_default
parse_query_int_bounds ctx key fallback limit offset positive p q =
    let (m, e, le) =
      (normalize_query_int-AtLeast ctx key (pos fallback) 1 (fallback, refl, positive)).holds limit
        p in
    let (n, e', le') =
      (normalize_query_int-AtLeast ctx key (pos fallback) 0 (fallback, refl, omega arith)).holds
        offset q in
    ((m, e, le), (n, e'))

abbrev InCatalog : ℤ → Type 0
InCatalog limit = (m : ℕ) × (limit ≡ pos m) × (1 ≤ m) × (m ≤ 200)

within_catalog-InCatalog : (n : ℤ) → AtLeast 1 n → Yields InCatalog (within_catalog n)
within_catalog-InCatalog n (m, e, low) = rw e (
    Yields-if (ltb_ℤ max_property_catalog_limit (pos m)) (λ high. Yields-err _)
      (λ fine. Yields-ok _ (m, refl, low, ground arith)))

-- The limit of a catalog query is between 1 and 200.
pub parse_property_catalog_limit_bounds :
    (ctx : HttpRequest) (limit : ℤ)
    → parse_property_catalog_limit ctx ≡ ok limit
    → (m : ℕ) × (limit ≡ pos m) × (1 ≤ m) × (m ≤ 200)
unfolding parse_property_catalog_limit parse_query_limit_or_default
parse_property_catalog_limit_bounds ctx limit h =
    (Yields-bind (parse_query_limit_or_default ctx (text "limit") default_property_catalog_limit)
        within_catalog (normalize_query_int-AtLeast ctx _ _ 1 (100, refl, omega arith))
        within_catalog-InCatalog).holds
      limit h

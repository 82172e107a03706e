-- ===== src/CollectApi/Filters/Admitted.antt =====
-- internal/collectapi/query.go: the property filters that reach the store are allowed by the source.
use anaysitics_service.Base.{
  ltb, ℕ, suc, ◌≤◌, ◌≡◌, refl, ◌⊎◌, List, [], ◌∷◌, Option, none, some, Result, ok, err, Yields,
  Yields-ok, Yields-err, Yields-if, Yields-bind, ap, sym, arith, true, false, length, All, not,
  ◌||◌, ◌&&◌, ◌==◌,
}
use anaysitics_service.Base.Text.{
  Text, Text_eq, text, text_eq_iff, is_empty, trim_space, CaseTable, to_lower,
}
use anaysitics_service.Base.Text.Case.{lower_trim_idem}
use anaysitics_service.Base.Text.Trim.{trim_space_idem}
use anaysitics_service.ControlPlane.Source.{SourceConfig}
use anaysitics_service.ControlPlane.Policy.{allows_property_filter}
use anaysitics_service.CollectApi.Request.{HttpRequest}
use anaysitics_service.CollectApi.Storage.{EventPropertyFilter}
use anaysitics_service.CollectApi.Handler.{
  Codecs, JsonValue, json_string, json_number, json_bool, PropertyFilterPayload,
}
use anaysitics_service.CollectApi.Filters.{
  property_filter_args, bare_filter, set_string, set_number, set_bool, assign_property_filter_value,
  filter_result, check_property_filter, admit_property_filter, parse_property_filter, parse_each,
  parse_property_filters,
}

-- The value was put in a slot; the selector and the operator stay.
abbrev SameShape : EventPropertyFilter → EventPropertyFilter → Type 0
SameShape a b =
    (a.scope ≡ b.scope)
    × (a.name ≡ b.name)
    × (a.value_type ≡ b.value_type)
    × (a.operator ≡ b.operator)

set-SameShape :
    (filter : EventPropertyFilter) (value : JsonValue)
    → Yields (SameShape filter) (set_string filter value)
      × Yields (SameShape filter) (set_number filter value)
      × Yields (SameShape filter) (set_bool filter value)
unfolding set_string set_number set_bool
set-SameShape filter (json_string v) =
    (Yields-ok _ (refl, refl, refl, refl), Yields-err _, Yields-err _)
set-SameShape filter (json_number v) =
    (Yields-err _, Yields-ok _ (refl, refl, refl, refl), Yields-err _)
set-SameShape filter (json_bool v) =
    (Yields-err _, Yields-err _, Yields-ok _ (refl, refl, refl, refl))
set-SameShape filter other = (Yields-err _, Yields-err _, Yields-err _)

assign-SameShape :
    (codecs : Codecs) (filter : EventPropertyFilter) (value : JsonValue)
    → Yields (SameShape filter) (assign_property_filter_value codecs filter value)
unfolding assign_property_filter_value
assign-SameShape codecs filter value =
    let (on_string, on_number, on_bool) = set-SameShape filter value in
    Yields-if (filter.value_type == text "null") (λ e. Yields-ok _ (refl, refl, refl, refl))
      (λ e.
        Yields-if (filter.value_type == text "string") (λ e. on_string)
          (λ e.
            Yields-if (filter.value_type == text "number") (λ e. on_number)
              (λ e.
                Yields-if (filter.value_type == text "bool") (λ e. on_bool) (λ e. Yields-err _))))

module _ ⦃cases : CaseTable⦄ (codecs : Codecs) (source : SourceConfig) where
  -- A filter that the source allows, with one of the two operators and a normalised selector.
  abbrev pub IsAdmitted : EventPropertyFilter → Type 0
  IsAdmitted f =
      (allows_property_filter source f.scope f.name f.value_type ≡ true)
      × ((f.operator ≡ text "eq") ⊎ (f.operator ≡ text "neq"))
      × (to_lower (trim_space f.scope) ≡ f.scope)
      × (trim_space f.name ≡ f.name)

  filled-IsAdmitted :
      (idx : ℕ) (filter : EventPropertyFilter) (value : JsonValue)
      → IsAdmitted filter
      → Yields IsAdmitted
          (filter_result codecs idx (assign_property_filter_value codecs filter value))
  filled-IsAdmitted idx filter value (allowed, op, scoped, named) =
      go (assign_property_filter_value codecs filter value) (assign-SameShape codecs filter value)
    where
      go :
          (r : Result Text EventPropertyFilter)
          → Yields (SameShape filter) r
          → Yields IsAdmitted (filter_result codecs idx r)
      go (ok filled) y =
          let (s, n, t, o) = y.holds filled refl in
          Yields-ok filled (
            rw (sym s) (rw (sym n) (rw (sym t) allowed)),
            rw (sym o) op,
            rw (sym s) scoped,
            rw (sym n) named,
          )
      go (err e) y = Yields-err _

  check-IsAdmitted :
      (idx : ℕ) (scope name value_type operator : Text) (value : JsonValue)
      → to_lower (trim_space scope) ≡ scope
      → trim_space name ≡ name
      → Yields IsAdmitted
          (check_property_filter codecs source idx scope name value_type operator value)
  unfolding check_property_filter
  check-IsAdmitted idx scope name value_type operator value scoped trimmed =
      Yields-if (is_empty scope || is_empty name || is_empty value_type) (λ missing. Yields-err _)
        (λ named.
          Yields-if (not (operator == text "eq") && not (operator == text "neq"))
            (λ unsupported. Yields-err _)
            (λ supported.
              Yields-if (not (allows_property_filter source scope name value_type))
                (λ foreign. Yields-err _)
                (λ allowed.
                  filled-IsAdmitted idx (bare_filter scope name value_type operator) value
                    (ground arith, one_operator supported, scoped, trimmed))))
    where
      one_operator :
          not (operator == text "eq") && not (operator == text "neq") ≡ false
          → (operator ≡ text "eq") ⊎ (operator ≡ text "neq")
      one_operator supported =
          ground (arith, text_eq_iff operator (text "eq"), text_eq_iff operator (text "neq"))

  admit-IsAdmitted :
      (idx : ℕ) (payload : Option PropertyFilterPayload)
      → Yields IsAdmitted (admit_property_filter codecs source idx payload)
  unfolding admit_property_filter
  admit-IsAdmitted idx none = Yields-err _
  admit-IsAdmitted idx (some payload) =
      check-IsAdmitted idx _ _ _ _ payload.value (lower_trim_idem payload.scope)
        (trim_space_idem payload.name)

  parse_each_sound :
      (idx : ℕ) (raw : List Text)
      → Yields
          (λ filters. (length filters ≡ length raw) × All IsAdmitted filters)
          (parse_each codecs source idx raw)
  unfolding parse_each parse_property_filter
  parse_each_sound idx [] = Yields-ok _ (refl, tt)
  parse_each_sound idx (r ∷ raw) =
      Yields-bind _ _ (admit-IsAdmitted idx (codecs.decode_property_filter r)) (λ f admitted.
        Yields-bind _ _ (parse_each_sound (suc idx) raw)
          (λ filters (same, all). Yields-ok _ (ap suc same, (admitted, all))))

  -- What parsePropertyFilters returns: one filter for each argument, at most five, and each with a
  -- normalised selector and a value type that the source allows and one of the two operators.
  pub parse_property_filters_sound :
      (ctx : HttpRequest) (filters : List EventPropertyFilter)
      → parse_property_filters codecs source ctx ≡ ok filters
      → (length filters ≡ length (property_filter_args ctx.query_args))
        × (length filters ≤ 5)
        × All IsAdmitted filters
  unfolding parse_property_filters
  parse_property_filters_sound ctx filters h =
      (Yields-if
          {Q = λ filters.
            (length filters ≡ length raw) × (length filters ≤ 5) × All IsAdmitted filters}
          (ltb 5 (length raw)) (λ many. Yields-err _)
          (λ few. record {
            holds = λ filters h.
                let (same, all) = (parse_each_sound 0 raw).holds filters h in
                (same, few_enough few same, all);
          })).holds
        filters h
    where
      raw : List Text
      raw = property_filter_args ctx.query_args

      few_enough : {n : ℕ} → ltb 5 (length raw) ≡ false → n ≡ length raw → n ≤ 5
      few_enough few same = ground arith

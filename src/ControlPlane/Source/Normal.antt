-- ===== src/ControlPlane/Source/Normal.antt =====
-- internal/controlplane/resolver.go: normalising twice changes nothing.
use anaysitics_service.Base.{
  true, ◌≡◌, refl, ap, ◌∙◌, List, [], ◌∷◌, map, Option, none, some, arith, inl, inr, Bool-cases,
  All,
}
use anaysitics_service.Base.Distinct.{distinct-Fresh, distinct_stable, All-distinct}
use anaysitics_service.Base.Int.{ℤ, pos, ltb_ℤ}
use anaysitics_service.Base.Text.{Text, Text_eq, text, is_empty, trim_space, CaseTable, to_lower}
use anaysitics_service.Base.Text.Trim.{trim_space_idem}
use anaysitics_service.Base.Text.Case.{to_lower_idem, trim_space-to_lower, lower_trim_idem}
use anaysitics_service.ControlPlane.Source.{
  AllowedPropertyFilter, SourceConfig, normalize_visit_window, trimmed, append_some,
  normalize_string_list, normalize_lower_string_list, normalize_filter, filter_key,
  default_source_type, normalize_allowed_property_filters, normalize,
}

-- The window of a normalised source is positive, also where the product of the seconds wraps.
pub normalize_visit_window_pos :
    (window seconds : ℤ) → ltb_ℤ (pos 0) (normalize_visit_window window seconds) ≡ true
unfolding normalize_visit_window
normalize_visit_window_pos window seconds = ground arith

normalize_visit_window_keeps :
    (window seconds : ℤ)
    → ltb_ℤ (pos 0) window ≡ true
    → normalize_visit_window window seconds ≡ window
unfolding normalize_visit_window
normalize_visit_window_keeps window seconds h = ground arith

trimmed_stable : (value value' : Text) → trimmed value ≡ some value' → trimmed value' ≡ some value'
unfolding trimmed
trimmed_stable value value' h = ground (arith, trim_space_idem value)

normalize_visit_window_idem :
    (window seconds again : ℤ)
    → normalize_visit_window (normalize_visit_window window seconds) again
      ≡ normalize_visit_window window seconds
normalize_visit_window_idem window seconds again =
    normalize_visit_window_keeps _ again (normalize_visit_window_pos window seconds)

-- Texts that trimming leaves alone, none of them blank.
abbrev pub AllTrimmed : List Text → Type 0
AllTrimmed = All (λ value. trimmed value ≡ some value)

append_some-AllTrimmed :
    (o : Option Text) (out : List Text)
    → ((a : Text) → o ≡ some a → trimmed a ≡ some a)
    → AllTrimmed out
    → AllTrimmed (append_some o out)
append_some-AllTrimmed none out h p = p
append_some-AllTrimmed (some a) out h p = (h a refl, p)

pub normalize_string_list-AllTrimmed :
    (values : List Text) → AllTrimmed (normalize_string_list values)
unfolding normalize_string_list
normalize_string_list-AllTrimmed [] = tt
normalize_string_list-AllTrimmed (value ∷ values) =
    append_some-AllTrimmed (trimmed value) _ (trimmed_stable value)
      (normalize_string_list-AllTrimmed values)

normalize_string_list_stable :
    (values : List Text) → AllTrimmed values → normalize_string_list values ≡ values
unfolding normalize_string_list
normalize_string_list_stable [] h = refl
normalize_string_list_stable (value ∷ values) h =
    rw h.0 (ap (◌∷◌ value) (normalize_string_list_stable values h.1))

pub normalize_string_list_idem :
    (values : List Text)
    → normalize_string_list (normalize_string_list values) ≡ normalize_string_list values
normalize_string_list_idem values =
    normalize_string_list_stable _ (normalize_string_list-AllTrimmed values)

default_source_type_idem :
    (t : Text)
    → default_source_type (trim_space (default_source_type (trim_space t)))
      ≡ default_source_type (trim_space t)
unfolding default_source_type
default_source_type_idem t = elim (Bool-cases (is_empty (trim_space t))) [
  | inl e ↦ rw e (web_stays)
  | inr e ↦ rw e (rw (trim_space_idem t) (rw e))
]
  where
    web_stays : default_source_type (trim_space (text "web")) ≡ text "web"
    web_stays = unfold text trim_space in refl

module _ ⦃cases : CaseTable⦄ where
  trimmed-to_lower :
      (value : Text) → trimmed value ≡ some value → trimmed (to_lower value) ≡ some (to_lower value)
  trimmed-to_lower [] h = absurd (unfold trimmed trim_space in cc h)
  trimmed-to_lower (c ∷ s) h =
      unfold trimmed in
      rw (trim_space-to_lower (c ∷ s)) (unfold trimmed to_lower in ground (arith, h))

  map-to_lower-AllTrimmed :
      (values : List Text) → AllTrimmed values → AllTrimmed (map to_lower values)
  map-to_lower-AllTrimmed [] h = tt
  map-to_lower-AllTrimmed (value ∷ values) h =
      (trimmed-to_lower value h.0, map-to_lower-AllTrimmed values h.1)

  map-to_lower_idem :
      (values : List Text) → map to_lower (map to_lower values) ≡ map to_lower values
  map-to_lower_idem [] = refl
  map-to_lower_idem (value ∷ values) = cc (to_lower_idem value, map-to_lower_idem values)

  lower_list_idem :
      (values : List Text)
      → normalize_lower_string_list (normalize_lower_string_list values)
        ≡ normalize_lower_string_list values
  unfolding normalize_lower_string_list
  lower_list_idem values =
      ap (map to_lower) (
        normalize_string_list_stable _
          (map-to_lower-AllTrimmed _ (normalize_string_list-AllTrimmed values)))
      ∙ map-to_lower_idem (normalize_string_list values)

  normalize_filter_stable :
      (value value' : AllowedPropertyFilter)
      → normalize_filter value ≡ some value'
      → normalize_filter value' ≡ some value'
  unfolding normalize_filter
  normalize_filter_stable value value' h = ground (
    arith,
    lower_trim_idem value.scope,
    trim_space_idem value.name,
    lower_list_idem value.value_types,
  )

  pub normalize_allowed_property_filters_idem :
      (values : List AllowedPropertyFilter)
      → normalize_allowed_property_filters (normalize_allowed_property_filters values)
        ≡ normalize_allowed_property_filters values
  unfolding normalize_allowed_property_filters
  normalize_allowed_property_filters_idem values =
      distinct_stable normalize_filter filter_key [] _
        (distinct-Fresh normalize_filter filter_key [] values)
        (All-distinct normalize_filter filter_key (λ b. normalize_filter b ≡ some b)
          normalize_filter_stable [] values)

  -- Normalising a source configuration twice gives what normalising it once gives.
  pub normalize_idem : (c : SourceConfig) → normalize (normalize c) ≡ normalize c
  unfolding normalize
  normalize_idem c = simp (
    trim_space_idem, default_source_type_idem, normalize_string_list_idem,
    normalize_allowed_property_filters_idem, normalize_visit_window_idem,
  )

-- ===== src/Geoip/Chosen.antt =====
-- internal/geoip/resolver.go: which name a node goes by, without the code that chooses it.
use anaysitics_service.Base.{
  ◌≡◌, ◌≢◌, refl, sym, ap, ◌∙◌, ◌↔◌, ◌⊎◌, List, [], ◌∷◌, arith, some, none, Option-cases, inl, inr,
}
use anaysitics_service.Base.Table.{find}
use anaysitics_service.Base.Text.{Text, text, trim_left, trim_right, trim_space}
use anaysitics_service.Geoip.{
  GeoLocation, Names, SubdivisionRecord, CityRecord, name_in, first_entry, first_name,
  first_subdivision_name, location_of,
}

-- The map has a name for the locale which is, trimmed, the value; and the value is not blank.
abbrev pub Says : Text → Names → Text → Type 0
Says locale names v =
    ((raw : Text) × (find locale names ≡ some raw) × (trim_space raw ≡ v)) × (v ≢ [])

-- There is no name for the locale, or it is blank.
abbrev pub IsSilent : Text → Names → Type 0
IsSilent locale names =
    (find locale names ≡ none)
    ⊎ ((raw : Text) × (find locale names ≡ some raw) × (trim_space raw ≡ []))

-- The first name of a list that is not blank, trimmed; or nothing, if all are blank.
abbrev pub IsFirst : Names → Text → Type 0
IsFirst [] v = v ≡ []
IsFirst ((locale, name) ∷ rest) v =
    ((trim_space name ≢ []) × (trim_space name ≡ v)) ⊎ ((trim_space name ≡ []) × IsFirst rest v)

-- The English name; without one the Chinese name; without either the code; and without a code the first
-- name in the order of `walk`.
abbrev pub IsChosen : (Names → Names) → Names → Text → Text → Type 0
IsChosen walk names code v =
    Says (text "en") names v
    ⊎ (IsSilent (text "en") names
        × (Says (text "zh-CN") names v
            ⊎ (IsSilent (text "zh-CN") names
                × (((trim_space code ≢ []) × (trim_space code ≡ v))
                    ⊎ ((trim_space code ≡ []) × IsFirst (walk names) v)))))

-- The name of the first subdivision, if there is one.
abbrev pub IsRegion : (Names → Names) → List SubdivisionRecord → Text → Type 0
IsRegion walk [] v = v ≡ []
IsRegion walk (s ∷ ss) v = IsChosen walk s.names s.iso_code v

-- The location has the names of the record's country, first subdivision and city; a city has no code.
abbrev pub IsPlaceOf : (Names → Names) → CityRecord → GeoLocation → Type 0
IsPlaceOf walk r l =
    IsChosen walk r.country.names r.country.iso_code l.country
    × IsRegion walk r.subdivisions l.region
    × IsChosen walk r.city.names [] l.city

no_name : (locale : Text) (names : Names) → find locale names ≡ none → name_in locale names ≡ []
unfolding name_in
no_name locale names h = rw h refl

some_name :
    (locale : Text) (names : Names) (raw : Text)
    → find locale names ≡ some raw
    → name_in locale names ≡ raw
unfolding name_in
some_name locale names raw h = rw h refl

Says-iff :
    (locale : Text) (names : Names) (v : Text)
    → Says locale names v ↔ ((trim_space (name_in locale names) ≡ v) × (v ≢ []))
unfolding trim_space trim_left trim_right
Says-iff locale names v = elim (Option-cases (find locale names)) [
  | inl h ↦ (
    λ ((raw, f, t), n). absurd (cc),
    λ (t, n). absurd (n (sym t ∙ ap trim_space (no_name locale names h))),
  )
  | inr (raw, h) ↦ (
    λ ((raw', f, t), n). (ap trim_space (some_name locale names raw' f) ∙ t, n),
    λ (t, n). ((raw, h, sym (ap trim_space (some_name locale names raw h)) ∙ t), n),
  )
]

IsSilent-iff :
    (locale : Text) (names : Names)
    → IsSilent locale names ↔ (trim_space (name_in locale names) ≡ [])
unfolding trim_space trim_left trim_right
IsSilent-iff locale names = (
  λ h. elim h [
    | inl none_there ↦ ap trim_space (no_name locale names none_there)
    | inr (raw, f, t) ↦ ap trim_space (some_name locale names raw f) ∙ t
  ],
  λ t. elim (Option-cases (find locale names)) [
    | inl h ↦ inl h
    | inr (raw, h) ↦ inr (raw, h, sym (ap trim_space (some_name locale names raw h)) ∙ t)
  ],
)

IsFirst-iff : (names : Names) (v : Text) → (first_entry names ≡ v) ↔ IsFirst names v
unfolding first_entry
IsFirst-iff [] v = ground arith
IsFirst-iff ((k, n) ∷ rest) v = ground (arith, IsFirst-iff rest v)

module _ (walk : Names → Names) where
  IsChosen-iff :
      (names : Names) (code v : Text)
      → (first_name walk names code ≡ v) ↔ IsChosen walk names code v
  unfolding first_name
  IsChosen-iff names code v = ground (
    arith,
    Says-iff (text "en") names v,
    Says-iff (text "zh-CN") names v,
    IsSilent-iff (text "en") names,
    IsSilent-iff (text "zh-CN") names,
    IsFirst-iff (walk names) v,
  )

  IsRegion-iff :
      (ss : List SubdivisionRecord) (v : Text)
      → (first_subdivision_name walk ss ≡ v) ↔ IsRegion walk ss v
  unfolding first_subdivision_name
  IsRegion-iff [] v = ground arith
  IsRegion-iff (s ∷ ss) v = IsChosen-iff s.names s.iso_code v

  pub IsPlaceOf-iff :
      (r : CityRecord) (l : GeoLocation) → (location_of walk r ≡ l) ↔ IsPlaceOf walk r l
  unfolding location_of
  IsPlaceOf-iff r l = ground (
    arith,
    IsChosen-iff r.country.names r.country.iso_code l.country,
    IsRegion-iff r.subdivisions l.region,
    IsChosen-iff r.city.names [] l.city,
  )

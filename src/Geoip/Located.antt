-- ===== src/Geoip/Located.antt =====
-- internal/geoip/resolver.go: the addresses that have a place.
use mathlib.Core.List.{Perm}
use anaysitics_service.Base.{
  ℕ, ◌≡◌, ◌≢◌, refl, if◌then◌else◌, ◌&&◌, sym, subst, ◌↔◌, ◌⊎◌, List, [], ◌∷◌, arith, Option, some,
  none, true,
}
use anaysitics_service.Base.Text.{Text, is_empty, trim_left, trim_right, trim_space}
use anaysitics_service.Geoip.{
  GeoLocation, Names, SubdivisionRecord, CityRecord, GeoReader, first_subdivision_name, location_of,
  answer, decoded, looked_up, parsed, resolve,
}
use anaysitics_service.Geoip.Chosen.{IsPlaceOf, IsPlaceOf-iff}
use anaysitics_service.Geoip.Named.{HasName, first_name_iff}

-- A node has a code or a name that is not blank.
abbrev pub IsNamed : Text → Names → Type 0
IsNamed code names = (trim_space code ≢ []) ⊎ HasName names

abbrev pub FirstIsNamed : List SubdivisionRecord → Type 0
FirstIsNamed [] = ⊥
FirstIsNamed (s ∷ ss) = IsNamed s.iso_code s.names

-- The country, the broadest subdivision or the city has a name.
abbrev pub HasPlace : CityRecord → Type 0
HasPlace r =
    IsNamed r.country.iso_code r.country.names ⊎ FirstIsNamed r.subdivisions ⊎ HasName r.city.names

blank : (t : Text) → (is_empty t ≡ true) ↔ (t ≡ [])
blank [] = ground arith
blank (c ∷ t) = ground arith

-- A step that follows what may be missing.
chain :
    {A B : Type 0} (g : Option A → Option B) (l : B)
    → g none ≡ none
    → (o : Option A) → (g o ≡ some l) ↔ ((a : A) × (o ≡ some a) × (g (some a) ≡ some l))
chain g l e none = (λ h. absurd (cc), λ (a, p, h). absurd (cc))
chain g l e (some a) = (λ h. (a, refl, h), λ (b, p, h). subst (λ o. g o ≡ some l) (sym p) h)

-- The database finds the address, and its record can be decoded.
abbrev pub Holds : GeoReader → Text → CityRecord → Type 0
Holds reader ip r =
    (addr : Text) × (reader.parse_addr (trim_space ip) ≡ some addr)
    × ((result : ℕ) × (reader.lookup addr ≡ some result) × (reader.decode result ≡ some r))

module _ (walk : Names → Names) (rearranges : (names : Names) → Perm (walk names) names) where
  first_subdivision_name_iff :
      (ss : List SubdivisionRecord) → (first_subdivision_name walk ss ≢ []) ↔ FirstIsNamed ss
  unfolding first_subdivision_name
  first_subdivision_name_iff [] = ground arith
  first_subdivision_name_iff (s ∷ ss) = first_name_iff walk rearranges s.names s.iso_code

  -- A location has a part that is not blank.
  abbrev HasPart : GeoLocation → Type 0
  HasPart l = (l.country ≢ []) ⊎ (l.region ≢ []) ⊎ (l.city ≢ [])

  location_of-HasPart : (r : CityRecord) → HasPart (location_of walk r) ↔ HasPlace r
  unfolding location_of trim_space trim_left trim_right
  location_of-HasPart r = ground (
    arith,
    first_name_iff walk rearranges r.country.names r.country.iso_code,
    first_subdivision_name_iff r.subdivisions,
    first_name_iff walk rearranges r.city.names [],
  )

  given :
      (l m : GeoLocation)
      → ((if is_empty l.country && is_empty l.region && is_empty l.city then none else some l)
          ≡ some m)
        ↔ (HasPart l × (l ≡ m))
  given l m = ground (arith, blank l.country, blank l.region, blank l.city)

  answer_iff :
      (r : CityRecord) (l : GeoLocation)
      → (answer walk r ≡ some l) ↔ (HasPlace r × (location_of walk r ≡ l))
  unfolding answer
  answer_iff r l = ground (arith, given (location_of walk r) l, location_of-HasPart r)

  -- The resolver answers exactly for the addresses of the database whose record names a country, a
  -- broadest subdivision or a city, in whichever order maps are walked. The country, the region and the
  -- city of the answer are those of the record, the region being the first subdivision: each by its
  -- English name, else its Chinese name, else its code (a city has none), else the first name that is
  -- not blank in the order of the walk, all trimmed.
  pub resolve_iff :
      (reader : GeoReader) (ip : Text) (l : GeoLocation)
      → (resolve walk (some reader) ip ≡ some l)
        ↔ ((r : CityRecord) × Holds reader ip r × HasPlace r × IsPlaceOf walk r l)
  unfolding resolve parsed looked_up decoded
  resolve_iff reader ip l = (
    λ h.
        let (addr, at, h) =
          (chain (parsed walk reader) l refl (reader.parse_addr (trim_space ip))).0 h in
        let (result, found, h) = (chain (looked_up walk reader) l refl (reader.lookup addr)).0 h in
        let (r, read, h) = (chain (decoded walk) l refl (reader.decode result)).0 h in
        let (place, same) = (answer_iff r l).0 h in
        (r, (addr, at, (result, found, read)), place, (IsPlaceOf-iff walk r l).0 same),
    λ (r, (addr, at, (result, found, read)), place, same).
        (chain (parsed walk reader) l refl (reader.parse_addr (trim_space ip))).1 (
          addr,
          at,
          (chain (looked_up walk reader) l refl (reader.lookup addr)).1 (
            result,
            found,
            (chain (decoded walk) l refl (reader.decode result)).1
                (r, read, (answer_iff r l).1 (place, (IsPlaceOf-iff walk r l).1 same)),
          ),
        ),
  )

-- ===== src/Geoip.antt =====
-- internal/geoip/resolver.go: the place of a client address in a local MaxMind database.
pub mod Named
pub mod Chosen
pub mod Located
use anaysitics_service.Base.{ℕ, ◌&&◌, ◌||◌, not, List, [], ◌∷◌, Option, none, some, if◌then◌else◌}
use anaysitics_service.Base.Table.{find}
use anaysitics_service.Base.Text.{Text, text, is_empty, trim_space}

-- collect.GeoLocation
pub record GeoLocation : Type 0 where
  pub country : Text
  pub region : Text
  pub city : Text

-- A map from locales to names.
abbrev pub Names : Type 0
Names = List (Text × Text)

pub record CountryRecord : Type 0 where
  pub iso_code : Text
  pub names : Names

pub record SubdivisionRecord : Type 0 where
  pub iso_code : Text
  pub names : Names

pub record NamedRecord : Type 0 where
  pub names : Names

pub record CityRecord : Type 0 where
  pub country : CountryRecord
  pub subdivisions : List SubdivisionRecord
  pub city : NamedRecord

-- netip.ParseAddr, with an address by its text, and a maxminddb.Reader: Lookup gives a result, which
-- stands for a number if it was found, and Decode may fail.
pub record GeoReader : Type 0 where
  pub parse_addr : Text → Option Text
  pub lookup : Text → Option ℕ
  pub decode : ℕ → Option CityRecord

-- names[locale]
unfoldable pub name_in : Text → Names → Text
name_in locale names = or_blank (find locale names)
  where
    or_blank : Option Text → Text
    or_blank none = []
    or_blank (some name) = name

-- The loop over the names, in the order given.
unfoldable pub first_entry : Names → Text
first_entry [] = []
first_entry ((locale, name) ∷ rest) =
    let other = first_entry rest in
    let value = trim_space name in if not (is_empty value) then value else other

module _ (walk : Names → Names) where
  -- firstName, where a map is walked in the order of `walk`.
  unfoldable pub first_name : Names → Text → Text
  first_name names fallback =
      let english = trim_space (name_in (text "en") names) in
      let chinese = trim_space (name_in (text "zh-CN") names) in
      let other = trim_space fallback in
      if not (is_empty english)
      then english
      else if not (is_empty chinese)
      then chinese
      else if not (is_empty other)
      then other
      else first_entry (walk names)

  -- firstSubdivisionName
  unfoldable pub first_subdivision_name : List SubdivisionRecord → Text
  first_subdivision_name [] = []
  first_subdivision_name (value ∷ values) = first_name value.names value.iso_code

  -- The location of a record.
  unfoldable pub location_of : CityRecord → GeoLocation
  location_of r = record {
    country = first_name r.country.names r.country.iso_code;
    region = first_subdivision_name r.subdivisions;
    city = first_name r.city.names [];
  }

  unfoldable pub answer : CityRecord → Option GeoLocation
  answer r =
      let location = location_of r in
      if is_empty location.country && is_empty location.region && is_empty location.city
      then none
      else some location

  -- What follows the parsing and the lookup, where each may have found nothing.
  unfoldable pub decoded : Option CityRecord → Option GeoLocation
  decoded none = none
  decoded (some r) = answer r

  unfoldable pub looked_up : GeoReader → Option ℕ → Option GeoLocation
  looked_up reader none = none
  looked_up reader (some result) = decoded (reader.decode result)

  unfoldable pub parsed : GeoReader → Option Text → Option GeoLocation
  parsed reader none = none
  parsed reader (some addr) = looked_up reader (reader.lookup addr)

  -- Resolver.Resolve, where a resolver that is nil has no reader.
  unfoldable pub resolve : Option GeoReader → Text → Option GeoLocation
  resolve none ip = none
  resolve (some reader) ip = parsed reader (reader.parse_addr (trim_space ip))

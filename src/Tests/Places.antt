-- ===== src/Tests/Places.antt =====
-- internal/geoip/resolver.go at a concrete database.
use mathlib.Core.List.Perm
use anaysitics_service.Base.{◌≡◌, refl, [], ◌∷◌, none, some, ◌==◌, if◌then◌else◌}
use anaysitics_service.Base.Text.{Text_eq, text}
use anaysitics_service.Geoip.{GeoLocation, Names, CityRecord, GeoReader, resolve}
use anaysitics_service.Geoip.Chosen.{IsPlaceOf}
use anaysitics_service.Geoip.Located.{HasPlace, Holds, resolve_iff}
use anaysitics_service.Tests.Runs.{place_runs}

-- A country by its code, and a city without a name.
abbrev berlin : CityRecord
berlin = record {
  country = record { iso_code = text " DE"; names = (text "fr", text "Allemagne") ∷ [] };
  subdivisions =
      (record {
        iso_code = text "BE";
        names = (text "de", text "Land Berlin") ∷ (text "en", text "Berlin ") ∷ [];
      })
      ∷ [];
  city = record { names = (text "en", text " ") ∷ [] };
}

abbrev pub cities : GeoReader
cities = record {
  parse_addr = λ ip. if ip == text "none" then none else some ip;
  lookup = λ addr. if addr == text "192.0.2.1" then some 0 else none;
  decode = λ result. some berlin;
}

abbrev as_stored : Names → Names
as_stored names = names

abbrev place : GeoLocation
place = record { country = text "DE"; region = text "Berlin"; city = [] }

located : resolve as_stored (some cities) (text " 192.0.2.1") ≡ some place
unfolding place_runs
located = refl

elsewhere : resolve as_stored (some cities) (text "192.0.2.9") ≡ none
unfolding place_runs
elsewhere = refl

no_database : resolve as_stored none (text "192.0.2.1") ≡ none
unfolding place_runs
no_database = refl

resolve_iff_example :
    (r : CityRecord) × Holds cities (text " 192.0.2.1") r × HasPlace r × IsPlaceOf as_stored r place
resolve_iff_example =
    (resolve_iff as_stored (λ names. Perm.refl names) cities (text " 192.0.2.1") place).0 located

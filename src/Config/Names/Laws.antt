-- ===== src/Config/Names/Laws.antt =====
-- internal/config/config.go: the names of a parsed list.
use anaysitics_service.Base.{Bool, true, false, if◌then◌else◌, [], ◌≡◌, refl, List, some, arith}
use anaysitics_service.Base.Distinct.{distinct, distinct_stable, distinct-Fresh, All-distinct}
use anaysitics_service.Base.Text.{Text, Text_eq}
use anaysitics_service.Base.Text.Trim.{trim_space_idem}
use anaysitics_service.ControlPlane.Source.{trimmed}
use anaysitics_service.Config.Names.{normalize_names, parse_csv, split_comma}

pub normalize_none : normalize_names [] ≡ []
unfolding normalize_names distinct
normalize_none = refl

trimmed_again : (value name : Text) → trimmed value ≡ some name → trimmed name ≡ some name
unfolding trimmed
trimmed_again value name h = ground (arith, trim_space_idem value)

-- Names that are normalised twice stay as they are.
pub normalize_names_idem :
    (values : List Text) → normalize_names (normalize_names values) ≡ normalize_names values
unfolding normalize_names
normalize_names_idem values =
    distinct_stable trimmed (λ name. name) [] _ (distinct-Fresh trimmed (λ name. name) [] values)
      (All-distinct trimmed (λ name. name) (λ name. trimmed name ≡ some name) trimmed_again []
        values)

pub parse_csv_stable : (raw : Text) → normalize_names (parse_csv raw) ≡ parse_csv raw
unfolding parse_csv
parse_csv_stable raw = stable _ _ (normalize_names_idem (split_comma raw))
  where
    stable :
        (blank : Bool) (names : List Text)
        → normalize_names names ≡ names
        → let kept = (if blank then [] else names) in normalize_names kept ≡ kept
    stable true names h = normalize_none
    stable false names h = h

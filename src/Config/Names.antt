-- ===== src/Config/Names.antt =====
-- internal/config/config.go: comma-separated lists of names.
pub mod Laws
use anaysitics_service.Base.{ℕ, List, [], ◌∷◌, if◌then◌else◌, nat_eq}
use anaysitics_service.Base.Distinct.{distinct}
use anaysitics_service.Base.Text.{Text, Text_eq, is_empty, trim_space}
use anaysitics_service.ControlPlane.Source.{trimmed}

-- A character in front of the first part.
abbrev pub to_first : ℕ → List Text → List Text
to_first c [] = (c ∷ []) ∷ []
to_first c (part ∷ parts) = (c ∷ part) ∷ parts

-- strings.Split(raw, ",")
unfoldable pub split_comma : Text → List Text
split_comma [] = [] ∷ []
split_comma (c ∷ s) =
    let parts = split_comma s in if nat_eq c b',' then [] ∷ parts else to_first c parts

-- normalizeStringList; a nil slice and an empty one are both the empty list.
unfoldable pub normalize_names : List Text → List Text
normalize_names values = distinct trimmed (λ value. value) [] values

unfoldable pub parse_csv : Text → List Text
parse_csv raw = if is_empty (trim_space raw) then [] else normalize_names (split_comma raw)

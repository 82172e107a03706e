-- ===== src/Geoip/Named.antt =====
-- internal/geoip/resolver.go: the name that is chosen among those of a node.
use mathlib.Core.List.{Perm}
use mathlib.Core.List.Perm
use anaysitics_service.Base.{◌≡◌, ◌≢◌, refl, ◌↔◌, ◌⊎◌, [], ◌∷◌, Any, All, arith, true}
use anaysitics_service.Base.Rearranged.{All-perm}
use anaysitics_service.Base.Table.{find}
use anaysitics_service.Base.Text.{Text, Text_eq, text, is_empty, trim_left, trim_right, trim_space}
use anaysitics_service.Geoip.{Names, name_in, first_entry, first_name}

-- Some name of the list is not blank.
abbrev pub HasName : Names → Type 0
HasName = Any (λ (locale, name). trim_space name ≢ [])

name_in-HasName :
    (locale : Text) (names : Names) → trim_space (name_in locale names) ≢ [] → HasName names
unfolding name_in find trim_space trim_left trim_right
name_in-HasName locale [] h = h refl
name_in-HasName locale ((k, v) ∷ rest) h = ground (arith, name_in-HasName locale rest)

first_entry-HasName : (names : Names) → (first_entry names ≢ []) ↔ HasName names
unfolding first_entry
first_entry-HasName [] = ground arith
first_entry-HasName ((k, v) ∷ rest) = ground (arith, first_entry-HasName rest)

first_entry-blank :
    (names : Names)
    → (first_entry names ≡ []) ↔ All (λ entry. is_empty (trim_space entry.1) ≡ true) names
unfolding first_entry
first_entry-blank [] = ground arith
first_entry-blank ((k, v) ∷ rest) = ground (arith, first_entry-blank rest)

HasName-perm : {xs ys : Names} → Perm xs ys → HasName xs → HasName ys
HasName-perm {xs} {ys} p h = (first_entry-HasName ys).0 (λ none_left. (first_entry-HasName xs).1 h (
    (first_entry-blank xs).1 (
      All-perm (λ entry. is_empty (trim_space entry.1)) (Perm.symm p)
        ((first_entry-blank ys).0 none_left))))

module _ (walk : Names → Names) (rearranges : (names : Names) → Perm (walk names) names) where
  -- A name is chosen exactly when there is one that is not blank, or the fallback is not.
  pub first_name_iff :
      (names : Names) (fallback : Text)
      → (first_name walk names fallback ≢ []) ↔ ((trim_space fallback ≢ []) ⊎ HasName names)
  unfolding first_name
  first_name_iff names fallback = ground (
    arith,
    name_in-HasName (text "en") names,
    name_in-HasName (text "zh-CN") names,
    first_entry-HasName (walk names),
    HasName-perm (rearranges names),
    HasName-perm (Perm.symm (rearranges names)),
  )

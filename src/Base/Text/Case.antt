-- ===== src/Base/Text/Case.antt =====
-- Laws of strings.ToLower and strings.EqualFold, and the table that knows ASCII letters only.
use Prim.Native.Nat.{ℕ}
use mathlib.Core.Path.{◌≡◌, refl}
use mathlib.Core.Bool.{true}
use mathlib.Core.List.{[], ◌∷◌}
use native.Mathlib.Omega.{arith}
use anaysitics_service.Base.Text.{
  Text, is_space, trim_space, text_eq_iff, ascii_lower, CaseTable, to_lower, equal_fold,
}
use anaysitics_service.Base.Text.Trim.{trim_space_idem, trim_space-map}

module _ ⦃cases : CaseTable⦄ where
  pub to_lower_idem : (s : Text) → to_lower (to_lower s) ≡ to_lower s
  unfolding to_lower
  to_lower_idem [] = refl
  to_lower_idem (c ∷ s) = cc (cases.lower_idem c, to_lower_idem s)

  -- The shape of a selector's scope and of its value types.
  pub trim_space-to_lower : (s : Text) → trim_space (to_lower s) ≡ to_lower (trim_space s)
  unfolding to_lower
  trim_space-to_lower s = trim_space-map cases.lower cases.lower_space s

  pub lower_trim_idem :
      (s : Text) → to_lower (trim_space (to_lower (trim_space s))) ≡ to_lower (trim_space s)
  lower_trim_idem s =
      rw (trim_space-to_lower (trim_space s), trim_space_idem s) (to_lower_idem (trim_space s))

  pub equal_fold_refl : (s : Text) → equal_fold s s ≡ true
  unfolding equal_fold
  equal_fold_refl s = (text_eq_iff _ _).1 refl

pub ascii_idem : (c : ℕ) → ascii_lower (ascii_lower c) ≡ ascii_lower c
ascii_idem c = ground arith

pub ascii_space : (c : ℕ) → is_space (ascii_lower c) ≡ is_space c
unfolding is_space
ascii_space c = ground arith

-- A table with no letters beyond ASCII.
instance abbrev pub ascii_table : CaseTable
ascii_table = record {
  lower = ascii_lower;
  fold = ascii_lower;
  lower_ascii = λ c h. refl;
  fold_ascii = λ c h. refl;
  lower_idem = ascii_idem;
  lower_space = ascii_space;
}

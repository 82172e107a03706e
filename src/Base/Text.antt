-- ===== src/Base/Text.antt =====
-- Text as a list of code points, with what the source uses of package strings. Go's strings are
-- taken to be valid UTF-8. The tables of package unicode beyond ASCII are a parameter.
pub mod Trim
pub mod Case
pub mod Decimal
use Prim.Native.Char.{code}
use Prim.Native.Nat.{ℕ, ◌<◌, ◌+◌, compare, Ordering}
use Prim.Native.String.{String}
use mathlib.Core.Path.{◌≡◌, refl}
use mathlib.Core.Logic.{◌↔◌}
use mathlib.Core.Bool.{Bool, true, false, ◌&&◌, ◌||◌}
use mathlib.Core.List.{List, [], ◌∷◌, ◌++◌, map}
use native.Mathlib.Omega.{arith}
use anaysitics_service.Base.Tests.{ltb, leb, nat_eq, if◌then◌else◌}
use anaysitics_service.Base.Equality.{DecEq, nat_eq_iff}

abbrev pub Text : Type 0
Text = List ℕ

-- A text literal.
unfoldable pub text : String → Text
text String.[] = []
text (String.◌∷◌ c s) = code c ∷ text s

unfoldable pub text_eq : Text → Text → Bool
text_eq [] [] = true
text_eq [] (d ∷ t) = false
text_eq (c ∷ s) [] = false
text_eq (c ∷ s) (d ∷ t) = nat_eq c d && text_eq s t

pub text_eq_iff : (s t : Text) → (text_eq s t ≡ true) ↔ (s ≡ t)
unfolding text_eq
text_eq_iff [] [] = ground arith
text_eq_iff [] (d ∷ t) = ground arith
text_eq_iff (c ∷ s) [] = ground arith
text_eq_iff (c ∷ s) (d ∷ t) = ground (arith, text_eq_iff s t)

instance abbrev pub Text_eq : DecEq Text
Text_eq = record { equal = text_eq; equal_iff = text_eq_iff }

-- `value == ""`
abbrev pub is_empty : Text → Bool
is_empty [] = true
is_empty (c ∷ s) = false

-- unicode.IsSpace
unfoldable pub is_space : ℕ → Bool
is_space c =
    (leb 0x09 c && leb c 0x0d)
    || nat_eq c 0x20
    || nat_eq c 0x85
    || nat_eq c 0xa0
    || nat_eq c 0x1680
    || (leb 0x2000 c && leb c 0x200a)
    || nat_eq c 0x2028
    || nat_eq c 0x2029
    || nat_eq c 0x202f
    || nat_eq c 0x205f
    || nat_eq c 0x3000

unfoldable pub trim_left : Text → Text
trim_left [] = []
trim_left (c ∷ s) = if is_space c then trim_left s else c ∷ s

-- `c` in front of what is left of the text behind it.
abbrev pub trim_last : ℕ → Text → Text
trim_last c [] = if is_space c then [] else c ∷ []
trim_last c (d ∷ s) = c ∷ d ∷ s

unfoldable pub trim_right : Text → Text
trim_right [] = []
trim_right (c ∷ s) = trim_last c (trim_right s)

-- strings.TrimSpace
unfoldable pub trim_space : Text → Text
unfolding trim_left trim_right is_space
trim_space s = trim_right (trim_left s)

abbrev pub ascii_lower : ℕ → ℕ
ascii_lower c = if leb b'A' c && leb c b'Z' then c + 32 else c

-- The tables of package unicode: `lower` is unicode.ToLower, and `fold` picks one member of each
-- orbit of unicode.SimpleFold. The laws are those of the tables that the proofs use.
pub record CaseTable : Type 0 where
  pub lower : ℕ → ℕ
  pub fold : ℕ → ℕ
  pub lower_ascii : (c : ℕ) → c < 128 → lower c ≡ ascii_lower c
  pub fold_ascii : (c : ℕ) → c < 128 → fold c ≡ ascii_lower c
  pub lower_idem : (c : ℕ) → lower (lower c) ≡ lower c
  pub lower_space : (c : ℕ) → is_space (lower c) ≡ is_space c

module _ ⦃cases : CaseTable⦄ where
  -- strings.ToLower
  unfoldable pub to_lower : Text → Text
  to_lower = map cases.lower

  -- strings.EqualFold
  unfoldable pub equal_fold : Text → Text → Bool
  equal_fold s t = text_eq (map cases.fold s) (map cases.fold t)

-- ===== src/Base/Text/Trim.antt =====
-- Laws of strings.TrimSpace.
use mathlib.Core.Path.{◌≡◌, refl, ap, ◌∙◌}
use mathlib.Core.Bool.{false}
use mathlib.Core.List.{[], ◌∷◌, ◌++◌, map}
use anaysitics_service.Base.Lists.{All}
use mathlib.Core.Logic.{inl, inr}
use native.Mathlib.Omega.{arith}
use Prim.Native.Nat.{ℕ}
use anaysitics_service.Base.Tests.{Bool-cases}
use anaysitics_service.Base.Text.{Text, is_space, trim_left, trim_right, trim_last, trim_space}

-- A text that does not begin with white space.
abbrev HeadOk : Text → Type 0
HeadOk [] = Unit {0}
HeadOk (c ∷ s) = is_space c ≡ false

trim_left-HeadOk : (s : Text) → HeadOk (trim_left s)
unfolding trim_left
trim_left-HeadOk [] = tt
trim_left-HeadOk (c ∷ s) = elim (Bool-cases (is_space c)) [
  | inl e ↦ rw e (trim_left-HeadOk s)
  | inr e ↦ rw e e
]

trim_left_of_HeadOk : (s : Text) → HeadOk s → trim_left s ≡ s
unfolding trim_left
trim_left_of_HeadOk [] h = refl
trim_left_of_HeadOk (c ∷ s) h = rw h

trim_last-HeadOk : (c : ℕ) (s : Text) → is_space c ≡ false → HeadOk (trim_last c s)
trim_last-HeadOk c [] h = rw h h
trim_last-HeadOk c (d ∷ s) h = h

trim_right-HeadOk : (s : Text) → HeadOk s → HeadOk (trim_right s)
unfolding trim_right
trim_right-HeadOk [] h = tt
trim_right-HeadOk (c ∷ s) h = trim_last-HeadOk c (trim_right s) h

trim_right-trim_last :
    (c : ℕ) (s : Text) → trim_right s ≡ s → trim_right (trim_last c s) ≡ trim_last c s
unfolding trim_right
trim_right-trim_last c [] h = ground arith
trim_right-trim_last c (d ∷ s) h = rw h

trim_right_idem : (s : Text) → trim_right (trim_right s) ≡ trim_right s
unfolding trim_right
trim_right_idem [] = refl
trim_right_idem (c ∷ s) = trim_right-trim_last c (trim_right s) (trim_right_idem s)

-- A trimmed text has nothing left to trim.
pub trim_space_idem : (s : Text) → trim_space (trim_space s) ≡ trim_space s
unfolding trim_space
trim_space_idem s =
    ap trim_right (trim_left_of_HeadOk _ (trim_right-HeadOk _ (trim_left-HeadOk s)))
    ∙ trim_right_idem (trim_left s)

module _ (f : ℕ → ℕ) (keeps : (c : ℕ) → is_space (f c) ≡ is_space c) where
  trim_left-map : (s : Text) → trim_left (map f s) ≡ map f (trim_left s)
  unfolding trim_left
  trim_left-map [] = refl
  trim_left-map (c ∷ s) = rw keeps (ground (arith, trim_left-map s))

  trim_last-map : (c : ℕ) (s : Text) → trim_last (f c) (map f s) ≡ map f (trim_last c s)
  trim_last-map c [] = rw keeps (ground arith)
  trim_last-map c (d ∷ s) = refl

  trim_right-map : (s : Text) → trim_right (map f s) ≡ map f (trim_right s)
  unfolding trim_right
  trim_right-map [] = refl
  trim_right-map (c ∷ s) = ap (trim_last (f c)) (trim_right-map s) ∙ trim_last-map c (trim_right s)

  -- Trimming commutes with a change of characters that keeps white space.
  pub trim_space-map : (s : Text) → trim_space (map f s) ≡ map f (trim_space s)
  unfolding trim_space
  trim_space-map s = ap trim_right (trim_left-map s) ∙ trim_right-map (trim_left s)

-- A text with no white space in it.
abbrev pub IsSolid : Text → Type 0
IsSolid = All (λ c. is_space c ≡ false)

pub IsSolid-append : (s t : Text) → IsSolid s → IsSolid t → IsSolid (s ++ t)
IsSolid-append [] t h k = k
IsSolid-append (c ∷ s) t h k = (h.0, IsSolid-append s t h.1 k)

trim_last_solid : (c : ℕ) (s : Text) → is_space c ≡ false → trim_last c s ≡ c ∷ s
trim_last_solid c [] h = rw h refl
trim_last_solid c (d ∷ s) h = refl

trim_right_solid : (s : Text) → IsSolid s → trim_right s ≡ s
unfolding trim_right
trim_right_solid [] h = refl
trim_right_solid (c ∷ s) h = rw (trim_right_solid s h.1) (trim_last_solid c s h.0)

trim_left_solid : (s : Text) → IsSolid s → trim_left s ≡ s
unfolding trim_left
trim_left_solid [] h = refl
trim_left_solid (c ∷ s) h = rw h.0 refl

pub trim_space_solid : (s : Text) → IsSolid s → trim_space s ≡ s
unfolding trim_space
trim_space_solid s h = rw (trim_left_solid s h) (trim_right_solid s h)

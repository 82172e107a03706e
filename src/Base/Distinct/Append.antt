-- ===== src/Base/Distinct/Append.antt =====
-- The loop over one list after another.
use anaysitics_service.Base.Equality.{DecEq, contains}
use anaysitics_service.Base.Lists.{All}
use anaysitics_service.Base.Tests.{Bool-cases, Option-cases}
use mathlib.Core.Logic.{inl, inr}
use anaysitics_service.Base.Distinct.{distinct, Fresh}
use mathlib.Core.Bool.{true}
use mathlib.Core.List.{List, [], ◌∷◌, ◌++◌}
use mathlib.Core.Option.{Option, some}
use mathlib.Core.Path.{◌≡◌, refl, ap}
use native.Mathlib.Omega.{arith}

module _ {B K : Type 0} ⦃e : DecEq K⦄ (key : B → K) where
  -- The set of keys after the entries.
  abbrev pub seen_after : List K → List B → List K
  seen_after seen [] = seen
  seen_after seen (b ∷ bs) = seen_after (key b ∷ seen) bs

  pub seen_after-append :
      (seen : List K) (xs ys : List B)
      → seen_after seen (xs ++ ys) ≡ seen_after (seen_after seen xs) ys
  seen_after-append seen [] ys = refl
  seen_after-append seen (x ∷ xs) ys = seen_after-append (key x ∷ seen) xs ys

  pub Fresh-append :
      (seen : List K) (xs ys : List B)
      → Fresh key seen xs
      → Fresh key (seen_after seen xs) ys
      → Fresh key seen (xs ++ ys)
  Fresh-append seen [] ys f g = g
  Fresh-append seen (x ∷ xs) ys f g = (f.0, Fresh-append (key x ∷ seen) xs ys f.1 g)

  pub contains-seen_after :
      (k : K) (seen : List K) (xs : List B)
      → contains seen k ≡ true
      → contains (seen_after seen xs) k ≡ true
  unfolding contains
  contains-seen_after k seen [] h = h
  contains-seen_after k seen (x ∷ xs) h = contains-seen_after k (key x ∷ seen) xs (ground arith)

module _ {A B K : Type 0} ⦃e : DecEq K⦄ (prepare : A → Option B) (key : B → K) where
  pub distinct-append :
      (seen : List K) (xs ys : List A)
      → distinct prepare key seen (xs ++ ys)
        ≡ distinct prepare key seen xs
          ++ distinct prepare key (seen_after key seen (distinct prepare key seen xs)) ys
  unfolding distinct
  distinct-append seen [] ys = refl
  distinct-append seen (x ∷ xs) ys = elim (Option-cases (prepare x)) [
    | inl p ↦ rw (p, distinct) (distinct-append seen xs ys)
    | inr (b, p) ↦ elim (Bool-cases (contains seen (key b))) [
      | inl q ↦ rw (p, distinct) (rw q (distinct-append seen xs ys))
      | inr q ↦ rw (p, distinct) (rw q (ap (◌∷◌ b) (distinct-append (key b ∷ seen) xs ys)))
    ]
  ]

  -- Nothing is left of values whose keys were seen before the loop.
  pub distinct_nothing_new :
      (seen : List K) (xs : List A)
      → All (λ x. (b : B) → prepare x ≡ some b → contains seen (key b) ≡ true) xs
      → distinct prepare key seen xs ≡ []
  unfolding distinct
  distinct_nothing_new seen [] h = refl
  distinct_nothing_new seen (x ∷ xs) h = elim (Option-cases (prepare x)) [
    | inl p ↦ rw (p, distinct) (distinct_nothing_new seen xs h.1)
    | inr (b, p) ↦ rw (p, distinct) (rw (h.0 b p) (distinct_nothing_new seen xs h.1))
  ]

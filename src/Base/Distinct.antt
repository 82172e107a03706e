-- ===== src/Base/Distinct.antt =====
-- The loop that keeps first occurrences: each value is prepared or skipped, then looked up by its
-- key in the set of the keys seen so far, and appended if its key is new.
pub mod Append
use anaysitics_service.Base.Equality.{DecEq, contains}
use anaysitics_service.Base.Lists.{All, Any}
use anaysitics_service.Base.Tests.{Bool-cases, Option-cases}
use mathlib.Core.Bool.{true, false}
use mathlib.Core.List.{List, [], ◌∷◌}
use mathlib.Core.Logic.{◌⊎◌, inl, inr}
use mathlib.Core.Option.{Option, none, some}
use mathlib.Core.Path.{◌≡◌, refl, ap}
use native.Mathlib.Omega.{arith}

module _ {A B K : Type 0} ⦃e : DecEq K⦄ (prepare : A → Option B) (key : B → K) where
  unfoldable pub distinct : List K → List A → List B
  distinct seen [] = []
  distinct seen (x ∷ xs) = elim (prepare x) [
    | none ↦ distinct seen xs
    | some b ↦ elim (contains seen (key b)) [
      | true ↦ distinct seen xs
      | false ↦ b ∷ distinct (key b ∷ seen) xs
    ]
  ]

module _ {B K : Type 0} ⦃e : DecEq K⦄ (key : B → K) where
  -- No key repeats, or is one of those seen before.
  abbrev pub Fresh : List K → List B → Type 0
  Fresh seen [] = Unit {0}
  Fresh seen (b ∷ bs) = (contains seen (key b) ≡ false) × Fresh (key b ∷ seen) bs

contains-cons :
    {K : Type 0} ⦃e : DecEq K⦄ (x : K) (xs : List K) (k : K)
    → contains (x ∷ xs) k ≡ true
    → (x ≡ k) ⊎ (contains xs k ≡ true)
unfolding contains
contains-cons ⦃e⦄ x xs k h = ground (arith, e.equal_iff x k)

module _ {A B K : Type 0} ⦃e : DecEq K⦄ (prepare : A → Option B) (key : B → K) where
  -- One round: nothing is taken, or a new entry.
  pub distinct_rule :
      (P : List K → A → List A → List B → Type 0) (seen : List K) (x : A) (xs : List A)
      → (prepare x ≡ none → P seen x xs (distinct prepare key seen xs))
      → ((b : B)
          → prepare x ≡ some b
          → contains seen (key b) ≡ true
          → P seen x xs (distinct prepare key seen xs))
      → ((b : B)
          → prepare x ≡ some b
          → contains seen (key b) ≡ false
          → P seen x xs (b ∷ distinct prepare key (key b ∷ seen) xs))
      → P seen x xs (distinct prepare key seen (x ∷ xs))
  unfolding distinct
  distinct_rule P seen x xs skip old new = elim (Option-cases (prepare x)) [
    | inl p ↦ rw (p, distinct) (skip p)
    | inr (b, p) ↦ elim (Bool-cases (contains seen (key b))) [
      | inl q ↦ rw (p, distinct) (rw q (old b p q))
      | inr q ↦ rw (p, distinct) (rw q (new b p q))
    ]
  ]

  pub distinct-Fresh : (seen : List K) (xs : List A) → Fresh key seen (distinct prepare key seen xs)
  unfolding distinct
  distinct-Fresh seen [] = tt
  distinct-Fresh seen (x ∷ xs) =
      distinct_rule (λ seen x xs bs. Fresh key seen bs) seen x xs (λ p. distinct-Fresh seen xs)
        (λ b p q. distinct-Fresh seen xs) (λ b p q. (q, distinct-Fresh (key b ∷ seen) xs))

  -- What holds of each prepared value holds of each entry.
  pub All-distinct :
      (P : B → Type 0)
      → ((x : A) (b : B) → prepare x ≡ some b → P b)
      → (seen : List K) (xs : List A) → All P (distinct prepare key seen xs)
  unfolding distinct
  All-distinct P h seen [] = tt
  All-distinct P h seen (x ∷ xs) =
      distinct_rule (λ seen x xs bs. All P bs) seen x xs (λ p. All-distinct P h seen xs)
        (λ b p q. All-distinct P h seen xs) (λ b p q. (h x b p, All-distinct P h (key b ∷ seen) xs))

  -- Each entry stands for an input.
  pub distinct_sound :
      (P : B → Type 0) (seen : List K) (xs : List A)
      → Any P (distinct prepare key seen xs)
      → Any (λ x. (b : B) × (prepare x ≡ some b) × P b) xs
  unfolding distinct
  distinct_sound P seen [] m = m
  distinct_sound P seen (x ∷ xs) m =
      distinct_rule
        (λ seen x xs bs. Any P bs → Any (λ x. (b : B) × (prepare x ≡ some b) × P b) (x ∷ xs)) seen x
        xs (λ p m. inr (distinct_sound P seen xs m)) (λ b p q m. inr (distinct_sound P seen xs m))
        (λ b p q m. elim m [
          | inl m ↦ inl (b, p, m)
          | inr m ↦ inr (distinct_sound P (key b ∷ seen) xs m)
        ])
        m

  -- Each prepared value has an entry under its key, if the key was not seen before the loop.
  pub distinct_complete :
      (k : K) (seen : List K) (xs : List A)
      → Any (λ x. (b : B) × (prepare x ≡ some b) × (key b ≡ k)) xs
      → (contains seen k ≡ true) ⊎ Any (λ b. key b ≡ k) (distinct prepare key seen xs)
  unfolding distinct
  distinct_complete k seen [] m = inr m
  distinct_complete k seen (x ∷ xs) m =
      distinct_rule
        (λ seen x xs bs.
          Any (λ x. (b : B) × (prepare x ≡ some b) × (key b ≡ k)) (x ∷ xs)
          → (contains seen k ≡ true) ⊎ Any (λ b. key b ≡ k) bs)
        seen x xs
        (λ p m. elim m [ inl (b, p', q) ↦ absurd (cc) | inr m ↦ distinct_complete k seen xs m ])
        (λ b p q m. elim m [
          | inl (b', p', q') ↦ inl (ground arith)
          | inr m ↦ distinct_complete k seen xs m
        ])
        (λ b p q m. elim m [
          | inl (b', p', q') ↦ inr (inl (ground arith))
          | inr m ↦ fresh_key b (distinct_complete k (key b ∷ seen) xs m)
        ])
        m
    where
      fresh_key :
          (b : B)
          → (contains (key b ∷ seen) k ≡ true)
            ⊎ Any (λ b. key b ≡ k) (distinct prepare key (key b ∷ seen) xs)
          → (contains seen k ≡ true)
            ⊎ Any (λ b. key b ≡ k) (b ∷ distinct prepare key (key b ∷ seen) xs)
      fresh_key b (inl h) = elim (contains-cons (key b) seen k h) [
        | inl q ↦ inr (inl q)
        | inr q ↦ inl q
      ]
      fresh_key b (inr h) = inr (inr h)

module _ {B K : Type 0} ⦃e : DecEq K⦄ (prepare : B → Option B) (key : B → K) where
  -- A list of new entries that are prepared already stays as it is.
  pub distinct_stable :
      (seen : List K) (bs : List B)
      → Fresh key seen bs
      → All (λ b. prepare b ≡ some b) bs
      → distinct prepare key seen bs ≡ bs
  unfolding distinct
  distinct_stable seen [] f a = refl
  distinct_stable seen (b ∷ bs) f a =
      rw (a.0, distinct) (rw f.0 (ap (◌∷◌ b) (distinct_stable (key b ∷ seen) bs f.1 a.1)))

-- ===== src/Base/Equality.antt =====
-- Decidable equality as an interface, and membership tests over it.
use Prim.Native.Nat.{ℕ}
use mathlib.Core.Path.{◌≡◌, refl}
use mathlib.Core.Logic.{◌↔◌}
use mathlib.Core.Bool.{Bool, true, false, ◌||◌}
use mathlib.Core.List.{List, [], ◌∷◌}
use native.Mathlib.Omega.{arith}
use anaysitics_service.Base.Tests.{nat_eq}
use anaysitics_service.Base.Lists.{Any}

-- The comparison `==` of a type, with its law.
pub record DecEq (A : Type 0) : Type 0 where
  pub equal : A → A → Bool
  pub equal_iff : (a b : A) → (equal a b ≡ true) ↔ (a ≡ b)

infix 50 ◌==◌
abbrev pub ◌==◌ : {A : Type 0} ⦃cmp : DecEq A⦄ → A → A → Bool
◌==◌ ⦃cmp⦄ a b = cmp.equal a b

pub nat_eq_iff : (a b : ℕ) → (nat_eq a b ≡ true) ↔ (a ≡ b)
nat_eq_iff a b = ground arith

instance abbrev pub ℕ_eq : DecEq ℕ
ℕ_eq = record { equal = nat_eq; equal_iff = nat_eq_iff }

module _ {A : Type 0} ⦃e : DecEq A⦄ where
  pub ==_refl : (a : A) → e.equal a a ≡ true
  ==_refl a = (e.equal_iff a a).1 refl

  pub ==_sound : (a b : A) → e.equal a b ≡ true → a ≡ b
  ==_sound a b = (e.equal_iff a b).0

  -- A set held as the list of its members: the `map[K]struct{}` of the source.
  unfoldable pub contains : List A → A → Bool
  contains [] a = false
  contains (x ∷ xs) a = e.equal x a || contains xs a

  pub contains_iff : (xs : List A) (a : A) → (contains xs a ≡ true) ↔ Any (λ x. x ≡ a) xs
  unfolding contains
  contains_iff [] a = ground arith
  contains_iff (x ∷ xs) a = ground (arith, e.equal_iff x a, contains_iff xs a)

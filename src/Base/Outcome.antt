-- ===== src/Base/Outcome.antt =====
-- A function with an error result returns a `Result`.
use mathlib.Core.Path.{◌≡◌, refl, subst}
use mathlib.Core.Bool.{Bool, true, false}
use anaysitics_service.Base.Tests.{if◌then◌else◌}
use mathlib.Core.Logic.{◌↔◌, ◌⊎◌, inl, inr}

pub data Result {ℓ} (E A : Type ℓ) : Type ℓ where
  ok : A → Result E A
  err : E → Result E A

infixl 5 ◌>>=◌ ◌>>◌
abbrev pub ◌>>=◌ {ℓ} : {E A B : Type ℓ} → Result E A → (A → Result E B) → Result E B
ok a >>= f = f a
err e >>= f = err e

abbrev pub ◌>>◌ {ℓ} : {E B : Type ℓ} → Result E (Unit {ℓ}) → Result E B → Result E B
m >> k = m >>= λ _. k

pub Result-cases {ℓ} :
    {E A : Type ℓ} (r : Result E A) → ((a : A) × (r ≡ ok a)) ⊎ ((e : E) × (r ≡ err e))
Result-cases (ok a) = inl (a, refl)
Result-cases (err e) = inr (e, refl)

-- A chain returns exactly what its second part returns for the value of the first.
pub >>=-iff {ℓ} :
    {E A B : Type ℓ} (m : Result E A) (f : A → Result E B) (b : B)
    → ((m >>= f) ≡ ok b) ↔ ((a : A) × (m ≡ ok a) × (f a ≡ ok b))
>>=-iff (ok a) f b = (λ h. (a, refl, h), λ (a', p, q). cc)
>>=-iff (err e) f b = (λ h. absurd (cc), λ (a, p, q). absurd (cc))

pub >>-iff {ℓ} :
    {E A : Type ℓ} (m : Result E (Unit {ℓ})) (k : Result E A) (a : A)
    → ((m >> k) ≡ ok a) ↔ ((m ≡ ok tt) × (k ≡ ok a))
>>-iff (ok tt) k a = (λ h. (refl, h), λ h. h.1)
>>-iff (err e) k a = (λ h. absurd (cc), λ h. absurd (cc))

-- What holds of the value, if there is one.
pub record Yields {ℓ κ} {E A : Type ℓ} (Q : A → Type κ) (r : Result E A) : Type (ℓ ⊔ κ) where
  pub holds : (a : A) → r ≡ ok a → Q a

module _ {ℓ κ} {E : Type ℓ} where
  pub Yields-ok : {A : Type ℓ} {Q : A → Type κ} (a : A) → Q a → Yields {E = E} Q (ok a)
  Yields-ok {Q} a q = record { holds = λ b h. let same : a ≡ b = cc in subst Q same q }

  pub Yields-err : {A : Type ℓ} {Q : A → Type κ} (e : E) → Yields {A = A} Q (err e)
  Yields-err e = record { holds = λ b h. absurd (cc) }

  pub Yields-if :
      {A : Type ℓ} {Q : A → Type κ} {m k : Result E A} (test : Bool)
      → (test ≡ true → Yields Q m)
      → (test ≡ false → Yields Q k)
      → Yields Q (if test then m else k)
  Yields-if true f g = f refl
  Yields-if false f g = g refl

  pub Yields-bind :
      {A B : Type ℓ} {Q : A → Type κ} {R : B → Type κ} (m : Result E A) (f : A → Result E B)
      → Yields Q m
      → ((a : A) → Q a → Yields R (f a))
      → Yields R (m >>= f)
  Yields-bind (ok a) f h k = k a (h.holds a refl)
  Yields-bind (err e) f h k = Yields-err e

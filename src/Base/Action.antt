-- ===== src/Base/Action.antt =====
-- A handler reads and changes a state, and either returns a value or stops with a reply; and a
-- logic of what holds before and after one.
use mathlib.Core.Path.{◌≡◌, refl}
use mathlib.Core.Bool.{Bool, true, false}
use anaysitics_service.Base.Tests.{if◌then◌else◌}
use anaysitics_service.Base.Outcome.{Result, ok, err}

abbrev pub Action : Type 0 → Type 0 → Type 0 → Type 0
Action S E A = S → Result E A × S

module _ {S E : Type 0} where
  -- What follows a run.
  abbrev pub continue_with : {A B : Type 0} → (A → Action S E B) → Result E A × S → Result E B × S
  continue_with f (ok a, s) = f a s
  continue_with f (err e, s) = (err e, s)

  infixl 5 ◌>>=◌ ◌>>◌
  unfoldable pub ◌>>=◌ : {A B : Type 0} → Action S E A → (A → Action S E B) → Action S E B
  (m >>= f) s = continue_with f (m s)

  abbrev pub ◌>>◌ : {B : Type 0} → Action S E (Unit {0}) → Action S E B → Action S E B
  m >> k = m >>= λ _. k

  abbrev pub give : {A : Type 0} → A → Action S E A
  give a s = (ok a, s)

  abbrev pub stop : {A : Type 0} → E → Action S E A
  stop e s = (err e, s)

  -- A computation that does not touch the state.
  abbrev pub settled : {A : Type 0} → Result E A → Action S E A
  settled r s = (r, s)

  -- What a run ends in: Q of the value and the state, or X of the state if it stops.
  abbrev pub Ends : {A : Type 0} → (A → S → Type 0) → (E → S → Type 0) → Result E A × S → Type 0
  Ends Q X (ok a, s) = Q a s
  Ends Q X (err e, s) = X e s

  -- Every run from a state with P.
  pub record Satisfies {A : Type 0} (P : S → Type 0) (m : Action S E A) (Q : A → S → Type 0)
      (X : E → S → Type 0) : Type 0 where
    pub run : (s : S) → P s → Ends Q X (m s)

  Ends-continue :
      {A B : Type 0} (Q : A → S → Type 0) (R : B → S → Type 0) (X : E → S → Type 0)
      (f : A → Action S E B) (o : Result E A × S)
      → Ends Q X o
      → ((a : A) → Satisfies (Q a) (f a) R X)
      → Ends R X (continue_with f o)
  Ends-continue Q R X f (ok a, s) h k = (k a).run s h
  Ends-continue Q R X f (err e, s) h k = h

  pub Satisfies-bind :
      {A B : Type 0} {P : S → Type 0} {Q : A → S → Type 0} {R : B → S → Type 0} {X : E → S → Type 0}
      {m : Action S E A} {f : A → Action S E B}
      → Satisfies P m Q X
      → ((a : A) → Satisfies (Q a) (f a) R X)
      → Satisfies P (m >>= f) R X
  unfolding ◌>>=◌
  Satisfies-bind {Q} {R} {X} {m} {f} h k = record {
    run = λ s p. Ends-continue Q R X f (m s) (h.run s p) k;
  }

  pub Satisfies-weaken :
      {A : Type 0} {P : S → Type 0} {Q R : A → S → Type 0} {X Y : E → S → Type 0} {m : Action S E A}
      → Satisfies P m Q X
      → ((a : A) (s : S) → Q a s → R a s)
      → ((e : E) (s : S) → X e s → Y e s)
      → Satisfies P m R Y
  Satisfies-weaken {A} {Q} {R} {X} {Y} {m} h f g = record { run = λ s p. go (m s) (h.run s p) }
    where
      go : (o : Result E A × S) → Ends Q X o → Ends R Y o
      go (ok a, s) q = f a s q
      go (err e, s) x = g e s x

  -- A branch may assume its test.
  pub Satisfies-if :
      {A : Type 0} {P : S → Type 0} {Q : A → S → Type 0} {X : E → S → Type 0} {m k : Action S E A}
      (test : Bool)
      → (test ≡ true → Satisfies P m Q X)
      → (test ≡ false → Satisfies P k Q X)
      → Satisfies P (if test then m else k) Q X
  Satisfies-if true f g = f refl
  Satisfies-if false f g = g refl

  -- What is decided before the run.
  pub Satisfies-with :
      {A : Type 0} {P : S → Type 0} {F : Type 0} {Q : A → S → Type 0} {X : E → S → Type 0}
      {m : Action S E A}
      → (F → Satisfies P m Q X)
      → Satisfies (λ s. F × P s) m Q X
  Satisfies-with f = record { run = λ s p. (f p.0).run s p.1 }

  -- What does not touch the state keeps what holds of it.
  pub Satisfies-settled :
      {A : Type 0} {P : S → Type 0} {X : E → S → Type 0} (r : Result E A)
      → ((e : E) (s : S) → P s → X e s)
      → Satisfies P (settled r) (λ a s. P s) X
  Satisfies-settled (ok a) f = record { run = λ s p. p }
  Satisfies-settled (err e) f = record { run = λ s p. f e s p }

  -- What holds however the run ends.
  pub Satisfies-state :
      {A : Type 0} {P R : S → Type 0} {m : Action S E A}
      → Satisfies P m (λ a s. R s) (λ e s. R s)
      → (s : S) → P s
      → R (m s).1
  Satisfies-state {A} {R} {m} h s p = go (m s) (h.run s p)
    where
      go : (o : Result E A × S) → Ends (λ a s. R s) (λ e s. R s) o → R o.1
      go (ok a, s) r = r
      go (err e, s) r = r

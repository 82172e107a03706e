-- ===== src/Base/Rearranged.antt =====
-- What holds of all members of a list holds of every rearrangement of it: a Go map is walked in any
-- order.
use mathlib.Core.Logic.Or
use mathlib.Core.List.{
  List, [], ◌∷◌, Mem, Perm, mem-cons, not-mem-nil, mem-cons_self, mem-cons_of_mem,
}
use mathlib.Core.List.Perm
use mathlib.Core.Bool.{Bool, true, Bool-set}
use mathlib.Core.Path.{◌≡◌}
use anaysitics_service.Base.Lists.{All}

-- What holds of all members does not depend on their order.
All-mem : {A : Type 0} (P : A → Type 0) (xs : List A) → ((x : A) → Mem x xs → P x) → All P xs
All-mem P [] h = tt
All-mem P (x ∷ xs) h = (h x mem-cons_self, All-mem P xs (λ y m. h y (mem-cons_of_mem x m)))

mem-All :
    {A : Type 0} (test : A → Bool) (xs : List A)
    → All (λ x. test x ≡ true) xs
    → (x : A) → Mem x xs
    → test x ≡ true
mem-All test [] h x m = absurd (not-mem-nil m)
mem-All test (y ∷ xs) h x m =
    Or.elim (Bool-set (test x) true) (mem-cons.0 m) (λ e. rw e h.0) (mem-All test xs h.1 x)

pub All-perm :
    {A : Type 0} (test : A → Bool) {xs ys : List A}
    → Perm xs ys
    → All (λ x. test x ≡ true) xs
    → All (λ x. test x ≡ true) ys
All-perm test {xs} {ys} p h =
    All-mem (λ x. test x ≡ true) ys (λ x m. mem-All test xs h x ((Perm.mem_iff p).1 m))

-- ===== src/CollectApi/App/Paths.antt =====
-- internal/collectapi/handler.go: which lists of paths are accepted, in any order.
use mathlib.Core.List.{
  Mem, Perm, Nodup, Nodup-nil, Nodup-cons, mem-cons, not-mem-nil, mem-cons_self, mem-cons_of_mem,
}
use mathlib.Core.List.Perm
use mathlib.Core.Logic.Or
use anaysitics_service.Base.Rearranged.{All-perm}
use anaysitics_service.Base.{
  subst, true, false, ◌≡◌, refl, ◌↔◌, ◌==◌, ==_sound, List, [], ◌∷◌, map, Option, none, some, ok,
  All, arith, Bool-cases, inl, inr, >>-iff, String,
}
use anaysitics_service.Base.Table.{find}
use anaysitics_service.Base.Text.{Text, Text_eq, text_eq_iff}
use anaysitics_service.CollectApi.App.{
  OptionsError, demand, is_route_path, Named, no_conflict, check_paths,
}

abbrev pub path_of : Named → Text
path_of entry = entry.0

pub demand_iff : (test : _) (e : OptionsError) → (demand test e ≡ ok tt) ↔ (test ≡ true)
demand_iff true e = ground arith
demand_iff false e = (λ h. absurd (cc), λ h. absurd (cc))

no_conflict_iff :
    (name : String) (prior : Option String) → (no_conflict name prior ≡ ok tt) ↔ (prior ≡ none)
no_conflict_iff name none = ground arith
no_conflict_iff name (some prior) = (λ h. absurd (cc), λ h. absurd (cc))

-- The paths of a list are none of those seen.
abbrev Unseen : List Named → List Text → Type 0
Unseen seen paths = (path : Text) → Mem path paths → ¬ Mem path (map path_of seen)

-- To refute a member, refute the head and the tail.
not_mem-cons : {a b : Text} {l : List Text} → ¬ (a ≡ b) → ¬ Mem a l → ¬ Mem a (b ∷ l)
not_mem-cons f g m = Or.elim (λ x y. absurd x) (mem-cons.0 m) f g

find-none_iff :
    (path : Text) (seen : List Named) → (find path seen ≡ none) ↔ (¬ Mem path (map path_of seen))
unfolding find
find-none_iff path [] = (λ _ m. not-mem-nil m, λ _. refl)
find-none_iff path ((other, name) ∷ seen) = elim (Bool-cases (other == path)) [
  | inl same ↦ rw same (
    λ h. absurd (cc),
    λ n. absurd (
        n (subst (λ p. Mem p (other ∷ map path_of seen)) (==_sound other path same) mem-cons_self)),
  )
  | inr differ ↦ rw differ (
    λ h. not_mem-cons (λ e. absurd (apart e differ)) ((find-none_iff path seen).0 h),
    λ n. (find-none_iff path seen).1 (λ m. n (mem-cons_of_mem other m)),
  )
]
  where
    apart : path ≡ other → (other == path) ≡ false → ⊥
    apart e differ = ground (arith, text_eq_iff other path)

check_paths_iff :
    (seen entries : List Named)
    → (check_paths seen entries ≡ ok tt) ↔ (
        All (λ entry. is_route_path entry.0 ≡ true) entries
        × Nodup (map path_of entries)
        × Unseen seen (map path_of entries))
unfolding check_paths
check_paths_iff seen [] = (λ h. (tt, Nodup-nil, λ path m. absurd (not-mem-nil m)), λ h. refl)
check_paths_iff seen ((path, name) ∷ rest) = (
  λ h.
      let (d, h) = (>>-iff _ _ tt).0 h in
      let (n, h) = (>>-iff _ _ tt).0 h in
      let (all, distinct, new) = (check_paths_iff ((path, name) ∷ seen) rest).0 h in
      let unseen = (find-none_iff path seen).0 ((no_conflict_iff name _).0 n) in
      (
        ((demand_iff _ _).0 d, all),
        Nodup-cons.1 (λ m. new path m mem-cons_self, distinct),
        λ other m k.
            not_mem-cons (λ e. unseen (subst (λ p. Mem p (map path_of seen)) e k))
              (λ m. new other m (mem-cons_of_mem path k)) m,
      ),
  λ (all, distinct, new).
      let (unlisted, distinct') = Nodup-cons.0 distinct in
      (>>-iff _ _ tt).1 (
        (demand_iff _ _).1 all.0,
        (>>-iff _ _ tt).1 (
          (no_conflict_iff name _).1 ((find-none_iff path seen).1 (new path mem-cons_self)),
          (check_paths_iff ((path, name) ∷ seen) rest).1 (
            all.1,
            distinct',
            λ other m.
                not_mem-cons (λ e. unlisted (subst (λ p. Mem p (map path_of rest)) e m))
                  (new other (mem-cons_of_mem path m)),
          ),
        ),
      ),
)

-- Whether a list of paths is accepted does not depend on its order: every path must begin with a
-- slash, and no path may be there twice.
pub check_paths_perm_iff :
    {order entries : List Named}
    → Perm order entries
    → (check_paths [] order ≡ ok tt)
      ↔ (All (λ entry. is_route_path entry.0 ≡ true) entries × Nodup (map path_of entries))
check_paths_perm_iff {order} {entries} p = (
  λ h.
      let (all, distinct, _) = (check_paths_iff [] order).0 h in
      (All-perm (λ entry. is_route_path entry.0) p all, Perm.nodup (Perm.map path_of p) distinct),
  λ (all, distinct). (check_paths_iff [] order).1 (
    All-perm (λ entry. is_route_path entry.0) (Perm.symm p) all,
    Perm.nodup (Perm.map path_of (Perm.symm p)) distinct,
    λ path _ m. not-mem-nil m,
  ),
)

-- ===== src/Base/Table.antt =====
-- A Go map with text keys as an association list with no key twice. Where the source walks a map, the
-- order is a parameter.
use anaysitics_service.Base.Equality.{◌==◌}
use anaysitics_service.Base.Tests.{if◌then◌else◌}
use anaysitics_service.Base.Text.{Text, Text_eq, text_eq_iff}
use mathlib.Core.List.{List, [], ◌∷◌}
use mathlib.Core.Option.{Option, none, some}
use mathlib.Core.Path.{◌≡◌}
use native.Mathlib.Omega.{arith}

module _ {ℓ} {V : Type ℓ} where
  unfoldable pub find : Text → List (Text × V) → Option V
  find key [] = none
  find key ((k, v) ∷ rest) = if k == key then some v else find key rest

  -- delete(m, key)
  unfoldable pub without : Text → List (Text × V) → List (Text × V)
  without key [] = []
  without key ((k, v) ∷ rest) =
      let others = without key rest in if k == key then others else (k, v) ∷ others

  -- m[key] = v
  unfoldable pub put : Text → V → List (Text × V) → List (Text × V)
  put key v m = (key, v) ∷ without key m

  pub find-without :
      (key j : Text) (m : List (Text × V))
      → find j (without key m) ≡ (if key == j then none else find j m)
  unfolding find without
  find-without key j [] = ground arith
  find-without key j ((k, v) ∷ rest) =
      ground (arith, find-without key j rest, text_eq_iff k key, text_eq_iff k j, text_eq_iff key j)

  pub find-put :
      (key j : Text) (v : V) (m : List (Text × V))
      → find j (put key v m) ≡ (if key == j then some v else find j m)
  unfolding find put
  find-put key j v m = ground (arith, find-without key j m)

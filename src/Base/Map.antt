-- ===== src/Base/Map.antt =====
-- Go's maps as association lists with one entry at most for each key that is looked up.
use mathlib.Core.Path.{◌≡◌}
use mathlib.Core.Logic.{ite}
use mathlib.Core.List.{List, [], ◌∷◌}
use mathlib.Core.Option.{Option, none, some}
use native.Mathlib.Omega.{arith}
use qtun.Base.Keys.{Key}

abbrev pub Map : Type 0 → Type 0 → Type 0
Map K V = List (K × V)

module _ {K V : Type 0} ⦃k : Key K⦄ where
  -- `v, ok := m[key]`
  unfoldable pub lookup : K → Map K V → Option V
  lookup key [] = none
  lookup key ((j, v) ∷ m) = ite (k.dec j key) (some v) (lookup key m)

  -- `delete(m, key)`
  unfoldable pub delete : K → Map K V → Map K V
  delete key [] = []
  delete key ((j, v) ∷ m) = ite (k.dec j key) (delete key m) ((j, v) ∷ delete key m)

  -- `m[key] = v`
  unfoldable pub insert : K → V → Map K V → Map K V
  unfolding delete
  insert key v m = (key, v) ∷ delete key m

  pub lookup-delete :
      (key other : K) (m : Map K V)
      → lookup other (delete key m) ≡ ite (k.dec key other) none (lookup other m)
  unfolding lookup delete
  lookup-delete key other [] = ground arith
  lookup-delete key other ((j, v) ∷ m) = ground (arith, lookup-delete key other m)

  pub lookup-insert :
      (key other : K) (v : V) (m : Map K V)
      → lookup other (insert key v m) ≡ ite (k.dec key other) (some v) (lookup other m)
  unfolding lookup insert
  lookup-insert key other v m = ground (arith, lookup-delete key other m)

-- ===== src/Base/Dict.antt =====
-- Go maps with string keys, as association lists. `insert` overwrites in place or adds at the end;
-- the order of a list stands for one iteration order, which Go leaves open.
use Prim.Native.Nat.{◌≤◌, ◌<◌}
use Prim.Native.String.{String}
use mathlib.Core.Path.{◌≡◌, refl}
use mathlib.Core.List.{List, [], ◌∷◌}
use mathlib.Core.Option.{Option, none, some}
use native.Mathlib.Omega.{arith}
use openseer.Base.Tests.{if◌then◌else◌}
use openseer.Base.Keys.{◌==◌, string_eq, str_eq_iff}
use openseer.Base.Lists.{length}

module _ {ℓ} {V : Type ℓ} where
  unfoldable pub lookup : String → List (String × V) → Option V
  lookup key [] = none
  lookup key ((other, v) ∷ rows) = if other == key then some v else lookup key rows

  unfoldable pub insert : String → V → List (String × V) → List (String × V)
  insert key v [] = (key, v) ∷ []
  insert key v ((other, u) ∷ rows) =
      if other == key then (key, v) ∷ rows else (other, u) ∷ insert key v rows

  unfoldable pub delete : String → List (String × V) → List (String × V)
  delete key [] = []
  delete key ((other, u) ∷ rows) =
      if other == key then delete key rows else (other, u) ∷ delete key rows

  pub lookup-insert :
      (key other : String) (v : V) (rows : List (String × V))
      → lookup other (insert key v rows) ≡ (if key == other then some v else lookup other rows)
  unfolding lookup insert
  lookup-insert key other v [] = refl
  lookup-insert key other v ((x, u) ∷ rows) = ground (
    arith,
    str_eq_iff key other,
    str_eq_iff x key,
    str_eq_iff x other,
    lookup-insert key other v rows,
  )

  pub lookup-delete :
      (key other : String) (rows : List (String × V))
      → lookup other (delete key rows) ≡ (if key == other then none else lookup other rows)
  unfolding lookup delete
  lookup-delete key other [] = ground arith
  lookup-delete key other ((x, u) ∷ rows) = ground (
    arith,
    str_eq_iff key other,
    str_eq_iff x key,
    str_eq_iff x other,
    lookup-delete key other rows,
  )

  pub length-delete-le :
      (key : String) (rows : List (String × V)) → length (delete key rows) ≤ length rows
  unfolding delete
  length-delete-le key [] = omega arith
  length-delete-le key ((x, u) ∷ rows) = ground (arith, length-delete-le key rows)

  pub length-delete-lt :
      (key : String) (rows : List (String × V)) {v : V}
      → lookup key rows ≡ some v
      → length (delete key rows) < length rows
  unfolding lookup delete
  length-delete-lt key [] h = cc
  length-delete-lt key ((x, u) ∷ rows) {v} h =
      ground (arith, length-delete-le key rows, length-delete-lt key rows {v = v})

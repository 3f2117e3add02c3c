-- ===== src/Prelude/Table.antt =====
-- A table of the database: rows under numeric keys, the newest first.
use Prim.Native.Nat.{ℕ, ◌+◌, ◌≤◌}
use mathlib.Core.Path.{◌≡◌, refl}
use mathlib.Core.Logic.{◌≢◌}
use mathlib.Core.Option
use mathlib.Core.Option.{Option, none, some}
use mathlib.Core.List.{List, [], ◌∷◌}
use native.Mathlib.Omega.{arith}
use ishly_back.Prelude.Tests.{◌==◌, if◌then◌else◌}

abbrev pub Table {ℓ} : Type ℓ → Type ℓ
Table R = List (ℕ × R)

module _ {ℓ} {R : Type ℓ} where
  -- `objects.get(pk=k)`
  abbrev pub lookup : ℕ → Table R → Option R
  lookup k [] = none
  lookup k ((j, r) ∷ t) = if j == k then some r else lookup k t

  -- `objects.create` under a new key
  abbrev pub insert : ℕ → R → Table R → Table R
  insert k r t = (k, r) ∷ t

  -- `save(update_fields=...)`: only the row under `k` changes, by `f`.
  abbrev pub modify : ℕ → (R → R) → Table R → Table R
  modify k f [] = []
  modify k f ((j, r) ∷ t) = if j == k then (j, f r) ∷ t else (j, r) ∷ modify k f t

  -- The sum of a number over all rows.
  abbrev pub total : (R → ℕ) → Table R → ℕ
  total g [] = 0
  total g ((_, r) ∷ t) = g r + total g t

  pub lookup-modify_self :
      (k : ℕ) (f : R → R) (t : Table R) {r : R}
      → lookup k t ≡ some r
      → lookup k (modify k f t) ≡ some (f r)
  lookup-modify_self k f [] h = cc
  lookup-modify_self k f ((j, s) ∷ t) {r} h = ground (arith, lookup-modify_self k f t {r = r})

  pub lookup-modify_ne :
      (j k : ℕ) (f : R → R) (t : Table R) → j ≢ k → lookup j (modify k f t) ≡ lookup j t
  lookup-modify_ne j k f [] h = refl
  lookup-modify_ne j k f ((i, s) ∷ t) h = ground (arith, lookup-modify_ne j k f t h)

  pub lookup-modify :
      (j k : ℕ) (f : R → R) (t : Table R)
      → lookup j (modify k f t) ≡ (if k == j then Option.map f (lookup j t) else lookup j t)
  lookup-modify j k f [] = ground arith
  lookup-modify j k f ((i, s) ∷ t) = ground (arith, lookup-modify j k f t)

  -- A change of one row changes the sum by what it changes in that row.
  pub total-modify :
      (g : R → ℕ) (k : ℕ) (f : R → R) (t : Table R) {r : R}
      → lookup k t ≡ some r
      → total g (modify k f t) + g r ≡ total g t + g (f r)
  total-modify g k f [] h = cc
  total-modify g k f ((j, s) ∷ t) {r} h = ground (arith, total-modify g k f t {r = r})

  pub total-lookup-le :
      (g : R → ℕ) (k : ℕ) (t : Table R) {r : R} → lookup k t ≡ some r → g r ≤ total g t
  total-lookup-le g k [] h = cc
  total-lookup-le g k ((j, s) ∷ t) {r} h = ground (arith, total-lookup-le g k t {r = r})

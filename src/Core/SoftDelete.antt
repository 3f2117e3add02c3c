-- ===== src/Core/SoftDelete.antt =====
-- `SoftDeleteModel` of apps/core/models.py with its two managers, for a table of any model.
use ishly_back.Prelude.{
  ℕ, ◌≡◌, ◌≢◌, refl, Bool, false, inl, inr, Option, none, some, [], ◌∷◌, is_some, ◌==◌,
  if◌then◌else◌, arith, Bool-cases,
}
use ishly_back.Prelude.Table.{Table, lookup, modify}

-- A row with its column `deleted_at`
pub record Deletable (A : Type 0) : Type 0 where
  pub row : A
  pub deleted_at : Option ℕ

module _ {A : Type 0} where
  -- `is_deleted`
  abbrev pub is_deleted : Deletable A → Bool
  is_deleted d = is_some d.deleted_at

  -- `objects`: the rows that `SoftDeleteManager` lets through
  unfoldable pub objects : Table (Deletable A) → Table (Deletable A)
  objects [] = []
  objects ((k, d) ∷ rows) = let rest = objects rows in if is_deleted d then rest else (k, d) ∷ rest

  -- `all_objects`
  abbrev pub all_objects : Table (Deletable A) → Table (Deletable A)
  all_objects rows = rows

  abbrev pub deleted : ℕ → Deletable A → Deletable A
  deleted now d = record d { deleted_at = some now }

  abbrev pub restored : Deletable A → Deletable A
  restored d = record d { deleted_at = none }

  -- `delete`, `restore` and `hard_delete` of the instance with a key
  unfoldable pub delete : ℕ → ℕ → Table (Deletable A) → Table (Deletable A)
  delete now k rows = modify k (deleted now) rows

  unfoldable pub restore : ℕ → Table (Deletable A) → Table (Deletable A)
  restore k rows = modify k restored rows

  unfoldable pub hard_delete : ℕ → Table (Deletable A) → Table (Deletable A)
  hard_delete k [] = []
  hard_delete k ((j, d) ∷ rows) =
      let rest = hard_delete k rows in if j == k then rest else (j, d) ∷ rest

  -- Keys are unique in a table.
  abbrev pub Fresh : ℕ → Table (Deletable A) → Type 0
  Fresh k [] = Unit
  Fresh k ((j, d) ∷ rows) = (j ≢ k) × Fresh k rows

  abbrev pub HasKeys : Table (Deletable A) → Type 0
  HasKeys [] = Unit
  HasKeys ((k, d) ∷ rows) = Fresh k rows × HasKeys rows

  lookup-Fresh :
      (k : ℕ) (rows : Table (Deletable A)) → Fresh k rows → lookup k (objects rows) ≡ none
  unfolding objects
  lookup-Fresh k [] fresh = refl
  lookup-Fresh k ((j, d) ∷ rows) (other, fresh) = ground (arith, lookup-Fresh k rows fresh)

  Fresh-modify :
      (j k : ℕ) (f : Deletable A → Deletable A) (rows : Table (Deletable A))
      → Fresh j rows
      → Fresh j (modify k f rows)
  Fresh-modify j k f [] fresh = tt
  Fresh-modify j k f ((i, d) ∷ rows) (other, fresh) = ground (arith, Fresh-modify j k f rows fresh)

  restored-deleted :
      (now : ℕ) (d : Deletable A) → is_deleted d ≡ false → restored (deleted now d) ≡ d
  restored-deleted now d live = ground arith

  -- A row that is deleted is not found among the objects, but stays in the table; restored, it is there
  -- again with what it had. Other rows stay as they are. This is where keys are unique and the row is not
  -- deleted yet.
  pub delete-objects :
      (now k : ℕ) (rows : Table (Deletable A)) (d : Deletable A)
      → HasKeys rows
      → lookup k rows ≡ some d
      → is_deleted d ≡ false
      → (lookup k (objects (delete now k rows)) ≡ none)
        × (lookup k (all_objects (delete now k rows)) ≡ some (deleted now d))
        × (restore k (delete now k rows) ≡ rows)
  unfolding objects delete restore
  delete-objects now k [] d keys found live = absurd (ground arith)
  delete-objects now k ((j, e) ∷ rows) d (fresh, keys) found live = elim (Bool-cases (j == k)) [
    | inl here ↦ (
      ground (arith, here, lookup-Fresh j rows fresh),
      ground (arith, here, found),
      ground (arith, here, found, restored-deleted now d live),
    )
    | inr other ↦ ground (arith, other, delete-objects now k rows d keys)
  ]

-- ===== src/Core/Sorting.antt =====
-- `list.sort(key=..., reverse=...)` and `order_by`: a stable sort, over the test whether one row has
-- to stand before another.
use ishly_back.Prelude.{
  ℕ, ◌≡◌, refl, Bool, true, false, List, [], ◌∷◌, length, keep, arith, if◌then◌else◌,
}

module _ {A : Type 0} (before : A → A → Bool) where
  unfoldable pub insert_sorted : A → List A → List A
  insert_sorted x [] = x ∷ []
  insert_sorted x (y ∷ ys) =
      let rest = insert_sorted x ys in if before y x then y ∷ rest else x ∷ y ∷ ys

  unfoldable pub sort : List A → List A
  sort [] = []
  sort (x ∷ xs) = insert_sorted x (sort xs)

  abbrev pub Heads : A → List A → Type 0
  Heads x [] = Unit
  Heads x (y ∷ ys) = before y x ≡ false

  -- No row has to stand before the one that it follows.
  abbrev pub IsOrdered : List A → Type 0
  IsOrdered [] = Unit
  IsOrdered (x ∷ xs) = Heads x xs × IsOrdered xs

-- How many rows pass a test.
abbrev pub count : {A : Type 0} → (A → Bool) → List A → ℕ
count p xs = length (keep p xs)

-- Two lists hold the same rows, as often.
abbrev pub SameRows : {A : Type 0} → List A → List A → Type 0
SameRows {A} xs ys = (p : A → Bool) → count p xs ≡ count p ys

module _ {A : Type 0} (before : A → A → Bool)
    (asym : (x y : A) → before x y ≡ true → before y x ≡ false) where
  Heads-insert :
      (y x : A) (ys : List A)
      → before y x ≡ true
      → Heads before y ys
      → Heads before y (insert_sorted before x ys)
  unfolding insert_sorted
  Heads-insert y x [] h heads = asym y x h
  Heads-insert y x (z ∷ zs) h heads = ground (arith, asym y x h)

  insert_sorted-IsOrdered :
      (x : A) (xs : List A) → IsOrdered before xs → IsOrdered before (insert_sorted before x xs)
  unfolding insert_sorted
  insert_sorted-IsOrdered x [] _ = (tt, tt)
  insert_sorted-IsOrdered x (y ∷ ys) (heads, ordered) =
      ground (arith, Heads-insert y x ys, insert_sorted-IsOrdered x ys ordered)

  pub sort-IsOrdered : (xs : List A) → IsOrdered before (sort before xs)
  unfolding sort
  sort-IsOrdered [] = tt
  sort-IsOrdered (x ∷ xs) = insert_sorted-IsOrdered x (sort before xs) (sort-IsOrdered xs)

module _ {A : Type 0} (before : A → A → Bool) (p : A → Bool) where
  count-insert_sorted :
      (x : A) (xs : List A) → count p (insert_sorted before x xs) ≡ count p (x ∷ xs)
  unfolding insert_sorted
  count-insert_sorted x [] = refl
  count-insert_sorted x (y ∷ ys) = ground (arith, count-insert_sorted x ys)

  pub count-sort : (xs : List A) → count p (sort before xs) ≡ count p xs
  unfolding sort
  count-sort [] = refl
  count-sort (x ∷ xs) = ground (arith, count-insert_sorted x (sort before xs), count-sort xs)

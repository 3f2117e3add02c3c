-- ===== src/Core/Pages.antt =====
-- `paginate_queryset` of apps/core/utils.py: one page of a list, and what stands beside it.
use ishly_back.Prelude.{
  ℕ, zero, suc, ◌+◌, ◌-◌, ◌*◌, ◌^◌, ◌≤◌, ◌<◌, ◌≡◌, refl, ap, sym, ◌∙◌, Bool, ◌&&◌, not, Option,
  none, some, List, [], ◌∷◌, ◌++◌, length, take, drop, ltb, ◌==◌, Bool-cases, inl, inr, arith,
  Bool-cases, inl, inr, if◌then◌else◌,
}
use ishly_back.Core.Floats.{TrueDivision}
use ishly_back.Core.Ceiling.{ceil_div, ceil_div-bounds}

pub record Page (A : Type 0) : Type 0 where
  pub items : List A
  pub total : ℕ
  pub page : ℕ
  pub page_size : ℕ
  pub total_pages : ℕ
  pub has_next : Bool
  pub has_prev : Bool

module _ {A : Type 0} (fl : TrueDivision) (queryset : List A) where
  -- the answer, for an offset that is not negative
  abbrev pub page_at : ℕ → ℕ → Page A
  page_at page page_size =
      let total = length queryset in
      let offset = (page - 1) * page_size in
      record {
        items = take page_size (drop offset queryset);
        total = total;
        page = page;
        page_size = page_size;
        total_pages = if ltb 0 page_size then ceil_div fl total page_size else 0;
        has_next = ltb (offset + page_size) total;
        has_prev = ltb 1 page;
      }

  -- `paginate_queryset`, for numbers that are not negative. A slice from a negative offset, which page 0
  -- has, is an exception, here none.
  unfoldable pub paginate_queryset : ℕ → ℕ → Option (Page A)
  paginate_queryset page page_size =
      if page == 0 && not (page_size == 0) then none else some (page_at page page_size)

-- the items of a page that is there
abbrev pub items_of : {A : Type 0} → Option (Page A) → List A
items_of none = []
items_of (some page) = page.items

module _ {A : Type 0} (fl : TrueDivision) (queryset : List A) where
  -- the items of the pages 1 to `n`, one after the other
  abbrev pub read_pages : ℕ → ℕ → List A
  read_pages page_size zero = []
  read_pages page_size (suc n) =
      read_pages page_size n ++ items_of (paginate_queryset fl queryset (suc n) page_size)

pred_suc : (n : ℕ) → suc n - 1 ≡ n
pred_suc n = omega arith

suc_add : (a b : ℕ) → suc a + b ≡ suc (a + b)
suc_add a b = omega arith

suc_times : (n k : ℕ) → suc n * k ≡ n * k + k
suc_times n k = grind arith

pred_times : (p k : ℕ) → 0 < p → (p - 1) * k + k ≡ k * p
pred_times zero k h = absurd (omega arith)
pred_times (suc q) k h = rw (pred_suc q) (grind arith)

comm_times : (n k : ℕ) → k * n ≡ n * k
comm_times n k = grind arith

before_last : (p c k : ℕ) → p < c → k * p + k ≤ k * c
before_last p c k h = grind arith

from_last : (p c k : ℕ) → c ≤ p → k * c ≤ k * p
from_last p c k h = grind arith

-- Where `c` pages of `k` rows are just enough for `n` rows, the page `p` ends before them exactly if it
-- is before the last.
next_page : (p c k n : ℕ) → 0 < p → n ≤ k * c → k * c < n + k → ltb ((p - 1) * k + k) n ≡ ltb p c
next_page p c k n hp enough just = elim (Bool-cases (ltb p c)) [
  | inl more ↦ ground (arith, more, pred_times p k hp, before_last p c k (ground arith))
  | inr last ↦ ground (arith, last, pred_times p k hp, from_last p c k (ground arith))
]

module _ {A : Type 0} where
  take-add : (a b : ℕ) (xs : List A) → take (a + b) xs ≡ take a xs ++ take b (drop a xs)
  take-add zero b xs = ap (λ (t : ℕ). take t xs) (omega arith)
  take-add (suc a) zero [] = ap (λ (t : ℕ). take t []) (suc_add a 0)
  take-add (suc a) (suc b) [] = ap (λ (t : ℕ). take t []) (suc_add a (suc b))
  take-add (suc a) b (x ∷ xs) =
      ap (λ (t : ℕ). take t (x ∷ xs)) (suc_add a b) ∙ ap (λ ys. x ∷ ys) (take-add a b xs)

  take-all : (n : ℕ) (xs : List A) → length xs ≤ n → take n xs ≡ xs
  take-all zero [] h = refl
  take-all zero (x ∷ xs) h = absurd (omega arith)
  take-all (suc n) [] h = refl
  take-all (suc n) (x ∷ xs) h = ap (λ ys. x ∷ ys) (take-all n xs (omega arith))

module _ {A : Type 0} (fl : TrueDivision) (queryset : List A) where
  items-page :
      (page_size n : ℕ)
      → items_of (paginate_queryset fl queryset (suc n) page_size)
        ≡ take page_size (drop (n * page_size) queryset)
  unfolding paginate_queryset
  items-page page_size n = ground (arith, pred_suc n)

  read_pages-take :
      (page_size n : ℕ) → read_pages fl queryset page_size n ≡ take (n * page_size) queryset
  read_pages-take page_size zero =
      ap (λ (t : ℕ). take t queryset) {x = 0} {y = 0 * page_size} (omega arith)
  read_pages-take page_size (suc n) =
      ap (λ ys. ys ++ items_of (paginate_queryset fl queryset (suc n) page_size))
        (read_pages-take page_size n)
      ∙ ap (λ ys. take (n * page_size) queryset ++ ys) (items-page page_size n)
      ∙ sym (take-add (n * page_size) page_size queryset)
      ∙ ap (λ (t : ℕ). take t queryset) (sym (suc_times n page_size))

  -- With pages of one to 2 ^ 1000 rows, and fewer than 2 ^ 53 rows, every page from the first on is answered;
  -- it has a next page exactly if it is before the last of the pages that it counts; and the items of
  -- all these pages, one after the other, are the whole list.
  pub paginate_queryset-whole :
      (page page_size : ℕ)
      → 0 < page
      → 0 < page_size
      → page_size ≤ 2 ^ 1000
      → length queryset < 2 ^ 53
      → (answer : Page A) × (paginate_queryset fl queryset page page_size ≡ some answer)
        × (answer.has_next ≡ ltb page answer.total_pages)
        × (read_pages fl queryset page_size answer.total_pages ≡ queryset)
  unfolding paginate_queryset
  paginate_queryset-whole page page_size hp hs most small =
      let (enough, just) = ceil_div-bounds fl (length queryset) page_size hs most small in
      let pages = ceil_div fl (length queryset) page_size in
      let counted : (page_at fl queryset page page_size).total_pages ≡ pages = ground arith in
      (
        page_at fl queryset page page_size,
        ground arith,
        rw counted (next_page page pages page_size (length queryset) hp enough just),
        rw counted (
            read_pages-take page_size pages
            ∙ take-all (pages * page_size) queryset (omega (arith, comm_times pages page_size))),
      )

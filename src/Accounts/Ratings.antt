-- ===== src/Accounts/Ratings.antt =====
-- The range of `User.update_rating` of apps/accounts/models.py.
use ishly_back.Prelude.{ℕ, zero, suc, ◌+◌, ◌-◌, ◌*◌, ◌/◌, ◌≤◌, ◌<◌, ◌≡◌, arith}
use ishly_back.Data.Accounts.{User}
use ishly_back.Accounts.Users.{Rounding, update_rating}

-- In hundredths; a user who was never rated has 0.
abbrev pub IsRated : User → Type 0
IsRated u = 0 < u.rating_count → (100 ≤ u.rating) × (u.rating ≤ 500)

-- The total of `n + 1` votes lies between the two ends.
total_bounds :
    (rating n vote : ℕ)
    → (0 < n → (100 ≤ rating) × (rating ≤ 500))
    → 100 ≤ vote
    → vote ≤ 500
    → (100 * (n + 1) ≤ rating * n + vote) × (rating * n + vote ≤ 500 * (n + 1))
total_bounds rating zero vote h lo hi = grind arith
total_bounds rating (suc n) vote h lo hi = grind arith

le_quotient : (a b k : ℕ) → 0 < b → k * b ≤ a → k ≤ a / b
le_quotient a b k h le = grind arith

quotient_le : (a b k : ℕ) → 0 < b → a ≤ k * b → (a + (b - 1)) / b ≤ k
quotient_le a b k h le = grind arith

-- A vote from 1.00 to 5.00 keeps the average in that range and adds one to the count, however the
-- database rounds a quotient between two hundredths.
pub update_rating_bounds :
    (r : Rounding) (vote : ℕ) (u : User)
    → IsRated u
    → 100 ≤ vote
    → vote ≤ 500
    → IsRated (update_rating r vote u)
      × ((update_rating r vote u).rating_count ≡ u.rating_count + 1)
unfolding update_rating
update_rating_bounds r vote u h lo hi =
    let n = u.rating_count in
    let total : ℕ = u.rating * n + vote in
    let (below, above) = total_bounds u.rating n vote h lo hi in
    let pos : 0 < n + 1 = omega arith in
    (
      λ _. (
        omega (arith, le_quotient total (n + 1) 100 pos below, r.floor_le total (n + 1) pos),
        omega (arith, quotient_le total (n + 1) 500 pos above, r.le_ceiling total (n + 1) pos),
      ),
      omega arith,
    )

-- ===== src/Core/Commission.antt =====
-- `calculate_commission` of apps/core/utils.py.
use ishly_back.Prelude.{
  ℕ, zero, suc, ◌+◌, ◌-◌, ◌*◌, ◌/◌, ◌^◌, ◌≤◌, ◌<◌, ◌≡◌, ap, Option, none, some, arith, ◌⊎◌, inl,
  inr, refl, sym,
}
use ishly_back.Prelude.Int.{ℤ, pos, sub_ℕ, sub_ℕ-le}
use ishly_back.Core.Floats.{int_div, int_div_hundred}
use ishly_back.World.{Env, Settings}

-- `percent or settings.PLATFORM_COMMISSION_PERCENT`: a percent of 0 counts as none given.
unfoldable pub commission_percent : Settings → Option ℕ → ℕ
commission_percent s none = s.platform_commission_percent
commission_percent s (some zero) = s.platform_commission_percent
commission_percent s (some (suc p)) = suc p

-- The commission, and what is left for the worker, which may be negative.
unfoldable pub calculate_commission : Env → ℕ → Option ℕ → ℕ × ℤ
calculate_commission env amount percent =
    let commission : ℕ =
      int_div env.division (amount * commission_percent env.settings percent) 100 in
    (commission, sub_ℕ amount commission)

-- The share of the platform in whole tiyin, rounded down.
abbrev pub share : ℕ → ℕ → ℕ
share amount p = amount * p / 100

pub share-le : (amount p : ℕ) → p ≤ 100 → share amount p ≤ amount
share-le amount p h = let bound : amount * p ≤ amount * 100 = grind arith in omega (arith, bound)

-- The rate that a percent stands for: itself if it is given and not 0, that of the settings if it is
-- not given.
abbrev pub IsRate : Settings → Option ℕ → ℕ → Type 0
IsRate s percent rate =
    ((percent ≡ some rate) × (0 < rate))
    ⊎ ((percent ≡ none) × (rate ≡ s.platform_commission_percent))

commission_percent-IsRate :
    (s : Settings) (percent : Option ℕ) (rate : ℕ)
    → IsRate s percent rate
    → commission_percent s percent ≡ rate
unfolding commission_percent
commission_percent-IsRate s percent zero (inl (given, positive)) = absurd (omega (arith, positive))
commission_percent-IsRate s percent (suc p) (inl (given, positive)) = rw given refl
commission_percent-IsRate s percent rate (inr (lacking, default)) = rw lacking (sym default)

-- For a rate of at most 100 percent, given and not 0 or else that of the settings, and a product of
-- price and rate below 2 ^ 53, the commission is the exact share rounded down, and commission and
-- payout add up to the price.
pub calculate_commission_exact :
    (env : Env) (amount : ℕ) (percent : Option ℕ) (rate : ℕ)
    → IsRate env.settings percent rate
    → rate ≤ 100
    → amount * rate < 2 ^ 53
    → let c = amount * rate / 100 in
      (calculate_commission env amount percent ≡ (c, pos (amount - c)))
      × (c ≤ amount)
      × (c + (amount - c) ≡ amount)
unfolding calculate_commission
calculate_commission_exact env amount percent rate is_rate le small =
    let given : commission_percent env.settings percent ≡ rate =
      commission_percent-IsRate env.settings percent rate is_rate in
    let e : int_div env.division (amount * rate) 100 ≡ share amount rate =
      int_div_hundred env.division (amount * rate) small in
    let le' : share amount rate ≤ amount = share-le amount rate le in
    (
      rw given
          (rw e (ap (λ (t : ℤ). (share amount rate, t)) (sub_ℕ-le amount (share amount rate) le'))),
      le',
      omega arith,
    )

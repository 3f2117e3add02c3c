-- ===== src/Core/Floats.antt =====
-- Python's true division of integers, which gives a double: `apps/core/utils.py` divides a product
-- by 100 and truncates. The double is taken as the fraction that `float.as_integer_ratio` gives.
use ishly_back.Prelude.{ℕ, zero, suc, ◌+◌, ◌*◌, ◌/◌, ◌%◌, ◌^◌, ◌≤◌, ◌<◌, ◌≡◌, ap, sym, ◌∙◌, arith}

-- What the language documents of `n / d`: the nearest double, so exact where the quotient is an
-- integer, and off by a 2 ^ -53 part of the quotient at most. This is for dividends below 2 ^ 53 and
-- divisors up to 2 ^ 1000, where no quotient but 0 is too small or too large for a normal double.
pub record TrueDivision : Type 0 where
  pub num : ℕ → ℕ → ℕ
  pub den : ℕ → ℕ → ℕ
  pub den_pos : (n d : ℕ) → 0 < d → 0 < den n d
  pub above :
      (n d : ℕ)
      → 0 < d
      → n < 2 ^ 53
      → d ≤ 2 ^ 1000
      → num n d * d * 2 ^ 53 ≤ n * den n d * (2 ^ 53 + 1)
  pub below :
      (n d : ℕ)
      → 0 < d
      → n < 2 ^ 53
      → d ≤ 2 ^ 1000
      → n * den n d * 2 ^ 53 ≤ num n d * d * 2 ^ 53 + n * den n d
  pub exact : (n d : ℕ) → 0 < d → n < 2 ^ 53 → d ≤ 2 ^ 1000 → n % d ≡ 0 → num n d ≡ n / d * den n d

hundred-le : 100 ≤ 2 ^ 1000
hundred-le = omega arith

-- `int(n / d)`
unfoldable pub int_div : TrueDivision → ℕ → ℕ → ℕ
int_div fl n d = fl.num n d / fl.den n d

-- A fraction between `q` and `q + 1` truncates to `q`.
truncate : (a b q : ℕ) → 0 < b → q * b ≤ a → a < (q + 1) * b → a / b ≡ q
truncate a b q h lo hi = grind arith

mul_lt : (a b c : ℕ) → 0 < c → a < b → a * c < b * c
mul_lt a b c h k = grind arith

spread : (q r b : ℕ) → (100 * q + r) * b ≡ 100 * (q * b) + r * b
spread q r b = grind arith

spread_suc : (q b : ℕ) → (q + 1) * b ≡ q * b + b
spread_suc q b = grind arith

part_le : (r b : ℕ) → r < 100 → r * b + b ≤ 100 * b
part_le r b h = grind arith

-- The two bounds for a dividend `100 * q + r`, over the products that they speak of.
quotient_upper :
    (a b q r : ℕ)
    → 0 < b
    → r < 100
    → 100 * q + r < 2 ^ 53
    → a * 100 * 2 ^ 53 ≤ (100 * q + r) * b * (2 ^ 53 + 1)
    → a < (q + 1) * b
quotient_upper a b q r hb hr hn h =
    omega
      (arith, spread q r b, spread_suc q b, part_le r b hr, mul_lt (100 * q + r) (2 ^ 53) b hb hn)

quotient_lower :
    (a b q r : ℕ)
    → 0 < b
    → 100 * q + suc r < 2 ^ 53
    → (100 * q + suc r) * b * 2 ^ 53 ≤ a * 100 * 2 ^ 53 + (100 * q + suc r) * b
    → q * b ≤ a
quotient_lower a b q r hb hn h =
    omega (arith, spread q (suc r) b, spread_suc r b, mul_lt (100 * q + suc r) (2 ^ 53) b hb hn)

exact_le : (a b q : ℕ) → a ≡ (100 * q + 0) / 100 * b → q * b ≤ a
exact_le a b q h =
    let e : (100 * q + 0) / 100 ≡ q = omega arith in omega (arith, h ∙ ap (λ (t : ℕ). t * b) e)

module _ (fl : TrueDivision) where
  quotient-le :
      (q r : ℕ)
      → r < 100
      → 100 * q + r < 2 ^ 53
      → q * fl.den (100 * q + r) 100 ≤ fl.num (100 * q + r) 100
  quotient-le q zero hr hn =
      exact_le _ _ q (fl.exact (100 * q + 0) 100 (omega arith) hn hundred-le (omega arith))
  quotient-le q (suc r) hr hn =
      quotient_lower _ _ q r (fl.den_pos _ 100 (omega arith)) hn
        (fl.below _ 100 (omega arith) hn hundred-le)

  int_div-split : (q r : ℕ) → r < 100 → 100 * q + r < 2 ^ 53 → int_div fl (100 * q + r) 100 ≡ q
  unfolding int_div
  int_div-split q r hr hn =
      truncate _ _ q (fl.den_pos _ 100 (omega arith)) (quotient-le q r hr hn) (
        quotient_upper _ _ q r (fl.den_pos _ 100 (omega arith)) hr hn
          (fl.above _ 100 (omega arith) hn hundred-le))

  -- Below 2 ^ 53 the rounding of a division by 100 never reaches the next integer.
  pub int_div_hundred : (n : ℕ) → n < 2 ^ 53 → int_div fl n 100 ≡ n / 100
  int_div_hundred n h =
      let e : 100 * (n / 100) + n % 100 ≡ n = omega arith in
      sym (ap (λ (t : ℕ). int_div fl t 100) e)
      ∙ int_div-split (n / 100) (n % 100) (omega arith) (omega arith)

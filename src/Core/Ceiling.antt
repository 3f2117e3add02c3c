-- ===== src/Core/Ceiling.antt =====
-- `math.ceil(n / d)`: `paginate_queryset` of apps/core/utils.py counts pages by a true division.
use ishly_back.Prelude.{
  ℕ, zero, suc, ◌+◌, ◌-◌, ◌*◌, ◌/◌, ◌%◌, ◌^◌, ◌≤◌, ◌<◌, ◌≡◌, ap, ◌∙◌, ltb, leb, arith, Bool-cases,
  inl, inr,
}
use mathlib.Core.Path.{subst}
use native.Mathlib.Nat.{div-add-mod, mod-lt}
use ishly_back.Core.Floats.{TrueDivision}

-- `math.ceil(n / d)`
unfoldable pub ceil_div : TrueDivision → ℕ → ℕ → ℕ
ceil_div fl n d = (fl.num n d + (fl.den n d - 1)) / fl.den n d

ceiling : (a b q : ℕ) → 0 < b → q * b < a → a ≤ (q + 1) * b → (a + (b - 1)) / b ≡ q + 1
ceiling a b q h lo hi = grind arith

spread : (d q r b : ℕ) → (d * q + r) * b ≡ d * (q * b) + r * b
spread d q r b = grind arith

mono : (a c d : ℕ) → a ≤ c → a * d ≤ d * c
mono a c d h = grind arith

mono_lt : (n m b : ℕ) → 0 < b → n < m → n * b < m * b
mono_lt n m b h k = grind arith

succ_times : (r b : ℕ) → (r + 1) * b ≡ r * b + b
succ_times r b = grind arith

mono_right : (r d b : ℕ) → r + 1 ≤ d → (r + 1) * b ≤ d * b
mono_right r d b h = grind arith

mono_above : (a c d : ℕ) → c ≤ a → d * c ≤ a * d
mono_above a c d h = grind arith

spread_above : (d q b : ℕ) → d * ((q + 1) * b + 1) ≡ d * (q * b) + d * b + d
spread_above d q b = grind arith

ceil_upper :
    (a b d q r : ℕ)
    → 0 < b
    → r < d
    → d * q + r < 2 ^ 53
    → a * d * 2 ^ 53 ≤ (d * q + r) * b * (2 ^ 53 + 1)
    → a ≤ (q + 1) * b
ceil_upper a b d q r hb hr hn h = elim (Bool-cases (leb a ((q + 1) * b))) [
  | inl yes_le ↦ ground arith
  | inr above ↦ absurd (
      omega (
        arith,
        spread d q r b,
        spread_above d q b,
        succ_times r b,
        mono_right r d b (omega arith),
        mono_above a ((q + 1) * b + 1) d (ground arith),
        mono_lt (d * q + r) (2 ^ 53) b hb hn,
      ))
]

ceil_lower :
    (a b d q r : ℕ)
    → 0 < b
    → d * q + suc r < 2 ^ 53
    → (d * q + suc r) * b * 2 ^ 53 ≤ a * d * 2 ^ 53 + (d * q + suc r) * b
    → q * b < a
ceil_lower a b d q r hb hn h = elim (Bool-cases (ltb (q * b) a)) [
  | inl yes_lt ↦ ground arith
  | inr above ↦ absurd (
      omega (
        arith,
        spread d q (suc r) b,
        succ_times r b,
        mono a (q * b) d (ground arith),
        mono_lt (d * q + suc r) (2 ^ 53) b hb hn,
      ))
]

exact_ceiling : (a b q : ℕ) → 0 < b → a ≡ q * b → (a + (b - 1)) / b ≡ q
exact_ceiling a b q hb h = grind arith

div_times : (d q : ℕ) → 0 < d → (d * q + 0) / d ≡ q
div_times d q h = grind arith

mod_times : (d q : ℕ) → 0 < d → (d * q + 0) % d ≡ 0
mod_times d q h = grind arith

times_suc : (d q : ℕ) → d * (q + 1) ≡ d * q + d
times_suc d q = grind arith

module _ (fl : TrueDivision) where
  ceil_div-times :
      (d q : ℕ) → 0 < d → d ≤ 2 ^ 1000 → d * q + 0 < 2 ^ 53 → ceil_div fl (d * q + 0) d ≡ q
  unfolding ceil_div
  ceil_div-times d q hd hm hn =
      let e = fl.exact (d * q + 0) d hd hn hm (mod_times d q hd) in
      exact_ceiling _ _ q (fl.den_pos (d * q + 0) d hd)
        (e ∙ ap (λ (t : ℕ). t * fl.den (d * q + 0) d) (div_times d q hd))

  ceil_div-split :
      (d q r : ℕ)
      → suc r < d
      → d ≤ 2 ^ 1000
      → d * q + suc r < 2 ^ 53
      → ceil_div fl (d * q + suc r) d ≡ q + 1
  unfolding ceil_div
  ceil_div-split d q r hr hm hn =
      let hb = fl.den_pos (d * q + suc r) d (omega arith) in
      ceiling _ _ q hb (ceil_lower _ _ d q r hb hn (fl.below _ d (omega arith) hn hm))
        (ceil_upper _ _ d q (suc r) hb hr hn (fl.above _ d (omega arith) hn hm))

  bounds_split :
      (d q r : ℕ)
      → r < d
      → d ≤ 2 ^ 1000
      → d * q + r < 2 ^ 53
      → (d * q + r ≤ d * ceil_div fl (d * q + r) d)
        × (d * ceil_div fl (d * q + r) d < d * q + r + d)
  bounds_split d q zero hr hm hn = rw (ceil_div-times d q hr hm hn) (omega arith, omega arith)
  bounds_split d q (suc r) hr hm hn =
      rw (ceil_div-split d q r hr hm hn)
        (let e = times_suc d q in (omega (arith, e), omega (arith, e)))

  -- Below 2 ^ 53, and for `d` up to 2 ^ 1000, the rounding of the division does no harm: the ceiling times `d` reaches `n`, and one
  -- less does not.
  pub ceil_div-bounds :
      (n d : ℕ)
      → 0 < d
      → d ≤ 2 ^ 1000
      → n < 2 ^ 53
      → (n ≤ d * ceil_div fl n d) × (d * ceil_div fl n d < n + d)
  ceil_div-bounds n d hd hm hn =
      let hq : d * (n / d) + n % d ≡ n = div-add-mod n d in
      subst (λ (t : ℕ). (t ≤ d * ceil_div fl t d) × (d * ceil_div fl t d < t + d)) hq
        (bounds_split d (n / d) (n % d) (mod-lt n hd) hm (omega (arith, hq)))

-- ===== src/Accounts/OtpLimit.antt =====
-- The rate limit of `OTPService.send_otp` of apps/accounts/services.py, over many requests.
use ishly_back.Prelude.{
  ℕ, zero, suc, ◌+◌, ◌-◌, ◌≤◌, ◌<◌, ◌≡◌, ◌⊎◌, refl, inl, inr, String, Option, none, some, List, [],
  ◌∷◌, keep, All, arith, ltb, leb, if◌then◌else◌, Option-cases, Bool-cases,
}
use text.Mathlib.TextPositions.{eq_refl}
use ishly_back.Core.Errors.{Error}
use ishly_back.World.{World, Result, ok, err, Counter}
use ishly_back.Accounts.Otp.{
  Gateway, send_otp, is_open, cache_get, count_send, get_otp_rate_limit_key, rate_limit_count,
  rate_limit_window, live_count, counted,
}
use ishly_back.Accounts.OtpOnce.{at, revoke_all_frame}

-- A request for a code at a time, with what the gateway answers to sends at that time.
pub record Request : Type 0 where
  pub time : ℕ
  pub send : String → Option String

abbrev pub answering : Gateway → Request → Gateway
answering gateway request = record gateway { send = request.send }

abbrev sent : Result (Unit {0}) → ℕ
sent (ok _) = 1
sent (err _) = 0

-- How many of the requests for one number go through, in order.
unfoldable pub sends_ok : Gateway → String → List Request → World → ℕ
sends_ok gateway phone [] w = 0
sends_ok gateway phone (request ∷ requests) w =
    let (r, w') = send_otp (answering gateway request) phone (at request.time w) in
    sent r + sends_ok gateway phone requests w'

-- What one request does to the counter of its number.
pub record Attempt (gateway : Gateway) (phone : String) (w w' : World) (r : Result (Unit {0}))
    : Type 0 where
  pub key : String
  pub is_key : key ≡ get_otp_rate_limit_key gateway phone
  pub step :
      ((r ≡ ok tt)
        × (cache_get key w < rate_limit_count)
        × (w'.cache key ≡ some (counted w.now (w.cache key) (cache_get key w))))
      ⊎ ((e : Error) × (r ≡ err e) × (w'.cache key ≡ w.cache key))

send_otp-Attempt :
    (gateway : Gateway) (phone : String) (w : World)
    → Attempt gateway phone w (send_otp gateway phone w).1 (send_otp gateway phone w).0
unfolding send_otp cache_get count_send
send_otp-Attempt gateway phone w =
    let key = get_otp_rate_limit_key gateway phone in
    let (done, frame) = revoke_all_frame (keep (is_open phone) w.telegram_otps) w in
    record {
      key = key;
      is_key = refl;
      step = elim (Bool-cases (ltb (cache_get key w) rate_limit_count)) [
        | inr full ↦ inr (Error.rate_limit, ground arith, ground arith)
        | inl below ↦ elim (Option-cases (gateway.send phone)) [
          | inl failed ↦
              inr (
                Error.service_unavailable,
                ground (arith, frame.cache),
                ground (arith, frame.cache),
              )
          | inr (rid, sent) ↦ inl (
            ground (arith, frame.cache),
            ground arith,
            ground (arith, frame.cache, frame.now, eq_refl key),
          )
        ]
      ];
    }

-- A request within the window of 600 seconds from `start` on
abbrev pub IsWithin : ℕ → Request → Type 0
IsWithin start request = (start ≤ request.time) × (request.time < start + 600)

-- How many sends a counter leaves, where it stays alive to the end of the window
abbrev left : ℕ → Option Counter → ℕ
left start none = rate_limit_count
left start (some c) =
    if leb c.expires_at start then rate_limit_count else rate_limit_count - c.count

-- A counter that is gone when the window starts, or has counted and outlasts the window.
abbrev IsSettled : ℕ → Option Counter → Type 0
IsSettled start none = Unit
IsSettled start (some c) =
    (c.expires_at ≤ start) ⊎ ((0 < c.count) × (start + rate_limit_window ≤ c.expires_at))

-- The counter after a send that went through
step_left :
    (start t : ℕ) (o : Option Counter)
    → start ≤ t
    → t < start + rate_limit_window
    → IsSettled start o
    → live_count t o < rate_limit_count
    → IsSettled start (some (counted t o (live_count t o)))
      × (left start (some (counted t o (live_count t o))) + 1 ≤ left start o)
step_left start t none lo hi settled below = ground arith
step_left start t (some c) lo hi (inl gone) below = ground arith
step_left start t (some c) lo hi (inr (counting, lasting)) below = live c.count counting refl
  where
    live :
        (n : ℕ)
        → 0 < n
        → c.count ≡ n
        → IsSettled start (some (counted t (some c) (live_count t (some c))))
          × (left start (some (counted t (some c) (live_count t (some c)))) + 1
              ≤ left start (some c))
    live zero h = ground arith
    live (suc n) h = ground arith

sends_ok-left :
    (gateway : Gateway) (phone : String) (start : ℕ) (requests : List Request) (w : World)
    → All (IsWithin start) requests
    → IsSettled start (w.cache (get_otp_rate_limit_key gateway phone))
    → sends_ok gateway phone requests w
      ≤ left start (w.cache (get_otp_rate_limit_key gateway phone))
unfolding sends_ok cache_get get_otp_rate_limit_key
sends_ok-left gateway phone start [] w within settled = ground arith
sends_ok-left gateway phone start (request ∷ requests) w (inside, within) settled =
    let a = send_otp-Attempt (answering gateway request) phone (at request.time w) in
    let w' = (send_otp (answering gateway request) phone (at request.time w)).1 in
    elim a.step [
      | inr (e, raised, same) ↦
          ground (arith, a.is_key, sends_ok-left gateway phone start requests w' within)
      | inl (done, below, counts) ↦ ground (
        arith,
        a.is_key,
        step_left start request.time (w.cache a.key),
        sends_ok-left gateway phone start requests w' within,
      )
    ]

-- There is no counter, or it has expired.
abbrev pub IsGone : ℕ → Option Counter → Type 0
IsGone start none = Unit
IsGone start (some c) = c.expires_at ≤ start

gone-left :
    (start : ℕ) (o : Option Counter)
    → IsGone start o
    → IsSettled start o × (left start o ≡ rate_limit_count)
gone-left start none gone = ground arith
gone-left start (some c) gone = (inl gone, ground arith)

-- Of the requests for one number within 600 seconds, however many they are and whatever the gateway
-- answers, at most three go through, if the counter of the number is gone when the window starts.
pub sends_ok-le :
    (gateway : Gateway) (phone : String) (start : ℕ) (requests : List Request) (w : World)
    → IsGone start (w.cache (get_otp_rate_limit_key gateway phone))
    → All (IsWithin start) requests
    → sends_ok gateway phone requests w ≤ 3
sends_ok-le gateway phone start requests w gone within =
    let (settled, all) = gone-left start (w.cache (get_otp_rate_limit_key gateway phone)) gone in
    omega (arith, sends_ok-left gateway phone start requests w within settled, all)

-- ===== src/Accounts/OtpOnce.antt =====
-- `OTPService.send_otp` followed by `OTPService.verify_otp` of apps/accounts/services.py.
use ishly_back.Prelude.{
  ℕ, zero, suc, ◌+◌, ◌≤◌, ◌<◌, ◌≡◌, refl, inl, inr, Bool, true, false, not, String, Option, none,
  some, List, [], ◌∷◌, keep, arith, ltb, Option-cases, Bool-cases, ==_refl, if◌then◌else◌,
}
use text.Mathlib.TextPositions.{eq_refl}
use ishly_back.Prelude.Table.{Table, insert}
use ishly_back.Core.Errors.{Error}
use ishly_back.Data.Accounts.{TelegramOtp}
use ishly_back.World.{World, Effect, Result, ok, err, Counter, emit}
use ishly_back.Accounts.Otp.{
  Gateway, send_otp, verify_otp, revoke_all, is_open, latest, new_otp, cache_get, count_send,
  get_otp_rate_limit_key, rate_limit_count, live_count, counted, used,
}

-- Revocations are sent one by one, and change nothing else.
pub record OnlyEffects (w w' : World) : Type 0 where
  pub db : w'.db ≡ w.db
  pub cache : w'.cache ≡ w.cache
  pub now : w'.now ≡ w.now

pub revoke_all_frame :
    (rows : List (ℕ × TelegramOtp)) (w : World)
    → ((revoke_all rows w).0 ≡ ok tt) × OnlyEffects w (revoke_all rows w).1
unfolding revoke_all
revoke_all_frame [] w = (refl, record { db = refl; cache = refl; now = refl })
revoke_all_frame ((k, otp) ∷ rows) w =
    ground (arith, revoke_all_frame rows (emit (Effect.revoke_otp otp.request_id) w).1)

-- A counter that is alive goes up by one, and one that is gone starts at one.
live-counted :
    (now : ℕ) (c : Option Counter)
    → live_count now (some (counted now c (live_count now c))) ≡ live_count now c + 1
live-counted now none = ground arith
live-counted now (some c) = elim (Bool-cases (ltb now c.expires_at)) [
  | inr gone ↦ rw gone (ground arith)
  | inl alive ↦ rw alive (counting c.count alive)
]
  where
    counting :
        (n : ℕ)
        → ltb now c.expires_at ≡ true
        → live_count now (some (counted now (some (record c { count = n })) n)) ≡ n + 1
    counting zero alive' = ground arith
    counting (suc n) alive' = ground arith

-- The count of a send, where the cache and the clock are still those of `w`.
count_send_later :
    (key : String) (w v : World)
    → v.cache ≡ w.cache
    → v.now ≡ w.now
    → (cache_get key (count_send key (cache_get key w) v).1 ≡ cache_get key w + 1)
      × ((count_send key (cache_get key w) v).0 ≡ ok tt)
      × ((count_send key (cache_get key w) v).1.db ≡ v.db)
      × ((count_send key (cache_get key w) v).1.now ≡ v.now)
unfolding cache_get count_send
count_send_later key w v ec en =
    (rw (eq_refl key) (rw (ec, en) (live-counted w.now (w.cache key))), refl, refl, refl)

-- Of the rows that are not open none is open.
keep-not : {R : Type 0} (p : R → Bool) (rows : List R) → keep p (keep (λ r. not (p r)) rows) ≡ []
keep-not p [] = refl
keep-not p (r ∷ rows) = ground (arith, keep-not p rows)

-- With three sends counted in the window, a further one is refused and changes nothing: no message
-- is sent and no code is revoked.
pub send_otp_limited :
    (gateway : Gateway) (phone : String) (w : World)
    → rate_limit_count ≤ cache_get (get_otp_rate_limit_key gateway phone) w
    → send_otp gateway phone w ≡ (err Error.rate_limit, w)
unfolding send_otp
send_otp_limited gateway phone w h = ground arith

-- What a successful send leaves.
pub record IsSent (gateway : Gateway) (phone : String) (w w' : World) : Type 0 where
  pub request_id : String
  pub rows : Table TelegramOtp
  pub answered : gateway.send phone ≡ some request_id
  pub otps : w'.telegram_otps ≡ (w.next_id, new_otp phone request_id w.now) ∷ rows
  pub none_open : keep (is_open phone) rows ≡ []
  pub counted_on :
      cache_get (get_otp_rate_limit_key gateway phone) w'
      ≡ cache_get (get_otp_rate_limit_key gateway phone) w + 1
  pub below : cache_get (get_otp_rate_limit_key gateway phone) w < rate_limit_count
  pub same_now : w'.now ≡ w.now

-- A send that succeeds was below the limit and adds one to the count of the window. The number then
-- has exactly one open code: the new one, with the identifier that the gateway gave.
pub send_otp-IsSent :
    (gateway : Gateway) (phone : String) (w w' : World)
    → send_otp gateway phone w ≡ (ok tt, w')
    → IsSent gateway phone w w'
unfolding send_otp
send_otp-IsSent gateway phone w w' h =
    let key = get_otp_rate_limit_key gateway phone in
    let rows = keep (λ (row : ℕ × TelegramOtp). not (is_open phone row)) w.telegram_otps in
    let after = (revoke_all (keep (is_open phone) w.telegram_otps) w).1 in
    let (done, frame) = revoke_all_frame (keep (is_open phone) w.telegram_otps) w in
    elim (Option-cases (gateway.send phone)) [
      | inl failed ↦ absurd (ground arith)
      | inr (rid, sent) ↦
          let v : World = record after {
            db = record after.db {
              next_id = after.next_id + 1;
              telegram_otps =
                  insert after.next_id (new_otp phone rid after.now)
                    (keep (λ (row : ℕ × TelegramOtp). not (is_open phone row)) after.telegram_otps);
            };
          } in
          let (counts, counted_ok, same_db, same_now) =
            count_send_later key w v frame.cache frame.now in
          record {
            request_id = rid;
            rows = rows;
            answered = sent;
            otps = ground arith;
            none_open = keep-not (is_open phone) w.telegram_otps;
            counted_on = ground arith;
            below = ground arith;
            same_now = ground arith;
          }
    ]

-- The answer of a verification, by what the gateway says.
abbrev pub verdict : Option Bool → Result Bool
verdict none = err Error.service_unavailable
verdict (some true) = ok true
verdict (some false) = err Error.otp

-- the world at a later time
abbrev pub at : ℕ → World → World
at t w = record w { now = t }

-- With one open code, a verification asks the gateway about it unless it has expired, and marks it
-- used exactly if the gateway accepts it.
module _ (gateway : Gateway) (phone request_id code : String) (id sent : ℕ)
    (rows : Table TelegramOtp) (w : World)
    (otps : w.telegram_otps ≡ (id, new_otp phone request_id sent) ∷ rows)
    (none_open : keep (is_open phone) rows ≡ []) where
  one_open : keep (is_open phone) w.telegram_otps ≡ (id, new_otp phone request_id sent) ∷ []
  one_open = rw otps (rw (eq_refl phone) (rw none_open))

  verify_open :
      (verify_otp gateway phone code w).0
      ≡ (if ltb (sent + 300) w.now then err Error.otp else verdict (gateway.verify request_id code))
  unfolding verify_otp latest
  verify_open = ground (arith, one_open)

  verified_otps :
      (b : Bool) (w' : World)
      → verify_otp gateway phone code w ≡ (ok b, w')
      → w'.telegram_otps ≡ (id, used (new_otp phone request_id sent)) ∷ rows
  unfolding verify_otp latest
  verified_otps b w' h = ground (arith, one_open, otps, ==_refl id)

-- A verification at time `t` of the code sent last raises if more than 300 seconds have passed, and
-- else answers what the gateway says of the message that was sent.
pub verify_after_send :
    (gateway : Gateway) (phone code : String) (t : ℕ) (w w' : World)
    → send_otp gateway phone w ≡ (ok tt, w')
    → (request_id : String) × (gateway.send phone ≡ some request_id)
      × ((verify_otp gateway phone code (at t w')).0 ≡ (
          if ltb (w.now + 300) t then err Error.otp else verdict (gateway.verify request_id code)))
verify_after_send gateway phone code t w w' h =
    let s = send_otp-IsSent gateway phone w w' h in
    (
      s.request_id,
      s.answered,
      verify_open gateway phone s.request_id code w.next_id w.now s.rows (at t w') s.otps
          s.none_open,
    )

spent :
    (phone request_id : String) (id sent : ℕ) (rows : Table TelegramOtp) (v : World)
    → v.telegram_otps ≡ (id, used (new_otp phone request_id sent)) ∷ rows
    → keep (is_open phone) rows ≡ []
    → keep (is_open phone) v.telegram_otps ≡ []
spent phone request_id id sent rows v otps none_open = rw otps (rw (eq_refl phone) (rw none_open))

no_open :
    (gateway : Gateway) (phone code : String) (w : World)
    → keep (is_open phone) w.telegram_otps ≡ []
    → verify_otp gateway phone code w ≡ (err Error.otp, w)
unfolding verify_otp latest
no_open gateway phone code w h = ground arith

-- A code works once: after a verification that returned, any further one for this phone raises and
-- changes nothing, until a new code is sent.
pub verify_otp_once :
    (gateway : Gateway) (phone code again : String) (t t' : ℕ) (b : Bool) (w w' v : World)
    → send_otp gateway phone w ≡ (ok tt, w')
    → verify_otp gateway phone code (at t w') ≡ (ok b, v)
    → verify_otp gateway phone again (at t' v) ≡ (err Error.otp, at t' v)
verify_otp_once gateway phone code again t t' b w w' v h k =
    let s = send_otp-IsSent gateway phone w w' h in
    let otps =
      verified_otps gateway phone s.request_id code w.next_id w.now s.rows (at t w') s.otps
        s.none_open b v k in
    no_open gateway phone again (at t' v)
      (spent phone s.request_id w.next_id w.now s.rows v otps s.none_open)

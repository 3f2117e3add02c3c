-- ===== src/Api/Requests/Denied.antt =====
-- Requests that the permissions refuse.
use ishly_back.Prelude.{ℕ, ◌≡◌, refl, Bool, true, false, ◌&&◌, if◌then◌else◌, none, some, arith}
use ishly_back.Data.Accounts.{User}
use ishly_back.World.{World}
use ishly_back.Accounts.Users.{is_active_user}
use ishly_back.Api.Access.{has_permission}
use ishly_back.Api.Requests.{
  Site, Request, send_otp, verify_otp, update_profile, device_token, create, accept, start,
  complete, cancel, update, wallet, deposit, payme, click, read_one, read_all, message, handle,
}

-- the requests that need no login
abbrev pub is_public : Request → Bool
is_public (send_otp _) = true
is_public (verify_otp _ _ _) = true
is_public (payme _ _ _ _) = true
is_public (click _ _) = true
is_public _ = false

-- the requests of a suspended user that are still let through, unless the authentication refuses them
abbrev pub is_open_to_suspended : Request → Bool
is_open_to_suspended (device_token _ _) = true
is_open_to_suspended (accept _) = true
is_open_to_suspended (start _) = true
is_open_to_suspended (complete _) = true
is_open_to_suspended (read_one _) = true
is_open_to_suspended read_all = true
is_open_to_suspended (message _ _) = true
is_open_to_suspended r = is_public r

-- Without a login every request of a kind in `Request`, but those for a code, a login and the two
-- callbacks, is a 401, and changes nothing.
pub handle_anonymous :
    (site : Site) (request : Request) (w : World)
    → is_public request ≡ false
    → handle site none request w ≡ (401, w)
unfolding handle has_permission
handle_anonymous site (send_otp _) w h = absurd (ground arith)
handle_anonymous site (verify_otp _ _ _) w h = absurd (ground arith)
handle_anonymous site (payme _ _ _ _) w h = absurd (ground arith)
handle_anonymous site (click _ _) w h = absurd (ground arith)
handle_anonymous site (update_profile _) w h = refl
handle_anonymous site (device_token _ _) w h = refl
handle_anonymous site (create _) w h = refl
handle_anonymous site (accept _) w h = refl
handle_anonymous site (start _) w h = refl
handle_anonymous site (complete _) w h = refl
handle_anonymous site (cancel _ _) w h = refl
handle_anonymous site (update _) w h = refl
handle_anonymous site wallet w h = refl
handle_anonymous site (deposit _ _) w h = refl
handle_anonymous site (read_one _) w h = refl
handle_anonymous site read_all w h = refl
handle_anonymous site (message _ _) w h = refl

-- A user who is blocked or not active changes nothing by a request of a kind in `Request`, and gets a
-- 401 if not active and else a 403. This leaves out the kinds that need no login, and for a user who is
-- blocked but active a device, acceptance, start, completion, the marks of notifications and a message:
-- it is then a new, changed or cancelled job, a wallet, a deposit and a profile that are refused. The
-- views of acceptance, start and completion replace the permission that asks for an active user.
pub handle_suspended :
    (site : Site) (user_id : ℕ) (user : User) (request : Request) (w : World)
    → is_active_user user ≡ false
    → is_public request ≡ false
    → (user.is_active && is_open_to_suspended request) ≡ false
    → handle site (some (user_id, user)) request w ≡ (if user.is_active then 403 else 401, w)
unfolding handle has_permission
handle_suspended site user_id user (update_profile _) w off login h = ground (arith, off)
handle_suspended site user_id user (device_token _ _) w off login h = ground (arith, off)
handle_suspended site user_id user (create _) w off login h = ground (arith, off)
handle_suspended site user_id user (accept _) w off login h = ground (arith, off)
handle_suspended site user_id user (start _) w off login h = ground (arith, off)
handle_suspended site user_id user (complete _) w off login h = ground (arith, off)
handle_suspended site user_id user (cancel _ _) w off login h = ground (arith, off)
handle_suspended site user_id user (update _) w off login h = ground (arith, off)
handle_suspended site user_id user wallet w off login h = ground (arith, off)
handle_suspended site user_id user (deposit _ _) w off login h = ground (arith, off)
handle_suspended site user_id user (read_one _) w off login h = ground (arith, off)
handle_suspended site user_id user read_all w off login h = ground (arith, off)
handle_suspended site user_id user (message _ _) w off login h = ground (arith, off)
handle_suspended site user_id user (send_otp _) w off login h = absurd (ground arith)
handle_suspended site user_id user (verify_otp _ _ _) w off login h = absurd (ground arith)
handle_suspended site user_id user (payme _ _ _ _) w off login h = absurd (ground arith)
handle_suspended site user_id user (click _ _) w off login h = absurd (ground arith)

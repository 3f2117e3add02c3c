-- ===== src/Api/Requests/Reach.antt =====
-- How far a request reaches: the call of the services that it makes, and for whom.
use ishly_back.Prelude.{
  ℕ, ◌≡◌, ◌⊎◌, refl, inl, inr, Bool, true, false, leb, String, Option, none, some, List, arith,
  Option-cases, Bool-cases, if◌then◌else◌, sym,
}
use ishly_back.Data.Accounts.{User, UserRole, is_employer}
use ishly_back.Data.Jobs.{JobFields}
use mathlib.Core.Path.{subst}
use ishly_back.Core.Strip.{strip, text_length}
use ishly_back.Jobs.Service.{create_job, cancel_job}
use ishly_back.Payments.Deposits.{initiate_deposit}
use ishly_back.World.{World, Result}
use ishly_back.Accounts.Auth.{create_user_wallet}
use ishly_back.Accounts.Otp.{verify_otp as verify_code}
use ishly_back.World.Atomic.{outcome}
use ishly_back.Market.Calls.{Call, serve}
use ishly_back.Api.Access.{Requester, Permission, guarded, permitted, respond}
use ishly_back.Api.Accounts.{
  send_otp_view, verify_otp_view, log_in, role_of, update_profile_view, validate_name,
}
use ishly_back.Api.Accounts.Devices.{device_token_view, register_token}
use ishly_back.Api.Requests.Aside.{
  SameMoney, same_money, send_otp-SameMoney, verify_otp-SameMoney, message_view-SameMoney,
  register_token-SameMoney,
}
use ishly_back.Api.Requests.{
  Site, Request, send_otp, verify_otp, update_profile, device_token, create, accept, start,
  complete, cancel, update, wallet, deposit, payme, click, read_one, read_all, message,
  read_one_view, read_all_view, is_valid_job, is_valid_deposit, signed_in, active_user, as_worker,
  as_employer, accept_view, start_view, complete_view, update_view, wallet_view, handle,
  create_view, cancel_view, deposit_view, message_view,
}

-- the user for whom a call is made
abbrev pub actor : Call → Option ℕ
actor (Call.login _ _) = none
actor (Call.create user_id _ _) = some user_id
actor (Call.accept _ user_id _) = some user_id
actor (Call.start _ user_id) = some user_id
actor (Call.complete _ user_id _) = some user_id
actor (Call.cancel _ user_id _) = some user_id
actor (Call.initiate _ _ user_id _ _) = some user_id
actor (Call.payme _ _ _ _ _ _ _) = none
actor (Call.click _ _ _ _ _) = none
actor (Call.tick _) = none

-- A call is nobody's, or made for the user who asks.
abbrev pub IsFor : Requester → Call → Type 0
IsFor none call = actor call ≡ none
IsFor (some (user_id, user)) call = (actor call ≡ none) ⊎ (actor call ≡ some user_id)

-- A request leaves money and jobs alone, or opens a missing wallet, or makes one call of the services
-- for the user who asks; other rows may have changed before.
pub data Reaches (site : Site) (who : Requester) (w w' : World) : Type 0 where
  aside : SameMoney w w' → Reaches site who w w'
  opens : (user_id : ℕ) → w' ≡ (create_user_wallet user_id w).1 → Reaches site who w w'
  calls :
      (call : Call) (v : World)
      → SameMoney w v
      → IsFor who call
      → w' ≡ serve site.env call v
      → Reaches site who w w'

nobody : (who : Requester) (call : Call) → actor call ≡ none → IsFor who call
nobody none call e = e
nobody (some _) call e = inl e

-- A guard passes nothing, or the view of its user.
guarded-Reaches :
    (site : Site) (ps : List Permission) (view : ℕ → User → World → ℕ × World) (who : Requester)
    (w : World)
    → ((user_id : ℕ) (user : User) → Reaches site (some (user_id, user)) w (view user_id user w).1)
    → Reaches site who w (guarded ps view who w).1
guarded-Reaches site ps view none w reach = elim (Bool-cases (permitted ps none)) [
  | inl allowed ↦ rw allowed (aside (same_money w))
  | inr refused ↦ rw refused (aside (same_money w))
]
guarded-Reaches site ps view (some (user_id, user)) w reach =
    let who : Requester = some (user_id, user) in
    let passed : (guarded ps view who w ≡ view user_id user w) ⊎ ((guarded ps view who w).1 ≡ w) =
      ground arith in
    elim passed [
      | inl e ↦ subst (λ (t : ℕ × World). Reaches site who w t.1) (sym e) (reach user_id user)
      | inr e ↦ subst (λ (t : World). Reaches site who w t) (sym e) (aside (same_money w))
    ]

module _ (site : Site) (w : World) where
  log_in-Reaches :
      (who : Requester) (phone code : String) (role : UserRole)
      → Reaches site who w (log_in site.gateway phone code role w).1
  unfolding log_in serve
  log_in-Reaches who phone code role =
      let v = (verify_code site.gateway phone code w).1 in
      elim (outcome (verify_code site.gateway phone code w)) [
        | inr (e, v', raised) ↦
            aside (ground (arith, verify_otp-SameMoney site.gateway phone code w))
        | inl (b, v', valid) ↦
            calls (Call.login phone role) v (verify_otp-SameMoney site.gateway phone code w)
              (nobody who (Call.login phone role) refl) (ground arith)
      ]

  -- a view that refuses a body, or makes one call
  tested :
      {A : Type 0} (who : Requester) (test : Bool) (good bad : ℕ) (call : Call)
      (r : Result A × World)
      → IsFor who call
      → r.1 ≡ serve site.env call w
      → Reaches site who w (if test then respond good r else (bad, w)).1
  tested who true good bad call r own e = calls call w (same_money w) own e
  tested who false good bad call r own e = aside (same_money w)

  public_tested :
      (who : Requester) (test : Bool) (v : ℕ × World)
      → Reaches site who w v.1
      → Reaches site who w (if test then v else (400, w)).1
  public_tested who true v reach = reach
  public_tested who false v reach = aside (same_money w)

  profile-Reaches :
      (who : Requester) (name : Option String) (user_id : ℕ) (user : User)
      → Reaches site who w (update_profile_view name user_id user w).1
  unfolding update_profile_view
  profile-Reaches who none user_id user = aside (ground arith)
  profile-Reaches who (some value) user_id user = elim (Option-cases (validate_name value)) [
    | inl refused ↦ rw refused (aside (same_money w))
    | inr (name, valid) ↦ rw valid (aside (ground arith))
  ]

  create-Reaches :
      (f : JobFields) (user_id : ℕ) (user : User)
      → Reaches site (some (user_id, user)) w (create_view site f user_id user w).1
  unfolding create_view serve
  create-Reaches f user_id user = elim (Bool-cases (is_employer user)) [
    | inr other ↦ rw other (aside (same_money w))
    | inl employer ↦ rw employer (
        tested (some (user_id, user)) (is_valid_job site f w) 201 400 (Call.create user_id user f)
          (create_job site.env user_id user f w) (inr refl) refl)
  ]

  message-Reaches :
      (room_id : ℕ) (content : String) (user_id : ℕ) (user : User)
      → Reaches site (some (user_id, user)) w (message_view room_id content user_id user w).1
  message-Reaches room_id content user_id user =
      aside (message_view-SameMoney room_id user_id content user w)

  cancel-Reaches :
      (job_id : ℕ) (reason : String) (user_id : ℕ) (user : User)
      → Reaches site (some (user_id, user)) w (cancel_view site job_id reason user_id user w).1
  unfolding cancel_view serve
  cancel-Reaches job_id reason user_id user =
      tested (some (user_id, user)) (leb (text_length (strip reason)) 500) 200 400
        (Call.cancel job_id user_id (strip reason))
        (cancel_job site.env job_id user_id (strip reason) w) (inr refl) refl

  deposit-Reaches :
      (amount : ℕ) (name : String) (user_id : ℕ) (user : User)
      → Reaches site (some (user_id, user)) w (deposit_view site amount name user_id user w).1
  unfolding deposit_view serve
  deposit-Reaches amount name user_id user =
      tested (some (user_id, user)) (is_valid_deposit amount name) 201 400
        (Call.initiate site.providers site.hex user_id amount name)
        (initiate_deposit site.env site.providers site.hex user_id amount name w) (inr refl) refl

  device-Reaches :
      (token platform : String) (user_id : ℕ) (user : User)
      → Reaches site (some (user_id, user)) w (device_token_view token platform user_id user w).1
  unfolding device_token_view
  device-Reaches token platform user_id user =
      public_tested (some (user_id, user)) _ (200, register_token user_id token platform w)
        (aside (register_token-SameMoney user_id token platform w))

-- Whatever a request asks for, it leaves wallets, ledger and jobs alone, or opens a missing wallet, or
-- makes one call of the services, which is nobody's or made for the user who asks.
pub handle-Reaches :
    (site : Site) (who : Requester) (request : Request) (w : World)
    → Reaches site who w (handle site who request w).1
unfolding handle send_otp_view verify_otp_view serve
handle-Reaches site who (send_otp phone) w =
    public_tested site w who (site.is_phone phone) _
      (aside (send_otp-SameMoney site.gateway phone w))
handle-Reaches site who (verify_otp phone code role) w =
    public_tested site w who _ _ (log_in-Reaches site w who phone (strip code) (role_of role))
handle-Reaches site who (update_profile name) w =
    guarded-Reaches site active_user (update_profile_view name) who w
      (λ user_id user. profile-Reaches site w (some (user_id, user)) name user_id user)
handle-Reaches site who (device_token token platform) w =
    guarded-Reaches site signed_in (device_token_view token platform) who w
      (device-Reaches site w token platform)
handle-Reaches site who (create f) w =
    guarded-Reaches site active_user (create_view site f) who w (create-Reaches site w f)
handle-Reaches site who (accept job_id) w =
    guarded-Reaches site as_worker (accept_view site job_id) who w
      (λ user_id user. calls (Call.accept job_id user_id user) w (same_money w) (inr refl) refl)
handle-Reaches site who (start job_id) w =
    guarded-Reaches site as_worker (start_view site job_id) who w
      (λ user_id user. calls (Call.start job_id user_id) w (same_money w) (inr refl) refl)
handle-Reaches site who (complete job_id) w =
    guarded-Reaches site as_employer (complete_view site job_id) who w
      (λ user_id user. calls (Call.complete job_id user_id user) w (same_money w) (inr refl) refl)
handle-Reaches site who (cancel job_id reason) w =
    guarded-Reaches site active_user (cancel_view site job_id reason) who w
      (cancel-Reaches site w job_id reason)
handle-Reaches site who (update job_id) w =
    guarded-Reaches site active_user update_view who w (λ user_id user. aside (same_money w))
handle-Reaches site who wallet w =
    guarded-Reaches site active_user wallet_view who w (λ user_id user. opens user_id refl)
handle-Reaches site who (deposit amount name) w =
    guarded-Reaches site active_user (deposit_view site amount name) who w
      (deposit-Reaches site w amount name)
handle-Reaches site who (payme payload header method order_id) w =
    calls (Call.payme site.providers site.codecs site.key_of payload header method order_id) w
      (same_money w) (nobody who _ refl) refl
handle-Reaches site who (click payload sign) w =
    calls (Call.click site.providers site.codecs site.key_of payload sign) w (same_money w)
      (nobody who _ refl) refl
handle-Reaches site who (read_one notification_id) w =
    guarded-Reaches site signed_in (read_one_view notification_id) who w
      (λ user_id user. aside (ground arith))
handle-Reaches site who read_all w =
    guarded-Reaches site signed_in read_all_view who w (λ user_id user. aside (ground arith))
handle-Reaches site who (message room_id content) w =
    guarded-Reaches site signed_in (message_view room_id content) who w
      (message-Reaches site w room_id content)

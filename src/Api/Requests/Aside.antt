-- ===== src/Api/Requests/Aside.antt =====
-- The services of codes, chat and devices beside money and jobs.
use ishly_back.Prelude.{ℕ, ◌≡◌, refl, inl, inr, String, keep, arith, Option-cases}
use ishly_back.Data.Accounts.{User}
use ishly_back.World.{World}
use ishly_back.Accounts.Otp.{
  send_otp as send_code, verify_otp as verify_code, Gateway, count_send, latest, is_open, cache_get,
}
use ishly_back.Accounts.OtpOnce.{revoke_all_frame}
use ishly_back.Prelude.Table.{lookup}
use ishly_back.Chat.Rooms.{get_room_or_404, save_message}
use ishly_back.Api.Accounts.Devices.{register_token, find_token}
use ishly_back.Api.Requests.{message_view}

-- Neither wallets nor the ledger nor jobs differ.
pub record SameMoney (w w' : World) : Type 0 where
  pub wallets : w'.wallets ≡ w.wallets
  pub transactions : w'.transactions ≡ w.transactions
  pub jobs : w'.jobs ≡ w.jobs

pub same_money : (w : World) → SameMoney w w
same_money w = record { wallets = refl; transactions = refl; jobs = refl }

pub send_otp-SameMoney :
    (gateway : Gateway) (phone : String) (w : World) → SameMoney w (send_code gateway phone w).1
unfolding send_code cache_get count_send
send_otp-SameMoney gateway phone w =
    let (done, frame) = revoke_all_frame (keep (is_open phone) w.telegram_otps) w in
    elim (Option-cases (gateway.send phone)) [
      | inl failed ↦ ground (arith, frame.db)
      | inr (request_id, sent) ↦ ground (arith, frame.db)
    ]

pub verify_otp-SameMoney :
    (gateway : Gateway) (phone code : String) (w : World)
    → SameMoney w (verify_code gateway phone code w).1
unfolding verify_code
verify_otp-SameMoney gateway phone code w =
    elim (Option-cases (latest (keep (is_open phone) w.telegram_otps))) [
      | inl missing ↦ ground arith
      | inr (row, found) ↦ elim (Option-cases (gateway.verify row.1.request_id code)) [
        | inl failed ↦ ground arith
        | inr (valid, answered) ↦ ground arith
      ]
    ]

pub message_view-SameMoney :
    (room_id user_id : ℕ) (content : String) (user : User) (w : World)
    → SameMoney w (message_view room_id content user_id user w).1
unfolding message_view get_room_or_404 save_message
message_view-SameMoney room_id user_id content user w =
    elim (Option-cases (lookup room_id w.rooms)) [
      | inl missing ↦ ground (arith, missing)
      | inr (room, found) ↦ ground (arith, found)
    ]

pub register_token-SameMoney :
    (user : ℕ) (token platform : String) (w : World)
    → SameMoney w (register_token user token platform w)
unfolding register_token
register_token-SameMoney user token platform w =
    elim (Option-cases (find_token token w.device_tokens)) [
      | inl unknown ↦ ground arith
      | inr (found, known) ↦ ground arith
    ]

-- ===== src/Api/Requests.antt =====
-- The requests that change the database, and the views that take them: apps/jobs/views.py,
-- apps/payments/views.py, and those of accounts, chat and notifications.
pub mod Aside
pub mod Reach
pub mod Safety
pub mod Denied
pub mod Talk
use text.Mathlib.Text.{◌==◌ as str_eq}
use ishly_back.Prelude.{
  ℕ, ◌+◌, ◌*◌, Bool, true, false, not, ◌&&◌, ◌||◌, String, Option, none, some, List, [], ◌∷◌, ltb,
  leb, ◌==◌, if◌then◌else◌,
}
use ishly_back.Prelude.Table.{Table, lookup}
use ishly_back.Core.Errors.{Error, status_code}
use ishly_back.Core.Geo.{FloatOps}
use ishly_back.Core.Strip.{text_length, strip}
use ishly_back.Data.Accounts.{User, is_employer}
use ishly_back.Data.Jobs.{JobFields, JobCategory}
use ishly_back.Data.Notifications.{Notification}
use ishly_back.World.{World, Env, Result, ok, err}
use ishly_back.Payments.Providers.{ProviderSettings, Payload, Codecs, Value}
use ishly_back.Payments.Deposits.{initiate_deposit}
use ishly_back.Payments.Webhooks.{Reply, refused, accepted, failed, payme_post, click_post}
use ishly_back.Jobs.Service.{create_job, accept_job, start_job, complete_job, cancel_job}
use ishly_back.Accounts.Auth.{create_user_wallet}
use ishly_back.Accounts.Otp.{Gateway}
use ishly_back.Chat.Rooms.{get_room_or_404, save_message}
use ishly_back.Data.Chat.{ChatRoom}
use ishly_back.Notifications.Inbox.{mark_notification_read, mark_all_read}
use ishly_back.Api.Access.{Requester, Permission, guarded, respond}
use ishly_back.Api.Accounts.{send_otp_view, verify_otp_view, update_profile_view}
use ishly_back.Api.Accounts.Devices.{device_token_view}

pub data Request : Type 0 where
  send_otp : String → Request
  verify_otp : String → String → Option String → Request
  update_profile : Option String → Request
  device_token : String → String → Request
  create : JobFields → Request
  accept start complete : ℕ → Request
  cancel : ℕ → String → Request
  update : ℕ → Request
  wallet : Request
  deposit : ℕ → String → Request
  payme : Payload → String → String → Value → Request
  click : Payload → String → Request
  read_one : ℕ → Request
  read_all : Request
  message : ℕ → String → Request

-- What the views get from outside: the gateway, the keys of the providers, the codecs of texts, the
-- reading of a key, the test of a phone number, the arithmetic of doubles, and random hex digits.
pub record Site : Type 0 where
  pub env : Env
  pub gateway : Gateway
  pub providers : ProviderSettings
  pub codecs : Codecs
  pub key_of : String → Option ℕ
  pub is_phone : String → Bool
  pub floats : FloatOps
  pub hex : String

-- `PrimaryKeyRelatedField` over the active categories
abbrev pub is_active_category : Option JobCategory → Bool
is_active_category none = false
is_active_category (some category) = category.is_active

-- `lo <= value <= hi` for the number `n` and its negative
abbrev pub within : Site → ℕ → ℕ → Bool
within site n x =
    site.floats.le (site.floats.neg (site.floats.of_nat n)) x
    && site.floats.le x (site.floats.of_nat n)

abbrev pub fits_text : ℕ → String → Bool
fits_text most s = not (text_length s == 0) && leb (text_length s) most

-- `CreateJobSerializer`, for fields of the right types; its texts come without white space around
-- them. A price beyond the column is refused by the range that the model field gives.
unfoldable pub is_valid_job : Site → JobFields → World → Bool
is_valid_job site f w =
    fits_text 200 f.title
    && fits_text 2000 f.description
    && fits_text 500 f.address
    && is_active_category (lookup f.category w.categories)
    && leb 100 f.price
    && leb f.price 2147483647
    && within site 90 f.latitude
    && within site 180 f.longitude

-- `JobViewSet.create`
unfoldable pub create_view : Site → JobFields → ℕ → User → World → ℕ × World
create_view site f user_id user w =
    if is_employer user
    then (if is_valid_job site f w
        then respond 201 (create_job site.env user_id user f w)
        else (400, w))
    else (403, w)

-- `JobViewSet.accept`, `start` and `complete`
abbrev pub accept_view : Site → ℕ → ℕ → User → World → ℕ × World
accept_view site job_id user_id user w = respond 200 (accept_job site.env job_id user_id user w)

abbrev pub start_view : Site → ℕ → ℕ → User → World → ℕ × World
start_view site job_id user_id user w = respond 200 (start_job site.env job_id user_id w)

abbrev pub complete_view : Site → ℕ → ℕ → User → World → ℕ × World
complete_view site job_id user_id user w = respond 200 (complete_job site.env job_id user_id user w)

-- `JobViewSet.update` and `partial_update`
abbrev pub update_view : ℕ → User → World → ℕ × World
update_view user_id user w = (403, w)

-- `WalletView.get`, which makes a wallet that is missing
abbrev pub wallet_view : ℕ → User → World → ℕ × World
wallet_view user_id user w = respond 200 (create_user_wallet user_id w)

-- `JobViewSet.cancel`, and `destroy`, which calls it
unfoldable pub cancel_view : Site → ℕ → String → ℕ → User → World → ℕ × World
cancel_view site job_id reason user_id user w =
    if leb (text_length (strip reason)) 500
    then respond 200 (cancel_job site.env job_id user_id (strip reason) w)
    else (400, w)

-- `InitiateDepositSerializer`
abbrev pub is_valid_deposit : ℕ → String → Bool
is_valid_deposit amount name =
    leb 100 amount && (str_eq name "payme" || str_eq name "click" || str_eq name "mock")

-- `InitiateDepositView.post`
unfoldable pub deposit_view : Site → ℕ → String → ℕ → User → World → ℕ × World
deposit_view site amount name user_id user w =
    if is_valid_deposit amount name
    then respond 201 (initiate_deposit site.env site.providers site.hex user_id amount name w)
    else (400, w)

abbrev inbox_view : Result (Unit {0}) × Table Notification → World → ℕ × World
inbox_view (r, rows) w = respond 200 (r, record w { db = record w.db { notifications = rows } })

-- `MarkNotificationReadView.post` and `MarkAllReadView.post`
abbrev pub read_one_view : ℕ → ℕ → User → World → ℕ × World
read_one_view notification_id user_id user w =
    inbox_view (mark_notification_read user_id notification_id w.now w.notifications) w

abbrev pub read_all_view : ℕ → User → World → ℕ × World
read_all_view user_id user w = inbox_view (ok tt, (mark_all_read user_id w.now w.notifications).1) w

abbrev send_to : Result ChatRoom → ℕ → ℕ → String → World → ℕ × World
send_to (err e) room_id user_id content w = (status_code e, w)
send_to (ok room) room_id user_id content w =
    if fits_text 2000 content
    then respond 201 (save_message room_id user_id content w)
    else (400, w)

-- `SendMessageView.post`: the room comes first, then the content, without the white space around it.
unfoldable pub message_view : ℕ → String → ℕ → User → World → ℕ × World
message_view room_id content user_id user w =
    send_to (get_room_or_404 room_id user_id w).0 room_id user_id (strip content) w

-- The status of a callback: its failures are answered in the body, but for a missing setting.
abbrev pub callback_status : Reply → ℕ
callback_status refused = 200
callback_status accepted = 200
callback_status (failed e) = elim e [ Error.attribute ↦ 500 | _ ↦ 200 ]

abbrev callback : Reply × World → ℕ × World
callback (reply, w) = (callback_status reply, w)

abbrev pub signed_in : List Permission
signed_in = Permission.authenticated ∷ []

abbrev pub active_user : List Permission
active_user = Permission.authenticated ∷ Permission.active ∷ []

abbrev pub as_worker : List Permission
as_worker = Permission.authenticated ∷ Permission.worker_only ∷ []

abbrev pub as_employer : List Permission
as_employer = Permission.authenticated ∷ Permission.employer_only ∷ []

-- The view of each request, behind its `permission_classes`
unfoldable pub handle : Site → Requester → Request → World → ℕ × World
handle site who (send_otp phone) w = send_otp_view site.gateway site.is_phone phone w
handle site who (verify_otp phone code role) w =
    verify_otp_view site.gateway site.is_phone phone code role w
handle site who (update_profile name) w = guarded active_user (update_profile_view name) who w
handle site who (device_token token platform) w =
    guarded signed_in (device_token_view token platform) who w
handle site who (create f) w = guarded active_user (create_view site f) who w
handle site who (accept job_id) w = guarded as_worker (accept_view site job_id) who w
handle site who (start job_id) w = guarded as_worker (start_view site job_id) who w
handle site who (complete job_id) w = guarded as_employer (complete_view site job_id) who w
handle site who (cancel job_id reason) w =
    guarded active_user (cancel_view site job_id reason) who w
handle site who (update job_id) w = guarded active_user update_view who w
handle site who wallet w = guarded active_user wallet_view who w
handle site who (deposit amount name) w = guarded active_user (deposit_view site amount name) who w
handle site who (payme payload header method order_id) w =
    callback
      (payme_post site.env site.providers site.codecs site.key_of payload header method order_id w)
handle site who (click payload sign) w =
    callback (click_post site.env site.providers site.codecs site.key_of payload sign w)
handle site who (read_one notification_id) w =
    guarded signed_in (read_one_view notification_id) who w
handle site who read_all w = guarded signed_in read_all_view who w
handle site who (message room_id content) w = guarded signed_in (message_view room_id content) who w

-- ===== src/Api/Accounts/Devices.antt =====
-- The registration of a device: `RegisterDeviceTokenSerializer` of apps/accounts/serializers.py and its
-- view. The serializer is made from the model, so it refuses a token that a row has already.
use text.Mathlib.Text.{◌==◌ as str_eq}
use text.Mathlib.TextPositions.{eq_refl}
use ishly_back.Prelude.{
  ℕ, ◌+◌, ◌≡◌, refl, inl, inr, Bool, true, not, ◌&&◌, ◌||◌, String, Option, none, some, [], ◌∷◌,
  arith, Option-cases, if◌then◌else◌, is_some,
}
use ishly_back.Prelude.Table.{Table, insert, modify}
use ishly_back.Data.Accounts.{User}
use ishly_back.Data.Notifications.{DeviceToken}
use ishly_back.World.{World}

-- the row with a token, which is unique
unfoldable pub find_token : String → Table DeviceToken → Option (ℕ × DeviceToken)
find_token token [] = none
find_token token ((k, row) ∷ rows) =
    if str_eq row.token token then some (k, row) else find_token token rows

abbrev pub is_platform : String → Bool
is_platform s = str_eq s "ios" || str_eq s "android" || str_eq s "web"

abbrev pub registered : ℕ → String → DeviceToken → DeviceToken
registered user platform row = record row { user = user; platform = platform; is_active = true }

abbrev put_token : Option (ℕ × DeviceToken) → ℕ → String → String → World → World
put_token (some (k, row)) user token platform w = record w {
  db = record w.db { device_tokens = modify k (registered user platform) w.device_tokens };
}
put_token none user token platform w = record w {
  db = record w.db {
    next_id = w.next_id + 1;
    device_tokens =
        insert w.next_id
          (record {
            user = user;
            token = token;
            platform = platform;
            is_active = true;
            last_used_at = none;
          })
          w.device_tokens;
  };
}

-- `RegisterDeviceTokenSerializer.create`: `update_or_create`
unfoldable pub register_token : ℕ → String → String → World → World
register_token user token platform w =
    put_token (find_token token w.device_tokens) user token platform w

-- `RegisterDeviceTokenView.post`, with the validators of the serializer: the platform is one of three,
-- and no row has the token. A text has no white space around it, since the field takes it off.
unfoldable pub device_token_view : String → String → ℕ → User → World → ℕ × World
device_token_view token platform user_id user w =
    if not (str_eq token "")
      && is_platform platform
      && not (is_some (find_token token w.device_tokens))
    then (200, register_token user_id token platform w)
    else (400, w)

-- Once a device is registered, no registration of the same token goes through, for whatever user: it
-- is a 400 that changes nothing, and the token stays with the user who registered it.
pub device_token_view-again :
    (token platform platform' : String) (user_id other_id : ℕ) (user other : User) (w w' : World)
    → device_token_view token platform user_id user w ≡ (200, w')
    → (device_token_view token platform' other_id other w' ≡ (400, w'))
      × ((k : ℕ) × (row : DeviceToken) × (find_token token w'.device_tokens ≡ some (k, row))
          × (row.user ≡ user_id))
unfolding device_token_view register_token find_token
device_token_view-again token platform platform' user_id other_id user other w w' h =
    elim (Option-cases (find_token token w.device_tokens)) [
      | inr (found, known) ↦ absurd (ground arith)
      | inl unknown ↦ (
        ground (arith, eq_refl token),
        (
          w.next_id,
          record {
            user = user_id;
            token = token;
            platform = platform;
            is_active = true;
            last_used_at = none;
          },
          ground (arith, eq_refl token),
          refl,
        ),
      )
    ]

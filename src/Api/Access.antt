-- ===== src/Api/Access.antt =====
-- apps/core/permissions.py, and how a view answers. The library's authentication gives the user of a
-- request, if there is one, and refuses the token of an inactive user with a 401; a refused permission
-- is a 401 without a user and a 403 with one.
use ishly_back.Prelude.{
  ℕ, Bool, true, false, not, ◌&&◌, Option, none, some, List, [], ◌∷◌, if◌then◌else◌,
}
use ishly_back.Core.Errors.{status_code}
use ishly_back.Data.Accounts.{User, is_employer, is_worker}
use ishly_back.World.{World, Result, ok, err}
use ishly_back.Accounts.Users.{is_active_user}

-- `request.user`: a key and a row
abbrev pub Requester : Type 0
Requester = Option (ℕ × User)

pub data Permission : Type 0 where
  authenticated active employer_only worker_only : Permission

-- `has_permission` of `IsAuthenticated`, `IsActiveUser`, `IsEmployer` and `IsWorker`
unfoldable pub has_permission : Permission → Requester → Bool
has_permission p none = false
has_permission Permission.authenticated (some (_, user)) = true
has_permission Permission.active (some (_, user)) = is_active_user user
has_permission Permission.employer_only (some (_, user)) = is_employer user
has_permission Permission.worker_only (some (_, user)) = is_worker user

abbrev pub permitted : List Permission → Requester → Bool
permitted [] who = true
permitted (p ∷ ps) who = has_permission p who && permitted ps who

-- The status of an answer: its own for a success, else that of the exception.
abbrev pub status_of : {A : Type 0} → ℕ → Result A → ℕ
status_of good (ok _) = good
status_of good (err e) = status_code e

abbrev pub respond : {A : Type 0} → ℕ → Result A × World → ℕ × World
respond good (r, w) = (status_of good r, w)

-- A view that asks for the user, where there is none, is the error of a missing attribute.
abbrev pub served : (ℕ → User → World → ℕ × World) → Requester → World → ℕ × World
served view none w = (500, w)
served view (some (user_id, user)) w = view user_id user w

-- the status of a refused permission
abbrev pub refusal : Requester → ℕ
refusal none = 401
refusal (some _) = 403

-- whether the token of a request is that of a user who is not active
abbrev pub is_inactive : Requester → Bool
is_inactive none = false
is_inactive (some (_, user)) = not user.is_active

-- a view behind the authentication and its permissions
abbrev pub guarded :
    List Permission → (ℕ → User → World → ℕ × World) → Requester → World → ℕ × World
guarded ps view who w =
    if is_inactive who
    then (401, w)
    else if permitted ps who
    then served view who w
    else (refusal who, w)

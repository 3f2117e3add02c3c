-- ===== src/Scripts/Seed.antt =====
-- The command of scripts/seed_data.py. What `random` draws is a record of draws for each user and each
-- job; a `random.choice` is the element at the index that it draws.
use Prim.Native.String.{◌++◌ as concat}
use text.Mathlib.Text.{◌==◌ as str_eq}
use ishly_back.Prelude.{
  ℕ, zero, suc, ◌+◌, true, String, Option, none, some, List, [], ◌∷◌, ◌++◌, ◌==◌, if◌then◌else◌,
}
use ishly_back.Prelude.Table.{Table, insert}
use ishly_back.Core.Text.{str}
use ishly_back.Data.Accounts.{User, UserRole}
use ishly_back.Data.Payments.{Transaction, TransactionType, TransactionStatus, Direction}
use ishly_back.Data.Jobs.{JobCategory}
use ishly_back.World.{Action, pure, gets, modify_db, ◌>>=◌, ◌>>◌}
use ishly_back.Payments.Wallets.{get_wallet, save_wallet, create_transaction}
use ishly_back.Accounts.Auth.{find_phone, new_user, create_user_wallet}

-- `random.choice` of a list that is not empty
abbrev pub choose {ℓ} : {A : Type ℓ} → ℕ → A → List A → A
choose zero x xs = x
choose (suc i) x [] = x
choose (suc i) x (y ∷ ys) = choose i y ys

abbrev category : String → String → ℕ → JobCategory
category name slug sort_order = record {
  name = name;
  slug = slug;
  is_active = true;
  sort_order = sort_order;
}

-- `CATEGORIES`, without the icons
abbrev pub categories : List JobCategory
categories =
    category "Cleaning" "cleaning" 1
    ∷ category "Delivery" "delivery" 2
    ∷ category "Moving" "moving" 3
    ∷ category "Repair" "repair" 4
    ∷ category "Assembly" "assembly" 5
    ∷ category "Gardening" "gardening" 6
    ∷ category "Painting" "painting" 7
    ∷ category "IT Help" "it-help" 8
    ∷ category "Security" "security" 9
    ∷ category "Cooking" "cooking" 10
    ∷ []

abbrev pub find_slug : String → Table JobCategory → Option (ℕ × JobCategory)
find_slug slug [] = none
find_slug slug ((k, c) ∷ rows) = if str_eq c.slug slug then some (k, c) else find_slug slug rows

abbrev pub create_category : JobCategory → Action (ℕ × JobCategory)
create_category c = do
  k ← gets (λ w. w.next_id)
  modify_db (λ db. record db { next_id = db.next_id + 1; categories = insert k c db.categories })
  pure (k, c)

abbrev pub found_category : JobCategory → Option (ℕ × JobCategory) → Action (ℕ × JobCategory)
found_category c none = create_category c
found_category c (some row) = pure row

-- `_seed_categories`: the rows, in the order of the list
unfoldable pub seed_categories : List JobCategory → Action (Table JobCategory)
seed_categories [] = pure []
seed_categories (c ∷ cs) = do
  row ← (λ w. found_category c (find_slug c.slug w.categories) w)
  rows ← seed_categories cs
  pure (row ∷ rows)

-- What is drawn for a user.
pub record UserDraw : Type 0 where
  pub code : ℕ
  pub number : ℕ
  pub name : String
  pub rating : ℕ
  pub rating_count : ℕ

-- `f"+9989{...}{...}"`
abbrev pub phone_of : UserDraw → String
phone_of draw = concat "+9989" (concat (str draw.code) (str draw.number))

abbrev pub seeded_user : UserRole → UserDraw → User
seeded_user role draw = record (new_user (phone_of draw) role) {
  name = draw.name;
  rating = draw.rating;
  rating_count = draw.rating_count;
  is_profile_complete = true;
}

-- The new row of a user, and its wallet, which the receiver of `post_save` makes
abbrev pub add_user : User → Action ℕ
add_user user = do
  k ← gets (λ w. w.next_id)
  modify_db (λ db. record db { next_id = db.next_id + 1; users = insert k user db.users })
  create_user_wallet k
  pure k

abbrev pub added : User → Option (ℕ × User) → Action (List ℕ)
added user none = do k ← add_user user; pure (k ∷ [])
added user (some _) = pure []

-- One of the two loops of `_seed_users`: the keys of the users that are new
unfoldable pub seed_role : UserRole → List UserDraw → Action (List ℕ)
seed_role role [] = pure []
seed_role role (draw ∷ draws) = do
  new ← (λ w. added (seeded_user role draw) (find_phone (phone_of draw) w.users) w)
  rest ← seed_role role draws
  pure (new ++ rest)

abbrev superuser : User
superuser = record (new_user "+998901234567" UserRole.employer) {
  name = "Admin User";
  is_staff = true;
}

-- `_seed_users`
unfoldable pub seed_users : List UserDraw → List UserDraw → Action (List ℕ × List ℕ)
seed_users employer_draws worker_draws = do
  (λ w. added superuser (find_phone "+998901234567" w.users) w)
  employers ← seed_role UserRole.employer employer_draws
  workers ← seed_role UserRole.worker worker_draws
  pure (employers, workers)

abbrev pub seed_deposit : ℕ → ℕ → Transaction
seed_deposit user amount = record {
  wallet = user;
  transaction_type = TransactionType.deposit;
  direction = Direction.credit;
  amount = amount;
  balance_before = 0;
  balance_after = amount;
  status = TransactionStatus.completed;
  job = none;
  provider = "seed";
  external_id = "";
}

abbrev pub fund_wallet : ℕ → ℕ → Action (Unit {0})
fund_wallet user amount = do
  save_wallet user (λ row. record row { balance = amount })
  create_transaction (seed_deposit user amount)
  pure tt

-- `if wallet.balance == 0: ...`
abbrev pub fill_wallet : ℕ → ℕ → Action (Unit {0})
fill_wallet user amount = do
  wallet ← get_wallet user
  (if wallet.balance == 0 then fund_wallet user amount else pure tt)

-- One round of `_seed_wallets`
abbrev pub seed_wallet : ℕ → ℕ → Action (Unit {0})
seed_wallet user amount = do create_user_wallet user; fill_wallet user amount

-- `_seed_wallets`, with the amount that is drawn for each user
unfoldable pub seed_wallets : List (ℕ × ℕ) → Action (Unit {0})
seed_wallets [] = pure tt
seed_wallets ((user, amount) ∷ users) = do seed_wallet user amount; seed_wallets users

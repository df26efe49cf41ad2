-- ===== src/ActionTokens/Tests.antt =====
-- The theorems on the action tokens at concrete tables.
use mathlib.Core.Option
use hexagonal.Base.{
  ℕ, ◌≡◌, refl, String, true, ◌==◌, Option, none, some, List, [], ◌∷◌, err, if◌then◌else◌,
}
use hexagonal.Table.Upsert.{upserting}
use hexagonal.Sessions.Token.{parse_opaque_token}
use hexagonal.Users.Entity.{User, rehydrate, update_password}
use hexagonal.Users.Repository
use hexagonal.ActionTokens.Entity.{UserActionToken, password_reset, email_verification, is_active}
use hexagonal.ActionTokens.Repository.{token_id, find_by_id}
use hexagonal.ActionTokens.UseCases.{
  Store, Ports, user_not_found, action_token_not_found, token_of_purpose, reset_password,
}
use hexagonal.ActionTokens.Steps.{reset, steps}
use hexagonal.ActionTokens.Spent.{reset_token_refused}
use hexagonal.ActionTokens.Deleted.{reset_of_deleted_user}

abbrev split : String → List String
split token = if token == "t.a" then "t" ∷ "a" ∷ [] else []

abbrev ports : Ports
ports = record {
  texts = record { trim = λ s. s; to_lower_case = λ s. s };
  split = split;
  compare = λ secret hash. secret == hash;
  hash = λ salt secret. secret;
  token_saves = upserting token_id;
}

abbrev ann : Option ℕ → User
ann deleted_at = record {
  id = "u";
  email = "a@b.c";
  password_hash = "old";
  first_name = "Ann";
  last_name = "Lee";
  email_verified_at = none;
  deleted_at = deleted_at;
  created_at = 1;
  updated_at = 1;
}

abbrev ticket : UserActionToken
ticket = record {
  id = "t";
  user_id = "u";
  purpose = password_reset;
  token_hash = "a";
  expires_at = 900;
  consumed_at = none;
  created_at = 5;
}

abbrev store : Option ℕ → Store
store deleted_at = record { users = ann deleted_at ∷ []; tokens = ticket ∷ [] }

reset_token_refused_example :
    token_of_purpose ports email_verification 20 "t.a"
      (steps ports
        (reset 12 "salt" "t.a" "newer" ∷ [])
        (reset_password ports 10 "salt" "t.a" "new" (store none)).1).tokens
    ≡ err (action_token_not_found "email verification")
unfolding parse_opaque_token reset_password token_of_purpose find_by_id is_active
    Repository.find_by_id rehydrate update_password Repository.update
reset_token_refused_example =
    reset_token_refused ports 10 "salt" "t.a" "new" (store none) (record { id = "t"; secret = "a" })
      refl refl (reset 12 "salt" "t.a" "newer" ∷ []) (tt, tt) email_verification 20

-- The password of the deleted user is changed nonetheless.
deleted_users_password :
    Option.map
      (λ (u : User). u.password_hash)
      (Repository.find_by_id ports.texts true "u"
        (reset_password ports 10 "salt" "t.a" "new" (store (some 3))).1.users)
    ≡ some "new"
unfolding parse_opaque_token reset_password token_of_purpose find_by_id is_active
    Repository.find_by_id Repository.update update_password rehydrate
deleted_users_password = refl

reset_of_deleted_user_example :
    let after = reset_password ports 10 "salt" "t.a" "new" (store (some 3)) in
    (after.0 ≡ err (user_not_found "u"))
    × (after.1.tokens ≡ ticket ∷ [])
    × (after.1.users
        ≡ (Repository.update ports.texts 10 "u"
            (update_password 10 "new" (ann (some 3)))
            (ann (some 3) ∷ [])).1)
unfolding parse_opaque_token token_of_purpose find_by_id is_active Repository.find_by_id rehydrate
reset_of_deleted_user_example =
    reset_of_deleted_user ports 10 "salt" "t.a" "new" (store (some 3)) ticket (ann (some 3)) refl
      refl refl

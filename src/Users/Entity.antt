-- ===== src/Users/Entity.antt =====
-- src/modules/iam/users/domain/entities/user.entity.ts. The clock is an argument, and the texts of
-- the runtime are a parameter.
use Prim.Native.String
use hexagonal.Base.{ℕ, String, Bool, Option, none, some, is_some, if◌then◌else◌}

pub record Texts : Type 0 where
  pub trim : String → String
  pub to_lower_case : String → String

pub record User : Type 0 where
  pub id : String
  pub email : String
  pub password_hash : String
  pub first_name : String
  pub last_name : String
  pub email_verified_at : Option ℕ
  pub deleted_at : Option ℕ
  pub created_at : ℕ
  pub updated_at : ℕ

unfoldable pub full_name : User → String
full_name user = String.◌++◌ user.first_name (String.◌++◌ " " user.last_name)

abbrev pub is_deleted : User → Bool
is_deleted user = is_some user.deleted_at

abbrev pub is_email_verified : User → Bool
is_email_verified user = is_some user.email_verified_at

unfoldable pub soft_delete : (now : ℕ) → User → User
soft_delete now user = record user { deleted_at = some now; updated_at = now }

unfoldable pub restored : (now : ℕ) → User → User
restored now user = record user { deleted_at = none; updated_at = now }

unfoldable pub update_password : (now : ℕ) (password_hash : String) → User → User
update_password now password_hash user = record user {
  password_hash = password_hash;
  updated_at = now;
}

unfoldable pub verify_email : (now : ℕ) → User → User
verify_email now user =
    if is_email_verified user
    then user
    else record user { email_verified_at = some now; updated_at = now }

module _ (texts : Texts) where
  -- The texts that `rehydrate` writes anew.
  unfoldable pub rehydrate : User → User
  rehydrate props = record props {
    email = texts.trim (texts.to_lower_case props.email);
    first_name = texts.trim props.first_name;
    last_name = texts.trim props.last_name;
  }

  unfoldable pub create :
      (now : ℕ) (id email password_hash first_name last_name : String)
      → (email_verified_at : Option ℕ) → User
  unfolding rehydrate
  create now id email password_hash first_name last_name email_verified_at = rehydrate (record {
    id = id;
    email = email;
    password_hash = password_hash;
    first_name = first_name;
    last_name = last_name;
    email_verified_at = email_verified_at;
    deleted_at = none;
    created_at = now;
    updated_at = now;
  })

  unfoldable pub update_profile : (now : ℕ) (first_name last_name : String) → User → User
  update_profile now first_name last_name user = record user {
    first_name = texts.trim first_name;
    last_name = texts.trim last_name;
    updated_at = now;
  }

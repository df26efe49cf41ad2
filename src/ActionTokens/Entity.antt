-- ===== src/ActionTokens/Entity.antt =====
-- src/modules/iam/auth/domain/entities/user-action-token.entity.ts; the clock is an argument.
use hexagonal.Base.{ℕ, String, Bool, true, false, not, ◌&&◌, ltb, Option, none, some, is_some}

pub data UserActionTokenPurpose : Type 0 where
  password_reset : UserActionTokenPurpose
  email_verification : UserActionTokenPurpose

abbrev pub same_purpose : UserActionTokenPurpose → UserActionTokenPurpose → Bool
same_purpose password_reset password_reset = true
same_purpose email_verification email_verification = true
same_purpose _ _ = false

pub record UserActionToken : Type 0 where
  pub id : String
  pub user_id : String
  pub purpose : UserActionTokenPurpose
  pub token_hash : String
  pub expires_at : ℕ
  pub consumed_at : Option ℕ
  pub created_at : ℕ

unfoldable pub create :
    (now : ℕ) (id user_id : String)
    → UserActionTokenPurpose
    → (token_hash : String) (expires_at : ℕ) → UserActionToken
create now id user_id purpose token_hash expires_at = record {
  id = id;
  user_id = user_id;
  purpose = purpose;
  token_hash = token_hash;
  expires_at = expires_at;
  consumed_at = none;
  created_at = now;
}

unfoldable pub is_active : (now : ℕ) → UserActionToken → Bool
is_active now token = not (is_some token.consumed_at) && ltb now token.expires_at

unfoldable pub consume : (now : ℕ) → UserActionToken → UserActionToken
consume now token = record token { consumed_at = some now }

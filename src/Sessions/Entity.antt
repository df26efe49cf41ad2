-- ===== src/Sessions/Entity.antt =====
-- src/modules/iam/auth/domain/entities/auth-session.entity.ts; the clock is an argument.
use hexagonal.Base.{ℕ, String, Bool, not, ◌&&◌, ltb, Option, none, some, is_some}

pub record AuthSession : Type 0 where
  pub id : String
  pub user_id : String
  pub refresh_token_hash : String
  pub expires_at : ℕ
  pub revoked_at : Option ℕ
  pub created_at : ℕ
  pub updated_at : ℕ

unfoldable pub create :
    (now : ℕ) (id user_id refresh_token_hash : String) (expires_at : ℕ) → AuthSession
create now id user_id refresh_token_hash expires_at = record {
  id = id;
  user_id = user_id;
  refresh_token_hash = refresh_token_hash;
  expires_at = expires_at;
  revoked_at = none;
  created_at = now;
  updated_at = now;
}

unfoldable pub is_active : (now : ℕ) → AuthSession → Bool
is_active now session = not (is_some session.revoked_at) && ltb now session.expires_at

unfoldable pub rotate :
    (now : ℕ) (refresh_token_hash : String) (expires_at : ℕ) → AuthSession → AuthSession
rotate now refresh_token_hash expires_at session = record session {
  refresh_token_hash = refresh_token_hash;
  expires_at = expires_at;
  revoked_at = none;
  updated_at = now;
}

unfoldable pub revoke : (now : ℕ) → AuthSession → AuthSession
revoke now session = record session { revoked_at = some now; updated_at = now }

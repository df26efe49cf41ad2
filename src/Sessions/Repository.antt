-- ===== src/Sessions/Repository.antt =====
-- src/modules/iam/auth/infrastructure/persistence/typeorm/repositories/
-- auth-session.typeorm-repository.ts.
use hexagonal.Base.{ℕ, String, not, ◌&&◌, ◌==◌, Option, some, is_some, List}
use hexagonal.Table.{find_by, update_where, Saves}
use hexagonal.Sessions.Entity.{AuthSession}

abbrev pub session_id : AuthSession → String
session_id s = s.id

unfoldable pub find_by_id : String → List AuthSession → Option AuthSession
find_by_id = find_by session_id

-- Four columns of the row with the id; without such a row nothing is written.
unfoldable pub update : AuthSession → List AuthSession → List AuthSession
update session =
    update_where (λ r. r.id == session.id)
      (λ r. record r {
        refresh_token_hash = session.refresh_token_hash;
        expires_at = session.expires_at;
        revoked_at = session.revoked_at;
        updated_at = session.updated_at;
      })

unfoldable pub revoke_all_active_by_user_id :
    (now : ℕ) (user_id : String) → List AuthSession → List AuthSession
revoke_all_active_by_user_id now user_id =
    update_where (λ r. (r.user_id == user_id) && not (is_some r.revoked_at))
      (λ r. record r { revoked_at = some now; updated_at = now })

-- `create`, by the object mapper's `save`.
unfoldable pub create_row :
    Saves AuthSession session_id → AuthSession → List AuthSession → List AuthSession
create_row saves = saves.save

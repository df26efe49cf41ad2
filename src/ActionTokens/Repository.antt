-- ===== src/ActionTokens/Repository.antt =====
-- src/modules/iam/auth/infrastructure/persistence/typeorm/repositories/
-- user-action-token.typeorm-repository.ts.
use hexagonal.Base.{
  String, not, ◌&&◌, ◌==◌, leb, Option, none, some, is_some, List, [], ◌∷◌, filter, if◌then◌else◌,
}
use hexagonal.Table.{find_by, update_where, Saves}
use hexagonal.ActionTokens.Entity.{UserActionTokenPurpose, same_purpose, UserActionToken}

abbrev pub token_id : UserActionToken → String
token_id t = t.id

unfoldable pub find_by_id : String → List UserActionToken → Option UserActionToken
find_by_id = find_by token_id

-- The newest, as `ORDER BY "createdAt" DESC LIMIT 1` gives it.
abbrev pub newest : List UserActionToken → Option UserActionToken
newest [] = none
newest (t ∷ ts) = elim (newest ts) [
  | none ↦ some t
  | some u ↦ if leb u.created_at t.created_at then some t else some u
]

-- Expired tokens are among them; only consumed ones are not.
unfoldable pub find_active_by_user_id_and_purpose :
    (user_id : String) → UserActionTokenPurpose → List UserActionToken → Option UserActionToken
find_active_by_user_id_and_purpose user_id purpose rows = newest (
    filter
      (λ t. (t.user_id == user_id) && same_purpose t.purpose purpose && not (is_some t.consumed_at))
      rows)

unfoldable pub create_row :
    Saves UserActionToken token_id → UserActionToken → List UserActionToken → List UserActionToken
create_row saves = saves.save

-- Three columns of the row with the id.
unfoldable pub update : UserActionToken → List UserActionToken → List UserActionToken
update token =
    update_where (λ r. r.id == token.id)
      (λ r. record r {
        consumed_at = token.consumed_at;
        expires_at = token.expires_at;
        token_hash = token.token_hash;
      })

-- ===== src/Users/Repository.antt =====
-- src/modules/iam/users/infrastructure/persistence/typeorm/repositories/user.typeorm-repository.ts.
-- The object mapper leaves out rows with `deletedAt`, unless it is asked for them. It sets `updatedAt`
-- on its own, to the time of the statement.
use hexagonal.Base.{
  true, ℕ, String, Bool, false, not, ◌&&◌, ◌||◌, ◌==◌, Option, none, some, List, find,
  if◌then◌else◌,
}
use hexagonal.Table.{update_where}
use hexagonal.Users.Entity.{User, Texts, is_deleted, rehydrate}

abbrev pub user_id : User → String
user_id u = u.id

-- `if (data.field)`: the empty text changes nothing.
abbrev pub or_kept : (given kept : String) → String
or_kept given kept = if given == "" then kept else given

module _ (texts : Texts) where
  -- `UserMapper.toDomain`
  abbrev pub to_domain : Option User → Option User
  to_domain none = none
  to_domain (some user) = some (rehydrate texts user)

  unfoldable pub find_by_id : (include_deleted : Bool) (id : String) → List User → Option User
  find_by_id include_deleted id rows =
      to_domain (find (λ u. (u.id == id) && (include_deleted || not (is_deleted u))) rows)

  unfoldable pub find_by_email : (include_deleted : Bool) (email : String) → List User → Option User
  find_by_email include_deleted email rows = to_domain (
      find
        (λ u.
          (u.email == texts.trim (texts.to_lower_case email))
          && (include_deleted || not (is_deleted u)))
        rows)

  -- The columns of the user are written to the row with the id, and the row read back, if it is not
  -- deleted. `none` is `UserNotFoundException`.
  unfoldable pub update :
      (now : ℕ) (id : String) (user : User) → List User → Option User × List User
  unfolding find_by_id
  update now id user rows =
      let after =
        update_where (λ r. r.id == id)
          (λ r. record r {
            email = or_kept user.email r.email;
            password_hash = or_kept user.password_hash r.password_hash;
            first_name = or_kept user.first_name r.first_name;
            last_name = or_kept user.last_name r.last_name;
            email_verified_at = user.email_verified_at;
            deleted_at = user.deleted_at;
            updated_at = now;
          })
          rows in
      (find_by_id false id after, after)

-- `softDelete` and `restore` of the object mapper.
unfoldable pub delete : (now : ℕ) (id : String) → List User → List User
delete now id =
    update_where (λ r. r.id == id) (λ r. record r { deleted_at = some now; updated_at = now })

-- The row that is read back; `none` is `UserNotFoundException`.
unfoldable pub restore :
    (texts : Texts) (now : ℕ) (id : String) → List User → Option User × List User
unfolding find_by_id
restore texts now id rows =
    let after =
      update_where (λ r. r.id == id) (λ r. record r { deleted_at = none; updated_at = now }) rows in
    (find_by_id texts true id after, after)

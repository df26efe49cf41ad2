-- ===== src/ActionTokens/Deleted.antt =====
-- A reset of the password of a deleted user, in src/modules/iam/auth.
use hexagonal.Base.{
  ℕ, ◌≡◌, refl, String, true, false, not, ◌&&◌, ◌||◌, ◌==◌, none, some, List, [], ◌∷◌, find, arith,
  ok, err,
}
use hexagonal.Table.{update_where}
use hexagonal.Users.Entity.{User, is_deleted, update_password}
use hexagonal.Users.Repository
use hexagonal.Users.Repository.{or_kept}
use hexagonal.ActionTokens.Entity.{UserActionToken, password_reset}
use hexagonal.ActionTokens.UseCases.{Store, Ports, user_not_found, token_of_purpose, reset_password}

-- A change of the rows with an id, after which they are all deleted.
deleted_not_found :
    (id : String) (f : User → User) (rows : List User)
    → ((u : User) → (f u).id ≡ u.id)
    → ((u : User) → is_deleted (f u) ≡ true)
    → find
        (λ u. (u.id == id) && (false || not (is_deleted u)))
        (update_where (λ r. r.id == id) f rows)
      ≡ none
deleted_not_found id f [] keeps gone = refl
deleted_not_found id f (u ∷ rows) keeps gone =
    ground (arith, keeps u, gone u, deleted_not_found id f rows keeps gone)

module _ (ports : Ports) where
  -- The users' repository writes the user, and does not find him afterwards.
  update_deleted :
      (now : ℕ) (id : String) (user : User) (rows : List User)
      → is_deleted user ≡ true
      → (Repository.update ports.texts now id user rows).0 ≡ none
  unfolding Repository.update Repository.find_by_id
  update_deleted now id user rows gone =
      let missing =
        deleted_not_found id
          (λ r. record r {
            email = or_kept user.email r.email;
            password_hash = or_kept user.password_hash r.password_hash;
            first_name = or_kept user.first_name r.first_name;
            last_name = or_kept user.last_name r.last_name;
            email_verified_at = user.email_verified_at;
            deleted_at = user.deleted_at;
            updated_at = now;
          })
          rows (λ u. refl) (λ u. gone) in
      rw missing refl

  -- A reset with the token of a deleted user ends with the exception that there is no such user, after
  -- the new password is written; the token is left as it was.
  pub reset_of_deleted_user :
      (now : ℕ) (salt token new_password : String) (store : Store) (t : UserActionToken)
      (user : User)
      → token_of_purpose ports password_reset now token store.tokens ≡ ok t
      → Repository.find_by_id ports.texts true t.user_id store.users ≡ some user
      → is_deleted user ≡ true
      → let after = reset_password ports now salt token new_password store in
        (after.0 ≡ err (user_not_found user.id))
        × (after.1.tokens ≡ store.tokens)
        × (after.1.users
            ≡ (Repository.update ports.texts now user.id
                (update_password now (ports.hash salt new_password) user)
                store.users).1)
  unfolding reset_password update_password
  reset_of_deleted_user now salt token new_password store t user taken found gone =
      let unread =
        update_deleted now user.id (update_password now (ports.hash salt new_password) user)
          store.users gone in
      (ground arith, ground arith, ground arith)

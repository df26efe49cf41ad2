-- ===== src/ActionTokens/Steps.antt =====
-- Use cases of src/modules/iam/auth on action tokens one after another, and what each leaves consumed.
use hexagonal.Base.{
  ℕ, ◌≡◌, ◌≢◌, inl, inr, String, Bool, true, ◌==◌, none, some, is_some, List, [], ◌∷◌, arith,
  eq_iff, Option-cases, if◌then◌else◌,
}
use hexagonal.Table.{find_by-map}
use hexagonal.Users.Entity.{User}
use hexagonal.Users.Repository
use hexagonal.ActionTokens.Entity.{UserActionTokenPurpose, UserActionToken, create, consume}
use hexagonal.ActionTokens.Repository.{
  token_id, find_by_id, find_active_by_user_id_and_purpose, create_row, update,
}
use hexagonal.ActionTokens.UseCases.{
  Store, Ports, DeliveryMode, spend, reset_password, verify, issue, request_password_reset,
  request_email_verification,
}

-- One use case, run by one user after another.
pub data Step : Type 0 where
  reset : (now : ℕ) → (salt token new_password : String) → Step
  confirm : (now : ℕ) → (token : String) → Step
  ask_reset : DeliveryMode → (sent : Bool) → (now : ℕ) → (id secret salt email : String) → Step
  ask_confirmation :
      DeliveryMode → (sent : Bool) → (now : ℕ) → (id secret salt user_id : String) → Step

-- A request draws another id, as random UUIDs are.
abbrev pub IsOtherId : String → Step → Type 0
IsOtherId id (ask_reset mode sent now drawn secret salt email) = drawn ≢ id
IsOtherId id (ask_confirmation mode sent now drawn secret salt user_id) = drawn ≢ id
IsOtherId id _ = Unit

abbrev pub AreOtherIds : String → List Step → Type 0
AreOtherIds id [] = Unit
AreOtherIds id (s ∷ ss) = IsOtherId id s × AreOtherIds id ss

-- The token with the id, if there is one, is consumed.
abbrev pub IsSpent : (id : String) → List UserActionToken → Type 0
IsSpent id rows = (t : UserActionToken) → find_by_id id rows ≡ some t → is_some t.consumed_at ≡ true

module _ (ports : Ports) where
  unfoldable pub step : Step → Store → Store
  step (reset now salt token new_password) store =
      (reset_password ports now salt token new_password store).1
  step (confirm now token) store = (verify ports now token store).1
  step (ask_reset mode sent now id secret salt email) store =
      (request_password_reset ports mode sent now id secret salt email store).1
  step (ask_confirmation mode sent now id secret salt user_id) store =
      (request_email_verification ports mode sent now id secret salt user_id store).1

  abbrev pub steps : List Step → Store → Store
  steps [] store = store
  steps (s ∷ ss) store = steps ss (step s store)

  pub find_by_id-update :
      (id : String) (t : UserActionToken) (rows : List UserActionToken)
      → find_by_id id (update t rows) ≡ (elim (find_by_id id rows) [
        | none ↦ none
        | some r ↦ some (
            if r.id == t.id
            then record r {
              consumed_at = t.consumed_at;
              expires_at = t.expires_at;
              token_hash = t.token_hash;
            }
            else r)
      ])
  unfolding update find_by_id
  find_by_id-update id t rows = find_by-map token_id _ id rows (λ r. ground arith)

  -- A token that is consumed is written, whatever row it goes to.
  pub consumed-IsSpent :
      (id : String) (now : ℕ) (t : UserActionToken) (rows : List UserActionToken)
      → IsSpent id rows
      → IsSpent id (update (consume now t) rows)
  unfolding consume
  consumed-IsSpent id now t rows spent after found =
      let row = find_by_id-update id (consume now t) rows in
      elim (Option-cases (find_by_id id rows)) [
        | inl missing ↦ absurd (ground arith)
        | inr (r, there) ↦ let kept = spent r there in ground arith
      ]

  pub created-IsSpent :
      (id : String) (t : UserActionToken) (rows : List UserActionToken)
      → t.id ≢ id
      → IsSpent id rows
      → IsSpent id (create_row ports.token_saves t rows)
  unfolding create_row find_by_id
  created-IsSpent id t rows other spent after found =
      spent after (ground (arith, ports.token_saves.find_by-save id t rows, eq_iff t.id id))

  pub issue-IsSpent :
      (id : String) (purpose : UserActionTokenPurpose) (now : ℕ) (drawn secret salt : String)
      → (user : User) (store : Store) → drawn ≢ id
      → IsSpent id store.tokens
      → IsSpent id (issue ports purpose now drawn secret salt user store).1.tokens
  unfolding issue create
  issue-IsSpent id purpose now drawn secret salt user store other spent =
      elim (Option-cases (find_active_by_user_id_and_purpose user.id purpose store.tokens)) [
        | inl first ↦ rw first (created-IsSpent id _ store.tokens other spent)
        | inr (older, there) ↦ rw there (
            created-IsSpent id _ (update (consume now older) store.tokens) other
              (consumed-IsSpent id now older store.tokens spent))
      ]

  pub spend-IsSpent :
      (id : String) (change : User → User) (now : ℕ) (t : UserActionToken) (store : Store)
      → IsSpent id store.tokens
      → IsSpent id (spend ports change now t store).1.tokens
  unfolding spend
  spend-IsSpent id change now t store spent after found =
      elim (Option-cases (Repository.find_by_id ports.texts true t.user_id store.users)) [
        | inl gone ↦ spent after (ground arith)
        | inr (user, there) ↦
            elim (Option-cases
              (Repository.update ports.texts now user.id (change user) store.users).0) [
                | inl unread ↦ spent after (ground arith)
                | inr (written, read) ↦
                    consumed-IsSpent id now t store.tokens spent after (ground arith)
              ]
      ]

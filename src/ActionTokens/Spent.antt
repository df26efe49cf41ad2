-- ===== src/ActionTokens/Spent.antt =====
-- A token of src/modules/iam/auth that was used is used no more.
use hexagonal.Base.{
  ℕ, ◌≡◌, ◌≢◌, inl, inr, String, Bool, true, false, some, List, [], ◌∷◌, arith, eq_refl, ok, err,
  Bool-cases, Option-cases, Result-cases,
}
use hexagonal.Sessions.Token.{OpaqueTokenParts, parse_opaque_token}
use hexagonal.Users.Entity.{User, is_deleted, is_email_verified, update_password, verify_email}
use hexagonal.Users.Repository
use hexagonal.ActionTokens.Entity.{
  UserActionTokenPurpose, password_reset, email_verification, UserActionToken, is_active, consume,
}
use hexagonal.ActionTokens.Repository.{find_by_id}
use hexagonal.ActionTokens.UseCases.{
  Store, Ports, action_token_not_found, DeliveryMode, sync, async, Message, label, token_of_purpose,
  spend, reset_password, verify, issue, deliver, request_password_reset, request_email_verification,
}
use hexagonal.ActionTokens.Steps.{
  Step, reset, confirm, ask_reset, ask_confirmation, IsOtherId, AreOtherIds, IsSpent, step, steps,
  find_by_id-update, issue-IsSpent, spend-IsSpent,
}

module _ (ports : Ports) where
  deliver-IsSpent :
      (id : String) (mode : DeliveryMode) (sent : Bool) (message : Message) (before after : Store)
      → IsSpent id before.tokens
      → IsSpent id after.tokens
      → IsSpent id (deliver ports mode sent message before after).1.tokens
  deliver-IsSpent id sync true message before after old new = new
  deliver-IsSpent id async true message before after old new = new
  deliver-IsSpent id async false message before after old new = old
  deliver-IsSpent id sync false message before after old new = new

  ask_reset-IsSpent :
      (id : String) (mode : DeliveryMode) (sent : Bool) (now : ℕ) (drawn secret salt email : String)
      → (store : Store) → drawn ≢ id
      → IsSpent id store.tokens
      → IsSpent id
          (request_password_reset ports mode sent now drawn secret salt email store).1.tokens
  unfolding request_password_reset
  ask_reset-IsSpent id mode sent now drawn secret salt email store other spent after found =
      elim (Option-cases (Repository.find_by_email ports.texts true email store.users)) [
        | inl unknown ↦ spent after (ground arith)
        | inr (user, known) ↦ elim (Bool-cases (is_deleted user)) [
          | inl gone ↦ spent after (ground arith)
          | inr here ↦
              let issued = issue ports password_reset now drawn secret salt user store in
              deliver-IsSpent id mode sent issued.0 store issued.1 spent
                (issue-IsSpent ports id password_reset now drawn secret salt user store other spent)
                after (ground arith)
        ]
      ]

  ask_confirmation-IsSpent :
      (id : String) (mode : DeliveryMode) (sent : Bool) (now : ℕ)
      (drawn secret salt user_id : String)
      → (store : Store) → drawn ≢ id
      → IsSpent id store.tokens
      → IsSpent id
          (request_email_verification ports mode sent now drawn secret salt user_id store).1.tokens
  unfolding request_email_verification
  ask_confirmation-IsSpent id mode sent now drawn secret salt user_id store other spent after
        found =
      elim (Option-cases (Repository.find_by_id ports.texts true user_id store.users)) [
        | inl unknown ↦ spent after (ground arith)
        | inr (user, known) ↦ elim (Bool-cases (is_email_verified user)) [
          | inl done ↦ spent after (ground arith)
          | inr open_user ↦
              let issued = issue ports email_verification now drawn secret salt user store in
              deliver-IsSpent id mode sent issued.0 store issued.1 spent
                (issue-IsSpent ports id email_verification now drawn secret salt user store other
                  spent)
                after (ground arith)
        ]
      ]

  step-IsSpent :
      (id : String) (s : Step) (store : Store)
      → IsOtherId id s
      → IsSpent id store.tokens
      → IsSpent id (step ports s store).tokens
  unfolding step reset_password verify
  step-IsSpent id (reset now salt token new_password) store other spent after found =
      elim (Result-cases (token_of_purpose ports password_reset now token store.tokens)) [
        | inr (e, refused) ↦ spent after (ground arith)
        | inl (t, taken) ↦
            spend-IsSpent ports id (update_password now (ports.hash salt new_password)) now t store
              spent after (ground arith)
      ]
  step-IsSpent id (confirm now token) store other spent after found =
      elim (Result-cases (token_of_purpose ports email_verification now token store.tokens)) [
        | inr (e, refused) ↦ spent after (ground arith)
        | inl (t, taken) ↦
            spend-IsSpent ports id (verify_email now) now t store spent after (ground arith)
      ]
  step-IsSpent id (ask_reset mode sent now drawn secret salt email) store other spent after found =
      ask_reset-IsSpent id mode sent now drawn secret salt email store other spent after found
  step-IsSpent id (ask_confirmation mode sent now drawn secret salt user_id) store other spent after
        found =
      ask_confirmation-IsSpent id mode sent now drawn secret salt user_id store other spent after
        found

  steps-IsSpent :
      (id : String) (ss : List Step) (store : Store)
      → AreOtherIds id ss
      → IsSpent id store.tokens
      → IsSpent id (steps ports ss store).tokens
  steps-IsSpent id [] store other spent = spent
  steps-IsSpent id (s ∷ ss) store (other, others) spent =
      steps-IsSpent id ss (step ports s store) others (step-IsSpent id s store other spent)

  spent_refused :
      (purpose : UserActionTokenPurpose) (now : ℕ) (token : String) (parts : OpaqueTokenParts)
      → (rows : List UserActionToken) → parse_opaque_token ports.split token ≡ some parts
      → IsSpent parts.id rows
      → token_of_purpose ports purpose now token rows ≡ err (action_token_not_found (label purpose))
  unfolding token_of_purpose is_active
  spent_refused purpose now token parts rows read spent =
      elim (Option-cases (find_by_id parts.id rows)) [
        | inl missing ↦ ground arith
        | inr (t, found) ↦ let over = spent t found in ground arith
      ]

  token_of_purpose-found :
      (purpose : UserActionTokenPurpose) (now : ℕ) (token : String) (parts : OpaqueTokenParts)
      → (rows : List UserActionToken) (t : UserActionToken)
      → parse_opaque_token ports.split token ≡ some parts
      → token_of_purpose ports purpose now token rows ≡ ok t
      → find_by_id parts.id rows ≡ some t
  unfolding token_of_purpose
  token_of_purpose-found purpose now token parts rows t read taken =
      elim (Option-cases (find_by_id parts.id rows)) [
        | inl missing ↦ absurd (ground arith)
        | inr (found, there) ↦ ground arith
      ]

  -- A successful spending consumes the row of its token.
  spend_consumes :
      (change : User → User) (now : ℕ) (t : UserActionToken) (id : String) (store : Store)
      → find_by_id id store.tokens ≡ some t
      → (spend ports change now t store).0 ≡ ok tt
      → IsSpent id (spend ports change now t store).1.tokens
  unfolding spend consume
  spend_consumes change now t id store there done after found =
      let row = find_by_id-update ports id (consume now t) store.tokens in
      let own = eq_refl t.id in
      elim (Option-cases (Repository.find_by_id ports.texts true t.user_id store.users)) [
        | inl gone ↦ absurd (ground arith)
        | inr (user, known) ↦
            elim (Option-cases
              (Repository.update ports.texts now user.id (change user) store.users).0) [
                | inl unread ↦ absurd (ground arith)
                | inr (written, read) ↦ ground arith
              ]
      ]

  reset_consumes :
      (now : ℕ) (salt token new_password : String) (store : Store) (parts : OpaqueTokenParts)
      → parse_opaque_token ports.split token ≡ some parts
      → (reset_password ports now salt token new_password store).0 ≡ ok tt
      → IsSpent parts.id (reset_password ports now salt token new_password store).1.tokens
  unfolding reset_password
  reset_consumes now salt token new_password store parts read done after found =
      elim (Result-cases (token_of_purpose ports password_reset now token store.tokens)) [
        | inr (e, refused) ↦ absurd (ground arith)
        | inl (t, taken) ↦
            spend_consumes (update_password now (ports.hash salt new_password)) now t parts.id store
              (token_of_purpose-found password_reset now token parts store.tokens t read taken)
              (ground arith) after (ground arith)
      ]

  -- A token that reset a password is refused from then on, for either purpose, whatever use cases are
  -- run after it, unless a request draws its id again.
  pub reset_token_refused :
      (now : ℕ) (salt token new_password : String) (store : Store) (parts : OpaqueTokenParts)
      → parse_opaque_token ports.split token ≡ some parts
      → (reset_password ports now salt token new_password store).0 ≡ ok tt
      → (ss : List Step) → AreOtherIds parts.id ss
      → (purpose : UserActionTokenPurpose) (later : ℕ)
      → token_of_purpose ports purpose later token
          (steps ports ss (reset_password ports now salt token new_password store).1).tokens
        ≡ err (action_token_not_found (label purpose))
  reset_token_refused now salt token new_password store parts read done ss others purpose later =
      spent_refused purpose later token parts _ read (
        steps-IsSpent parts.id ss _ others
          (reset_consumes now salt token new_password store parts read done))

-- ===== src/ActionTokens/UseCases.antt =====
-- The use cases reset-password, verify-email, request-password-reset and request-email-verification of
-- src/modules/iam/auth/application/use-cases. Random texts and the clock are arguments; the password
-- hasher and the texts of the runtime are parameters, and what the mail port answers is an argument.
use hexagonal.Base.{
  ℕ, ◌+◌, ◌*◌, String, Bool, true, false, not, ◌||◌, Option, none, some, List, Result, ok, err,
  if◌then◌else◌,
}
use hexagonal.Table.{Saves}
use hexagonal.Sessions.Token.{token_of, parse_opaque_token}
use hexagonal.Users.Entity.{
  User, Texts, full_name, is_deleted, is_email_verified, update_password, verify_email,
}
use hexagonal.Users.Repository
use hexagonal.ActionTokens.Entity.{
  UserActionTokenPurpose, password_reset, email_verification, same_purpose, UserActionToken, create,
  is_active, consume,
}
use hexagonal.ActionTokens.Repository.{
  token_id, find_by_id, find_active_by_user_id_and_purpose, create_row, update,
}

pub record Store : Type 0 where
  pub users : List User
  pub tokens : List UserActionToken

pub record Ports : Type 0 where
  pub texts : Texts
  pub split : String → List String
  pub compare : (secret hash : String) → Bool
  pub hash : (salt secret : String) → String
  pub token_saves : Saves UserActionToken token_id

pub data TokenException : Type 0 where
  action_token_not_found : String → TokenException
  user_not_found : String → TokenException
  email_verification_already_completed : String → TokenException
  not_sent : TokenException

-- A message of the mail port; the last field is its `resetToken` or `verificationToken`.
pub record Message : Type 0 where
  pub purpose : UserActionTokenPurpose
  pub to : String
  pub recipient_name : String
  pub token : String

-- `TRANSACTIONAL_EMAIL_DELIVERY_MODE`
pub data DeliveryMode : Type 0 where
  sync : DeliveryMode
  async : DeliveryMode

abbrev pub label : UserActionTokenPurpose → String
label password_reset = "password reset"
label email_verification = "email verification"

abbrev pub lifetime : UserActionTokenPurpose → ℕ
lifetime password_reset = 15 * 60 * 1000
lifetime email_verification = 24 * 60 * 60 * 1000

module _ (ports : Ports) where
  -- The common first part of a reset and a verification.
  unfoldable pub token_of_purpose :
      UserActionTokenPurpose
      → (now : ℕ) (token : String) → List UserActionToken
      → Result TokenException UserActionToken
  token_of_purpose purpose now token tokens = elim (parse_opaque_token ports.split token) [
    | none ↦ err (action_token_not_found (label purpose))
    | some parts ↦ elim (find_by_id parts.id tokens) [
      | none ↦ err (action_token_not_found (label purpose))
      | some action_token ↦
          if not (same_purpose action_token.purpose purpose) || not (is_active now action_token)
          then err (action_token_not_found (label purpose))
          else if not (ports.compare parts.secret action_token.token_hash)
          then err (action_token_not_found (label purpose))
          else ok action_token
    ]
  ]

  -- The common second part: the user is changed, and then the token consumed.
  unfoldable pub spend :
      (change : User → User) (now : ℕ)
      → UserActionToken
      → Store
      → Result TokenException (Unit {0}) × Store
  spend change now action_token store =
      elim (Repository.find_by_id ports.texts true action_token.user_id store.users) [
        | none ↦ (err (user_not_found action_token.user_id), store)
        | some user ↦
            let (updated, users) =
              Repository.update ports.texts now user.id (change user) store.users in
            elim updated [
              | none ↦ (err (user_not_found user.id), record store { users = users })
              | some _ ↦ (
                ok tt,
                record { users = users; tokens = update (consume now action_token) store.tokens },
              )
            ]
      ]

  unfoldable pub reset_password :
      (now : ℕ) (salt token new_password : String)
      → Store
      → Result TokenException (Unit {0}) × Store
  unfolding spend
  reset_password now salt token new_password store =
      elim (token_of_purpose password_reset now token store.tokens) [
        | err e ↦ (err e, store)
        | ok action_token ↦
            spend (update_password now (ports.hash salt new_password)) now action_token store
      ]

  unfoldable pub verify :
      (now : ℕ) (token : String) → Store → Result TokenException (Unit {0}) × Store
  unfolding spend
  verify now token store = elim (token_of_purpose email_verification now token store.tokens) [
    | err e ↦ (err e, store)
    | ok action_token ↦ spend (verify_email now) now action_token store
  ]

  -- The older token of the user is consumed, and a new one made.
  unfoldable pub issue :
      UserActionTokenPurpose → (now : ℕ) (id secret salt : String) → User → Store → Message × Store
  issue purpose now id secret salt user store =
      let existing = find_active_by_user_id_and_purpose user.id purpose store.tokens in
      let tokens : List UserActionToken = elim existing [
        | none ↦ store.tokens
        | some older ↦ update (consume now older) store.tokens
      ] in
      (
        record {
          purpose = purpose;
          to = user.email;
          recipient_name = full_name user;
          token = token_of id secret;
        },
        record store {
          tokens =
              create_row ports.token_saves
                (create now id user.id purpose (ports.hash salt secret) (now + lifetime purpose))
                tokens;
        },
      )

  unfoldable pub prepare_password_reset :
      (now : ℕ) (id secret salt email : String) → Store → Option Message × Store
  prepare_password_reset now id secret salt email store =
      elim (Repository.find_by_email ports.texts true email store.users) [
        | none ↦ (none, store)
        | some user ↦
            if is_deleted user
            then (none, store)
            else let (message, after) = issue password_reset now id secret salt user store in
              (some message, after)
      ]

  unfoldable pub prepare_email_verification :
      (now : ℕ) (id secret salt user_id : String) → Store → Result TokenException Message × Store
  prepare_email_verification now id secret salt user_id store =
      elim (Repository.find_by_id ports.texts true user_id store.users) [
        | none ↦ (err (user_not_found user_id), store)
        | some user ↦
            if is_email_verified user
            then (err (email_verification_already_completed user.email), store)
            else let (message, after) = issue email_verification now id secret salt user store in
              (ok message, after)
      ]

  -- The message is sent in the transaction, or after it. `sent` is what the mail port answers.
  abbrev pub deliver :
      DeliveryMode
      → (sent : Bool) → Message
      → (before after : Store) → Result TokenException (Option String) × Store
  deliver mode true message before after = (ok (some message.token), after)
  deliver async false message before after = (err not_sent, before)
  deliver sync false message before after = (err not_sent, after)

  unfoldable pub request_password_reset :
      DeliveryMode
      → (sent : Bool) (now : ℕ) (id secret salt email : String) → Store
      → Result TokenException (Option String) × Store
  unfolding prepare_password_reset
  request_password_reset mode sent now id secret salt email store =
      let (prepared, after) = prepare_password_reset now id secret salt email store in
      elim prepared [
        | none ↦ (ok none, after)
        | some message ↦ deliver mode sent message store after
      ]

  unfoldable pub request_email_verification :
      DeliveryMode
      → (sent : Bool) (now : ℕ) (id secret salt user_id : String) → Store
      → Result TokenException (Option String) × Store
  unfolding prepare_email_verification
  request_email_verification mode sent now id secret salt user_id store =
      let (prepared, after) = prepare_email_verification now id secret salt user_id store in
      elim prepared [ err e ↦ (err e, store) | ok message ↦ deliver mode sent message store after ]

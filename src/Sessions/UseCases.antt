-- ===== src/Sessions/UseCases.antt =====
-- The use cases login, refresh-session, logout-session and logout-all-sessions of
-- src/modules/iam/auth/application/use-cases. The password hasher, the access tokens and the users'
-- repository are parameters; random texts and the clock are arguments.
use hexagonal.Base.{
  ℕ, ◌+◌, String, Bool, not, Option, none, some, List, Result, ok, err, if◌then◌else◌,
}
use hexagonal.Table.{Saves}
use hexagonal.Sessions.Token.{token_of, parse_opaque_token}
use hexagonal.Sessions.Entity.{AuthSession, create, is_active, rotate, revoke}
use hexagonal.Sessions.Repository.{
  session_id, find_by_id, update, revoke_all_active_by_user_id, create_row,
}

pub record User : Type 0 where
  pub id : String
  pub email : String
  pub password_hash : String

-- `hash` takes the random salt of the hash.
pub record Ports : Type 0 where
  pub split : String → List String
  pub compare : (secret hash : String) → Bool
  pub hash : (salt secret : String) → String
  pub generate_token : (user_id email : String) → String
  pub find_user_by_id : String → Option User
  pub find_user_by_email : String → Option User
  pub refresh_session_ttl_ms : ℕ
  pub session_saves : Saves AuthSession session_id

pub data AuthException : Type 0 where
  session_not_found : AuthException
  user_not_found : String → AuthException
  invalid_credentials : AuthException

pub record SessionResponse : Type 0 where
  pub access_token : String
  pub refresh_token : String
  pub user_id : String
  pub email : String

pub record AuditRecord : Type 0 where
  pub action : String
  pub actor_user_id : String
  pub resource_type : String
  pub resource_id : Option String

module _ (ports : Ports) where
  -- The common first part of a refresh and a logout.
  unfoldable pub session_of_token :
      (now : ℕ) (token : String) → List AuthSession → Result AuthException AuthSession
  session_of_token now token rows = elim (parse_opaque_token ports.split token) [
    | none ↦ err session_not_found
    | some parts ↦ elim (find_by_id parts.id rows) [
      | none ↦ err session_not_found
      | some session ↦
          if not (is_active now session)
          then err session_not_found
          else if not (ports.compare parts.secret session.refresh_token_hash)
          then err session_not_found
          else ok session
    ]
  ]

  unfoldable pub rotated : (now : ℕ) (salt next_secret : String) → AuthSession → AuthSession
  rotated now salt next_secret session =
      rotate now (ports.hash salt next_secret) (now + ports.refresh_session_ttl_ms) session

  abbrev pub response_of : (session_id secret : String) → User → SessionResponse
  response_of session_id secret user = record {
    access_token = ports.generate_token user.id user.email;
    refresh_token = token_of session_id secret;
    user_id = user.id;
    email = user.email;
  }

  -- `meanwhile` is what others write between the look-up and the update.
  unfoldable pub refresh :
      (meanwhile : List AuthSession → List AuthSession)
      → (now : ℕ) (salt next_secret token : String) → List AuthSession
      → Result AuthException SessionResponse × List AuthSession
  refresh meanwhile now salt next_secret token rows = elim (session_of_token now token rows) [
    | err e ↦ (err e, rows)
    | ok session ↦ elim (ports.find_user_by_id session.user_id) [
      | none ↦ (err (user_not_found session.user_id), rows)
      | some user ↦ (
        ok (response_of session.id next_secret user),
        update (rotated now salt next_secret session) (meanwhile rows),
      )
    ]
  ]

  -- The audit record is part of the result.
  unfoldable pub logout :
      (now : ℕ) (token : String)
      → List AuthSession
      → Result AuthException AuditRecord × List AuthSession
  logout now token rows = elim (session_of_token now token rows) [
    | err e ↦ (err e, rows)
    | ok session ↦ (
      ok (record {
        action = "iam.auth.session.revoked";
        actor_user_id = session.user_id;
        resource_type = "auth_session";
        resource_id = some session.id;
      }),
      update (revoke now session) rows,
    )
  ]

  unfoldable pub logout_all :
      (now : ℕ) (user_id : String) → List AuthSession → AuditRecord × List AuthSession
  logout_all now user_id rows = (
    record {
      action = "iam.auth.sessions.revoked_all";
      actor_user_id = user_id;
      resource_type = "auth_session";
      resource_id = none;
    },
    revoke_all_active_by_user_id now user_id rows,
  )

  unfoldable pub login :
      (now : ℕ) (id secret salt email password : String)
      → List AuthSession
      → Result AuthException SessionResponse × List AuthSession
  login now id secret salt email password rows = elim (ports.find_user_by_email email) [
    | none ↦ (err invalid_credentials, rows)
    | some user ↦
        if not (ports.compare password user.password_hash)
        then (err invalid_credentials, rows)
        else (
          ok (response_of id secret user),
          create_row ports.session_saves
              (create now id user.id (ports.hash salt secret) (now + ports.refresh_session_ttl_ms))
              rows,
        )
  ]

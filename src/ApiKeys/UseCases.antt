-- ===== src/ApiKeys/UseCases.antt =====
-- The use cases create-api-key, authenticate-api-key and revoke-api-key of
-- src/modules/iam/api-keys/application/use-cases, with the look-up and the writes of
-- infrastructure/persistence/typeorm/repositories/api-key.typeorm-repository.ts. The keyed hash of a
-- secret is a parameter; the clock and random texts are arguments.
use hexagonal.Base.{
  ℕ, ◌+◌, ◌*◌, String, Bool, true, not, ◌&&◌, ◌||◌, ◌==◌, Option, none, some, get_or, List, [], ◌∷◌,
  any, filter, find, includes, Result, ok, err, if◌then◌else◌,
}
use hexagonal.Table.{Saves}
use hexagonal.Users.Entity.{User, is_deleted}
use hexagonal.Users.Entity
use hexagonal.Users.Repository
use hexagonal.Members.Repository.{Member, find_by_user_and_organization}
use hexagonal.ApiKeys.Token.{
  Texts, RuntimeEnvironment, prefixed_id, api_key_token, parse_api_key_token,
}
use hexagonal.ApiKeys.Entity.{
  ApiKey, is_revoked, is_active, revoke, should_record_usage, record_usage, create, rehydrate,
}

abbrev pub key_id : ApiKey → String
key_id k = k.id

pub record Ports : Type 0 where
  pub texts : Texts
  pub user_texts : Entity.Texts
  pub hash : (secret : String) → String
  pub id_prefix : (id : String) → String
  pub environment : RuntimeEnvironment
  pub usage_write_interval_ms : ℕ
  pub default_ttl_days : ℕ
  pub key_saves : Saves ApiKey key_id

pub record ApiKeyAuthenticationResult : Type 0 where
  pub user_id : String
  pub email : String
  pub organization_id : String
  pub api_key_id : String
  pub api_key_name : String
  pub scopes : List String

pub data ApiKeyException : Type 0 where
  invalid_api_key_scopes : ApiKeyException
  api_key_not_found : String → ApiKeyException
  not_recorded : ApiKeyException

-- `[...new Set(scopes)]`
abbrev pub distinct : List String → List String
distinct [] = []
distinct (s ∷ ss) = s ∷ filter (λ t. not (t == s)) (distinct ss)

-- `command.scopes && command.scopes.length > 0 ? … : …`
abbrev pub requested_scopes : Option (List String) → (allowed : List String) → List String
requested_scopes (some (s ∷ ss)) allowed = distinct (s ∷ ss)
requested_scopes _ allowed = allowed

module _ (ports : Ports) where
  -- `ApiKeyMapper.toDomain` of a row that is found.
  unfoldable pub find_by_id : (include_revoked : Bool) (id : String) → List ApiKey → Option ApiKey
  find_by_id include_revoked id rows =
      elim (find (λ k. (k.id == id) && (include_revoked || not (is_revoked k))) rows) [
        | none ↦ none
        | some row ↦ some (rehydrate ports.user_texts.trim row)
      ]

  -- `ApiKeySecretHasherPort.verify`
  abbrev pub verify : (secret secret_hash : String) → Bool
  verify secret secret_hash = ports.hash secret == secret_hash

  unfoldable pub authenticate :
      List User
      → List Member
      → (now : ℕ) (token : String) (remote_ip : Option String) → List ApiKey
      → Option ApiKeyAuthenticationResult × List ApiKey
  authenticate users members now token remote_ip keys =
      elim (parse_api_key_token ports.texts token) [
        | none ↦ (none, keys)
        | some parts ↦ elim (find_by_id true parts.id keys) [
          | none ↦ (none, keys)
          | some key ↦
              if not (is_active now key)
              then (none, keys)
              else if not (verify parts.secret key.secret_hash)
              then (none, keys)
              else elim (Repository.find_by_id ports.user_texts true key.owner_user_id users) [
                | none ↦ (none, keys)
                | some user ↦
                    if is_deleted user
                    then (none, keys)
                    else elim (find_by_user_and_organization none user.id key.organization_id
                        members) [
                          | none ↦ (none, keys)
                          | some member ↦ (
                            some (record {
                              user_id = user.id;
                              email = user.email;
                              organization_id = key.organization_id;
                              api_key_id = key.id;
                              api_key_name = key.name;
                              scopes = key.scopes;
                            }),
                            if should_record_usage now ports.usage_write_interval_ms key
                                then ports.key_saves.save
                                    (record_usage ports.user_texts.trim now remote_ip key) keys
                                else keys,
                          )
                        ]
              ]
        ]
      ]

  -- `tenant` is that of the request. `recorded` is whether the audit record and the webhook event are
  -- written. The row of the key is written in a transaction of its own, so that it stays if they are not.
  unfoldable pub create_api_key :
      List Member
      → (tenant : Option String) (recorded : Bool) (now : ℕ) (id secret : String)
      → (organization_id owner_user_id name : String)
      → (scopes : Option (List String)) (expires_in_days : Option ℕ) → List ApiKey
      → Result ApiKeyException (String × ApiKey) × List ApiKey
  create_api_key members tenant recorded now id secret organization_id owner_user_id name scopes
        expires_in_days keys =
      elim (find_by_user_and_organization tenant owner_user_id organization_id members) [
        | none ↦ (err invalid_api_key_scopes, keys)
        | some membership ↦
            let allowed_scopes = membership.role.permissions in
            let requested = requested_scopes scopes allowed_scopes in
            if any (λ scope. not (includes scope allowed_scopes)) requested
            then (err invalid_api_key_scopes, keys)
            else let days = get_or expires_in_days ports.default_ttl_days in
              let key =
                create ports.user_texts.trim now id organization_id owner_user_id name
                  (prefixed_id ports.environment (ports.id_prefix id)) (ports.hash secret) requested
                  (some (now + days * 24 * 60 * 60 * 1000)) in
              (
                if recorded
                    then ok (api_key_token ports.environment id secret, key)
                    else err not_recorded,
                ports.key_saves.save key keys,
              )
      ]

  -- `recorded` is whether the audit record is written, which is after the write and in no transaction with it.
  unfoldable pub revoke_api_key :
      (recorded : Bool) (now : ℕ) (api_key_id organization_id owner_user_id : String)
      → List ApiKey
      → Result ApiKeyException (Unit {0}) × List ApiKey
  revoke_api_key recorded now api_key_id organization_id owner_user_id keys =
      elim (find_by_id true api_key_id keys) [
        | none ↦ (err (api_key_not_found api_key_id), keys)
        | some key ↦
            if not (key.organization_id == organization_id)
              || not (key.owner_user_id == owner_user_id)
            then (err (api_key_not_found api_key_id), keys)
            else if is_revoked key
            then (ok tt, keys)
            else (
              if recorded then ok tt else err not_recorded,
              ports.key_saves.save (revoke now key) keys,
            )
      ]

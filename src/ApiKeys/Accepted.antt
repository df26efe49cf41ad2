-- ===== src/ApiKeys/Accepted.antt =====
-- The ways in which src/modules/iam/api-keys/application/use-cases/authenticate-api-key.use-case.ts ends.
use hexagonal.Base.{
  ℕ, ◌≡◌, ◌⊎◌, sym, ap, ◌∙◌, inl, inr, String, true, false, Option, none, some, is_some, List,
  arith, Bool-cases, Option-cases, if◌then◌else◌,
}
use hexagonal.Users.Entity.{User, is_deleted}
use hexagonal.Users.Repository
use hexagonal.Members.Repository.{Member, find_by_user_and_organization}
use hexagonal.ApiKeys.Token.{ApiKeyTokenParts, parse_api_key_token}
use hexagonal.ApiKeys.Entity.{ApiKey, is_active, should_record_usage, record_usage}
use hexagonal.ApiKeys.UseCases.{Ports, ApiKeyAuthenticationResult, find_by_id, verify, authenticate}

module _ (ports : Ports) (users : List User) (members : List Member) (now : ℕ) (token : String)
    (remote_ip : Option String) (keys : List ApiKey) where
  -- The token is of an active key, whose owner is there and a member of the key's organization.
  pub record Accepted : Type 0 where
    pub parts : ApiKeyTokenParts
    pub key : ApiKey
    pub user : User
    pub member : Member
    pub parsed : parse_api_key_token ports.texts token ≡ some parts
    pub found : find_by_id ports true parts.id keys ≡ some key
    pub alive : is_active now key ≡ true
    pub verified : verify ports parts.secret key.secret_hash ≡ true
    pub owner : Repository.find_by_id ports.user_texts true key.owner_user_id users ≡ some user
    pub not_deleted : is_deleted user ≡ false
    pub membership :
        find_by_user_and_organization none user.id key.organization_id members ≡ some member

  abbrev pub result_of : User → ApiKey → ApiKeyAuthenticationResult
  result_of user key = record {
    user_id = user.id;
    email = user.email;
    organization_id = key.organization_id;
    api_key_id = key.id;
    api_key_name = key.name;
    scopes = key.scopes;
  }

  abbrev pub used : ApiKey → List ApiKey
  used key =
      if should_record_usage now ports.usage_write_interval_ms key
      then ports.key_saves.save (record_usage ports.user_texts.trim now remote_ip key) keys
      else keys

  pub authenticate-Accepted :
      (a : Accepted)
      → authenticate ports users members now token remote_ip keys
        ≡ (some (result_of a.user a.key), used a.key)
  unfolding authenticate
  authenticate-Accepted a =
      let e1 = a.parsed in
      let e2 = a.found in
      let e3 = a.alive in
      let e4 = a.verified in
      let e5 = a.owner in let e6 = a.not_deleted in let e7 = a.membership in ground arith

  pub authenticate-cases :
      ((a : Accepted) × (authenticate ports users members now token remote_ip keys
          ≡ (some (result_of a.user a.key), used a.key)))
      ⊎ (authenticate ports users members now token remote_ip keys ≡ (none, keys))
  unfolding authenticate
  authenticate-cases = elim (Option-cases (parse_api_key_token ports.texts token)) [
    | inl e1 ↦ inr (ground arith)
    | inr (parts, e1) ↦ elim (Option-cases (find_by_id ports true parts.id keys)) [
      | inl e2 ↦ inr (ground arith)
      | inr (key, e2) ↦ elim (Bool-cases (is_active now key)) [
        | inr e3 ↦ inr (ground arith)
        | inl e3 ↦ elim (Bool-cases (verify ports parts.secret key.secret_hash)) [
          | inr e4 ↦ inr (ground arith)
          | inl e4 ↦
              elim (Option-cases
                (Repository.find_by_id ports.user_texts true key.owner_user_id users)) [
                  | inl e5 ↦ inr (ground arith)
                  | inr (user, e5) ↦ elim (Bool-cases (is_deleted user)) [
                    | inl e6 ↦ inr (ground arith)
                    | inr e6 ↦
                        elim (Option-cases (
                          find_by_user_and_organization none user.id key.organization_id members)) [
                            | inl e7 ↦ inr (ground arith)
                            | inr (member, e7) ↦
                                let a : Accepted = record {
                                  parts = parts;
                                  key = key;
                                  user = user;
                                  member = member;
                                  parsed = e1;
                                  found = e2;
                                  alive = e3;
                                  verified = e4;
                                  owner = e5;
                                  not_deleted = e6;
                                  membership = e7;
                                } in
                                inl (a, authenticate-Accepted a)
                          ]
                  ]
                ]
        ]
      ]
    ]
  ]

  -- A key stands for a member of its organization.
  pub authenticate-members :
      (found : ApiKeyAuthenticationResult)
      → (authenticate ports users members now token remote_ip keys).0 ≡ some found
      → is_some (find_by_user_and_organization none found.user_id found.organization_id members)
        ≡ true
  authenticate-members found h = elim authenticate-cases [
    | inr refused ↦ absurd (ground arith)
    | inl (a, accepted) ↦
        let result : result_of a.user a.key ≡ found = ground arith in
        let joined : is_some
              (find_by_user_and_organization none a.user.id a.key.organization_id members)
            ≡ true =
          ap is_some a.membership in
        ap
          (λ (f : ApiKeyAuthenticationResult).
            is_some (find_by_user_and_organization none f.user_id f.organization_id members))
          (sym result)
        ∙ joined
  ]

-- ===== src/ApiKeys/Fresh.antt =====
-- The token of a new key of src/modules/iam/api-keys.
use hexagonal.Base.{
  ℕ, ◌+◌, ◌*◌, ◌≡◌, ◌<◌, sym, ap, inl, inr, String, Bool, true, false, Option, none, some, get_or,
  List, arith, eq_refl, ok, ◌∙◌,
}
use hexagonal.Table.{find_by}
use hexagonal.Users.Entity.{User, is_deleted}
use hexagonal.Users.Repository
use hexagonal.Members.Repository.{Member, find_by_user_and_organization}
use hexagonal.ApiKeys.Token.{Splits, api_key_token, parse_api_key_token-api_key_token}
use hexagonal.ApiKeys.Entity.{ApiKey, is_active, create, rehydrate}
use hexagonal.ApiKeys.UseCases.{key_id, Ports, find_by_id, authenticate, create_api_key}
use hexagonal.ApiKeys.Accepted.{Accepted, authenticate-Accepted}
use hexagonal.ApiKeys.Created.{created_of, create_api_key-cases}
use hexagonal.ApiKeys.Steps.{find_by_id-find_by}

module _ (ports : Ports) (members : List Member) (tenant : Option String) (recorded : Bool)
    (now : ℕ) (id secret organization_id owner_user_id name : String)
    (scopes : Option (List String)) (days : Option ℕ) (keys : List ApiKey) where
  -- A row of the new key, after any uses.
  abbrev used_row : ApiKey → (at : Option ℕ) (ip : Option String) (updated : ℕ) → ApiKey
  used_row key at ip updated = record key {
    last_used_at = at;
    last_used_ip = ip;
    updated_at = updated;
  }

  found_of_row :
      (row : ApiKey) (rows : List ApiKey)
      → find_by key_id id rows ≡ some row
      → find_by_id ports true id rows ≡ some (rehydrate ports.user_texts.trim row)
  found_of_row row rows there = let read = find_by_id-find_by ports id rows in ground arith

  is_active-created :
      (later : ℕ) (membership : Member) (at : Option ℕ) (ip : Option String) (updated : ℕ)
      → later < now + get_or days ports.default_ttl_days * 24 * 60 * 60 * 1000
      → is_active later (
          rehydrate ports.user_texts.trim (
            used_row
              (created_of ports members tenant recorded now id secret organization_id owner_user_id
                name scopes days keys membership)
              at
              ip
              updated))
        ≡ true
  unfolding is_active create rehydrate
  is_active-created later membership at ip updated before = ground arith

  -- A creation that answers leaves the row of the new key. As long as a table holds this row, but for its
  -- last use, so that the key is not revoked, and the key has not expired, the token of the answer is
  -- taken there, if it splits in its parts and the owner is there and a member of the organization.
  pub created_key_taken :
      (token : String) (key : ApiKey)
      → (create_api_key ports members tenant recorded now id secret organization_id owner_user_id
          name scopes days keys).0
        ≡ ok (token, key)
      → Splits ports.texts ports.environment id secret
      → (later : ℕ) → later < now + get_or days ports.default_ttl_days * 24 * 60 * 60 * 1000
      → (rows : List ApiKey) (at : Option ℕ) (ip : Option String) (updated : ℕ)
      → find_by key_id id rows
        ≡ some (record key { last_used_at = at; last_used_ip = ip; updated_at = updated })
      → (users : List User) (user : User)
      → Repository.find_by_id ports.user_texts true owner_user_id users ≡ some user
      → is_deleted user ≡ false
      → (joined : List Member) (member : Member)
      → find_by_user_and_organization none user.id organization_id joined ≡ some member
      → (remote_ip : Option String)
      → (find_by key_id id
            (create_api_key ports members tenant recorded now id secret organization_id
              owner_user_id name scopes days keys).1
          ≡ some key)
        × ((authenticate ports users joined later token remote_ip rows).0
            ≡ some (record {
              user_id = user.id;
              email = user.email;
              organization_id = organization_id;
              api_key_id = id;
              api_key_name = ports.user_texts.trim (ports.user_texts.trim name);
              scopes = key.scopes;
            }))
  unfolding create rehydrate
  created_key_taken token key h splits later before rows at ip updated there users user owner here
        joined member membership remote_ip =
      elim (create_api_key-cases ports members tenant recorded now id secret organization_id
        owner_user_id name scopes days keys) [
          | inr (e, refused) ↦ absurd (ground (arith, ap (λ r. r.0) refused))
          | inl c ↦
              let fresh =
                created_of ports members tenant recorded now id secret organization_id owner_user_id
                  name scopes days keys c.membership in
              let answer = ap (λ r. r.0) c.outcome in
              let same_token : api_key_token ports.environment id secret ≡ token = ground arith in
              let same_key : fresh ≡ key = ground arith in
              let stored = ap (λ r. find_by key_id id r.1) c.outcome in
              let saved = ports.key_saves.find_by-save id fresh keys in
              let own = eq_refl id in
              let row : find_by key_id id rows ≡ some (used_row fresh at ip updated) =
                there ∙ ap (λ k. some (used_row k at ip updated)) (sym same_key) in
              let accepted : Accepted ports users joined later
                  (api_key_token ports.environment id secret) remote_ip rows =
                record {
                  parts = record { id = id; secret = secret };
                  key = rehydrate ports.user_texts.trim (used_row fresh at ip updated);
                  user = user;
                  member = member;
                  parsed =
                      parse_api_key_token-api_key_token ports.texts ports.environment id secret
                        splits;
                  found = found_of_row (used_row fresh at ip updated) rows row;
                  alive = is_active-created later c.membership at ip updated before;
                  verified = eq_refl (ports.hash secret);
                  owner = owner;
                  not_deleted = here;
                  membership = membership;
                } in
              let taken =
                ap (λ r. r.0)
                  (authenticate-Accepted ports users joined later
                    (api_key_token ports.environment id secret) remote_ip rows accepted) in
              (ground arith, rw (← same_token, ← same_key) taken)
        ]

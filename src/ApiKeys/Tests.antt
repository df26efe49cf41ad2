-- ===== src/ApiKeys/Tests.antt =====
-- The theorems on the keys at concrete tables.
use hexagonal.Base.{◌≡◌, ◌⊎◌, refl, true, false, none, some, is_some, [], ◌∷◌, Memᴰ, arith}
use hexagonal.Members.Repository.{Member, find_by_user_and_organization, has_permission}
use hexagonal.Users.Entity.{rehydrate}
use hexagonal.Users.Repository
use hexagonal.ApiKeys.Token.{parse_api_key_token, api_key_token}
use hexagonal.Table.{find_by}
use hexagonal.ApiKeys.Entity.{ApiKey, is_active, revoke, should_record_usage, record_usage, create}
use hexagonal.ApiKeys.Entity
use hexagonal.ApiKeys.UseCases.{key_id, find_by_id, authenticate, create_api_key, revoke_api_key}
use hexagonal.ApiKeys.Created.{created-scopes}
use hexagonal.ApiKeys.Steps.{use_key, steps}
use hexagonal.ApiKeys.Revoked.{revoked_key_refused}
use hexagonal.ApiKeys.Fresh.{created_key_taken}
use hexagonal.ApiKeys.Sample.{ports, ann, membership, key, splits}

-- The key that the creations give.
abbrev made : ApiKey
made = record key { expires_at = some 86400005 }

revoked_key_refused_example :
    (authenticate ports (ann ∷ []) (membership ∷ []) 30 "hex_test_k.s" none (
      steps ports
        (use_key (ann ∷ []) (membership ∷ []) 20 "hex_test_k.s" none ∷ [])
        (revoke_api_key ports true 10 "k" "o" "u" (key ∷ [])).1)).0
    ≡ none
unfolding revoke_api_key find_by_id parse_api_key_token Entity.rehydrate
revoked_key_refused_example =
    revoked_key_refused ports true 10 "k" "o" "u" (key ∷ []) refl
      (use_key (ann ∷ []) (membership ∷ []) 20 "hex_test_k.s" none ∷ []) tt (ann ∷ [])
      (membership ∷ []) 30 "hex_test_k.s" none (record { id = "k"; secret = "s" }) refl refl

created-scopes_example :
    (find_by key_id "k" [] ≡ some made)
    ⊎ ((made.owner_user_id ≡ "u")
        × (made.organization_id ≡ "o")
        × (m : Member) × (find_by_user_and_organization none "u" "o" (membership ∷ []) ≡ some m)
        × (has_permission "read" m.role ≡ true))
unfolding create_api_key find_by_user_and_organization create
created-scopes_example =
    created-scopes ports (membership ∷ []) none false 5 "k" "s" "o" "u" "ci" (some ("read" ∷ []))
      none [] "k" made refl "read" (Memᴰ.head refl)

created_key_taken_example :
    (find_by key_id "k"
        (create_api_key ports
          (membership ∷ [])
          none
          true
          5
          "k"
          "s"
          "o"
          "u"
          "ci"
          (some ("read" ∷ []))
          none
          []).1
      ≡ some made)
    × ((authenticate ports
          (ann ∷ [])
          (membership ∷ [])
          20
          "hex_test_k.s"
          none
          (record made { last_used_at = some 9; updated_at = 9 } ∷ [])).0
        ≡ some (record {
          user_id = "u";
          email = "a@b.c";
          organization_id = "o";
          api_key_id = "k";
          api_key_name = "ci";
          scopes = "read" ∷ [];
        }))
unfolding create_api_key find_by_user_and_organization create api_key_token Repository.find_by_id
    rehydrate
created_key_taken_example =
    created_key_taken ports (membership ∷ []) none true 5 "k" "s" "o" "u" "ci" (some ("read" ∷ []))
      none [] "hex_test_k.s" made refl splits 20 (omega arith)
      (record made { last_used_at = some 9; updated_at = 9 } ∷ []) (some 9) none 9 refl (ann ∷ [])
      ann refl refl (membership ∷ []) membership refl none

-- A use that has read the key before a revocation writes it afterwards: the key is active again.
overlapping_use :
    is_some
      (authenticate ports (ann ∷ []) (membership ∷ []) 30 "hex_test_k.s" none (
        ports.key_saves.save
          (record_usage (λ s. s) 10 none key)
          (revoke_api_key ports true 11 "k" "o" "u" (key ∷ [])).1)).0
    ≡ true
unfolding authenticate revoke_api_key find_by_id parse_api_key_token Entity.rehydrate record_usage
    revoke is_active Repository.find_by_id rehydrate find_by_user_and_organization
overlapping_use = refl

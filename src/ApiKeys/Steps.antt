-- ===== src/ApiKeys/Steps.antt =====
-- The use cases of src/modules/iam/api-keys one after another, each over users and members of its
-- time.
use hexagonal.Base.{
  ℕ, ◌≡◌, ◌≢◌, refl, sym, ap, ◌∙◌, inl, inr, String, Bool, true, Option, none, some, List, [], ◌∷◌,
  arith, Option-cases,
}
use hexagonal.Table.{find_by, find_by-key}
use hexagonal.Users.Entity.{User}
use hexagonal.Members.Repository.{Member}
use hexagonal.ApiKeys.Entity.{ApiKey, is_revoked, rehydrate}
use hexagonal.ApiKeys.UseCases.{
  key_id, Ports, find_by_id, authenticate, create_api_key, revoke_api_key,
}

pub data Step : Type 0 where
  use_key : List User → List Member → (now : ℕ) → (token : String) → Option String → Step
  add_key :
      List Member
      → Option String
      → Bool
      → (now : ℕ) → (id secret organization_id owner_user_id name : String) → Option (List String)
      → Option ℕ
      → Step
  revoke_key : (recorded : Bool) → (now : ℕ) → (id organization_id owner_user_id : String) → Step

-- A new key draws another id, as random UUIDs are.
abbrev pub AreOtherIds : String → List Step → Type 0
AreOtherIds id [] = Unit
AreOtherIds id
      (add_key members tenant recorded now drawn secret organization owner name scopes days ∷ ss) =
    (drawn ≢ id) × AreOtherIds id ss
AreOtherIds id (_ ∷ ss) = AreOtherIds id ss

abbrev pub IsRevokedIn : (id : String) → List ApiKey → Type 0
IsRevokedIn id keys = (k : ApiKey) → find_by key_id id keys ≡ some k → is_revoked k ≡ true

module _ (ports : Ports) where
  unfoldable pub step : Step → List ApiKey → List ApiKey
  step (use_key users members now token remote_ip) keys =
      (authenticate ports users members now token remote_ip keys).1
  step (add_key members tenant recorded now id secret organization owner name scopes days) keys =
      (create_api_key ports members tenant recorded now id secret organization owner name scopes
        days keys).1
  step (revoke_key recorded now id organization owner) keys =
      (revoke_api_key ports recorded now id organization owner keys).1

  abbrev pub steps : List Step → List ApiKey → List ApiKey
  steps [] keys = keys
  steps (s ∷ ss) keys = steps ss (step s keys)

  pub find_by_id-find_by :
      (id : String) (keys : List ApiKey)
      → find_by_id ports true id keys ≡ (elim (find_by key_id id keys) [
        | none ↦ none
        | some k ↦ some (rehydrate ports.user_texts.trim k)
      ])
  unfolding find_by_id
  find_by_id-find_by id [] = refl
  find_by_id-find_by id (k ∷ keys) = ground (arith, find_by_id-find_by id keys)

  pub find_by_id-key :
      (id : String) (keys : List ApiKey) (k : ApiKey)
      → find_by_id ports true id keys ≡ some k
      → k.id ≡ id
  unfolding rehydrate
  find_by_id-key id keys k found =
      let row = find_by_id-find_by id keys in
      elim (Option-cases (find_by key_id id keys)) [
        | inl missing ↦ absurd (ground arith)
        | inr (r, there) ↦
            let same : rehydrate ports.user_texts.trim r ≡ k = ground arith in
            ap (λ x. x.id) (sym same) ∙ find_by-key key_id id keys there
      ]

-- ===== src/ApiKeys/Created.antt =====
-- The ways in which src/modules/iam/api-keys/application/use-cases/create-api-key.use-case.ts ends.
use hexagonal.Base.{
  ℕ, ◌+◌, ◌*◌, ◌≡◌, ◌⊎◌, ap, sym, ◌∙◌, ◌==◌, if◌then◌else◌, inl, inr, String, Bool, true, false,
  not, Option, some, get_or, List, Memᴰ, any, includes, arith, Result, ok, err, Bool-cases,
  Option-cases, any_of_mem,
}
use hexagonal.Table.{find_by}
use hexagonal.Members.Repository.{Member, has_permission, find_by_user_and_organization}
use hexagonal.ApiKeys.Token.{api_key_token, prefixed_id}
use hexagonal.ApiKeys.Entity.{ApiKey, create}
use hexagonal.ApiKeys.UseCases.{
  key_id, Ports, ApiKeyException, invalid_api_key_scopes, not_recorded, requested_scopes,
  create_api_key,
}

module _ (ports : Ports) (members : List Member) (tenant : Option String) (recorded : Bool)
    (now : ℕ) (id secret organization_id owner_user_id name : String)
    (scopes : Option (List String)) (days : Option ℕ) (keys : List ApiKey) where
  abbrev pub created_of : Member → ApiKey
  created_of membership =
      create ports.user_texts.trim now id organization_id owner_user_id name
        (prefixed_id ports.environment (ports.id_prefix id)) (ports.hash secret)
        (requested_scopes scopes membership.role.permissions)
        (some (now + get_or days ports.default_ttl_days * 24 * 60 * 60 * 1000))

  abbrev pub created : Result ApiKeyException (String × ApiKey) × List ApiKey
  created =
      create_api_key ports members tenant recorded now id secret organization_id owner_user_id name
        scopes days keys

  -- The owner is a member, whose role has every scope of the key.
  pub record Created : Type 0 where
    pub membership : Member
    pub found :
        find_by_user_and_organization tenant owner_user_id organization_id members ≡ some membership
    pub allowed :
        any
          (λ scope. not (includes scope membership.role.permissions))
          (requested_scopes scopes membership.role.permissions)
        ≡ false
    pub outcome : created ≡ (
      (if recorded
          then ok (api_key_token ports.environment id secret, created_of membership)
          else err not_recorded),
      ports.key_saves.save (created_of membership) keys,
    )

  pub create_api_key-cases : Created ⊎ ((e : ApiKeyException) × (created ≡ (err e, keys)))
  unfolding create_api_key
  create_api_key-cases =
      elim (Option-cases
        (find_by_user_and_organization tenant owner_user_id organization_id members)) [
          | inl missing ↦ inr (invalid_api_key_scopes, ground arith)
          | inr (membership, found) ↦
              elim (Bool-cases (
                any (λ scope. not (includes scope membership.role.permissions))
                  (requested_scopes scopes membership.role.permissions))) [
                    | inl outside ↦ inr (invalid_api_key_scopes, ground arith)
                    | inr allowed ↦ inl (record {
                      membership = membership;
                      found = found;
                      allowed = allowed;
                      outcome = ground arith;
                    })
                  ]
        ]

  permitted :
      (c : Created) (scope : String)
      → Memᴰ scope (requested_scopes scopes c.membership.role.permissions)
      → has_permission scope c.membership.role ≡ true
  unfolding has_permission
  permitted c scope m = elim (Bool-cases (includes scope c.membership.role.permissions)) [
    | inl inside ↦ inside
    | inr outside ↦
        let denied =
          any_of_mem (λ s. not (includes s c.membership.role.permissions))
            (requested_scopes scopes c.membership.role.permissions) m (ap not outside) in
        let allowed = c.allowed in absurd (ground arith)
  ]

  -- Whatever a creation answers, also where it throws after the key is written: a key that the table
  -- has afterwards is there as it was before, or it is a key of the given owner and organization, and
  -- each of its scopes is permitted by the role that the owner has in the organization.
  pub created-scopes :
      (k : String) (key : ApiKey)
      → find_by key_id k created.1 ≡ some key
      → (scope : String) → Memᴰ scope key.scopes
      → (find_by key_id k keys ≡ some key)
        ⊎ ((key.owner_user_id ≡ owner_user_id)
            × (key.organization_id ≡ organization_id)
            × (membership : Member) × (find_by_user_and_organization tenant owner_user_id
                  organization_id members
                ≡ some membership)
            × (has_permission scope membership.role ≡ true))
  unfolding create
  created-scopes k key found scope m = elim create_api_key-cases [
    | inr (e, refused) ↦ inl (sym (ap (λ r. find_by key_id k r.1) refused) ∙ found)
    | inl c ↦
        let fresh = created_of c.membership in
        let stored = sym (ap (λ r. find_by key_id k r.1) c.outcome) ∙ found in
        let saved = ports.key_saves.find_by-save k fresh keys in
        elim (Bool-cases (fresh.id == k)) [
          | inr other ↦ inl (ground arith)
          | inl own ↦
              let same : fresh ≡ key = ground arith in
              inr (
                ap (λ (x : ApiKey). x.owner_user_id) (sym same),
                ap (λ (x : ApiKey). x.organization_id) (sym same),
                c.membership,
                c.found,
                permitted c scope (rw (ap (λ (x : ApiKey). x.scopes) same) m),
              )
        ]
  ]

-- ===== src/ApiKeys/Revoked.antt =====
-- A key of src/modules/iam/api-keys that is revoked stays revoked.
use hexagonal.Base.{
  ℕ, ◌≡◌, ◌≢◌, ◌⊎◌, refl, sym, ap, ◌∙◌, inl, inr, String, Bool, true, false, not, ◌||◌, ◌==◌,
  Option, none, some, is_some, List, [], ◌∷◌, arith, eq_iff, ok, Bool-cases, Option-cases,
}
use hexagonal.Table.{find_by}
use hexagonal.Users.Entity.{User}
use hexagonal.Members.Repository.{Member}
use hexagonal.ApiKeys.Token.{ApiKeyTokenParts, parse_api_key_token}
use hexagonal.ApiKeys.Entity.{
  ApiKey, is_revoked, is_active, revoke, should_record_usage, record_usage, create, rehydrate,
}
use hexagonal.ApiKeys.Accepted.{Accepted, used, authenticate-cases}
use hexagonal.ApiKeys.Created.{created_of, create_api_key-cases}
use hexagonal.ApiKeys.UseCases.{
  key_id, Ports, find_by_id, authenticate, create_api_key, revoke_api_key,
}
use hexagonal.ApiKeys.Steps.{
  Step, use_key, add_key, revoke_key, AreOtherIds, IsRevokedIn, step, steps, find_by_id-find_by,
  find_by_id-key,
}

module _ (ports : Ports) where
  -- The key that is found is revoked if the row is.
  pub find_by_id-IsRevokedIn :
      (id : String) (keys : List ApiKey)
      → IsRevokedIn id keys
      → (k : ApiKey) → find_by_id ports true id keys ≡ some k
      → is_revoked k ≡ true
  unfolding rehydrate
  find_by_id-IsRevokedIn id keys revoked k found =
      let row = find_by_id-find_by ports id keys in
      elim (Option-cases (find_by key_id id keys)) [
        | inl missing ↦ absurd (ground arith)
        | inr (r, there) ↦
            let kept = revoked r there in
            let same : rehydrate ports.user_texts.trim r ≡ k = ground arith in
            ap (λ (x : ApiKey). is_some x.revoked_at) (sym same) ∙ kept
      ]

  save-IsRevokedIn :
      (id : String) (k : ApiKey) (keys : List ApiKey)
      → (k.id ≡ id → is_revoked k ≡ true)
      → IsRevokedIn id keys
      → IsRevokedIn id (ports.key_saves.save k keys)
  save-IsRevokedIn id k keys fits revoked after found =
      let saved = ports.key_saves.find_by-save id k keys in
      elim (Bool-cases (k.id == id)) [
        | inl same ↦
            let own = fits ((eq_iff k.id id).0 same) in
            let written : k ≡ after = ground arith in
            ap (λ (x : ApiKey). is_some x.revoked_at) (sym written) ∙ own
        | inr other ↦ revoked after (ground arith)
      ]

  transport-IsRevokedIn :
      (id : String) (keys after : List ApiKey)
      → keys ≡ after
      → IsRevokedIn id keys
      → IsRevokedIn id after
  transport-IsRevokedIn id keys after same revoked k found =
      revoked k (ap (find_by key_id id) same ∙ found)

  revoke-lem : (now : ℕ) (k : ApiKey) → is_revoked (revoke now k) ≡ true
  unfolding revoke
  revoke-lem now k = ground arith

  revoke-id : (now : ℕ) (k : ApiKey) → (revoke now k).id ≡ k.id
  unfolding revoke
  revoke-id now k = ground arith

  save_own-IsRevokedIn :
      (id : String) (k : ApiKey) (keys : List ApiKey)
      → k.id ≡ id
      → is_revoked k ≡ true
      → IsRevokedIn id (ports.key_saves.save k keys)
  save_own-IsRevokedIn id k keys own revoked after found =
      let saved = ports.key_saves.find_by-save id k keys in
      let same : k ≡ after = ground (arith, eq_iff k.id id) in
      ap (λ (x : ApiKey). is_some x.revoked_at) (sym same) ∙ revoked

  of_find_by_id :
      (id : String) (keys : List ApiKey) (key : ApiKey)
      → find_by_id ports true id keys ≡ some key
      → is_revoked key ≡ true
      → IsRevokedIn id keys
  unfolding rehydrate
  of_find_by_id id keys key found revoked r there =
      let row = find_by_id-find_by ports id keys in
      let same : rehydrate ports.user_texts.trim r ≡ key = ground arith in
      ap (λ (x : ApiKey). is_some x.revoked_at) same ∙ revoked

  -- A revocation that succeeds, and one of another key.
  pub revoke_api_key-IsRevokedIn :
      (id : String) (recorded : Bool) (now : ℕ) (other organization owner : String)
      (keys : List ApiKey)
      → IsRevokedIn id keys
        ⊎ ((other ≡ id)
            × ((revoke_api_key ports recorded now other organization owner keys).0 ≡ ok tt))
      → IsRevokedIn id (revoke_api_key ports recorded now other organization owner keys).1
  unfolding revoke_api_key
  revoke_api_key-IsRevokedIn id recorded now other organization owner keys revoked =
      elim (Option-cases (find_by_id ports true other keys)) [
        | inl missing ↦ elim revoked [
          | inl before ↦ transport-IsRevokedIn id keys _ (ground arith) before
          | inr (same, success) ↦ absurd (ground arith)
        ]
        | inr (key, found) ↦
            elim (Bool-cases
              (not (key.organization_id == organization) || not (key.owner_user_id == owner))) [
                | inl foreign ↦ elim revoked [
                  | inl before ↦ transport-IsRevokedIn id keys _ (ground arith) before
                  | inr (same, success) ↦ absurd (ground arith)
                ]
                | inr own ↦ elim (Bool-cases (is_revoked key)) [
                  | inl already ↦ transport-IsRevokedIn id keys _ (ground arith) (elim revoked [
                    | inl before ↦ before
                    | inr (same, success) ↦
                        of_find_by_id id keys key
                          (ap (λ i. find_by_id ports true i keys) (sym same) ∙ found) already
                  ])
                  | inr active ↦
                      transport-IsRevokedIn id (ports.key_saves.save (revoke now key) keys) _
                        (ground arith)
                        (elim revoked [
                          | inl before ↦
                              save-IsRevokedIn id (revoke now key) keys (λ e. revoke-lem now key)
                                before
                          | inr (same, success) ↦
                              save_own-IsRevokedIn id (revoke now key) keys
                                (revoke-id now key
                                  ∙ find_by_id-key ports other keys key found
                                  ∙ same)
                                (revoke-lem now key)
                        ])
                ]
              ]
      ]

  record_usage-id :
      (now : ℕ) (ip : Option String) (k : ApiKey)
      → (record_usage ports.user_texts.trim now ip k).id ≡ k.id
  unfolding record_usage
  record_usage-id now ip k = refl

  inactive_of_revoked : (now : ℕ) (k : ApiKey) → is_revoked k ≡ true → is_active now k ≡ false
  unfolding is_active
  inactive_of_revoked now k e = rw e refl

  -- A row that is revoked is not accepted.
  pub IsRevokedIn-refused :
      (id : String) (users : List User) (members : List Member) (now : ℕ) (token : String)
      → (remote_ip : Option String) (keys : List ApiKey) → IsRevokedIn id keys
      → (a : Accepted ports users members now token remote_ip keys) → a.parts.id ≢ id
  IsRevokedIn-refused id users members now token remote_ip keys revoked a same =
      let found : find_by_id ports true id keys ≡ some a.key =
        ap (λ i. find_by_id ports true i keys) (sym same) ∙ a.found in
      let dead =
        inactive_of_revoked now a.key (find_by_id-IsRevokedIn id keys revoked a.key found) in
      let alive = a.alive in ground arith

  authenticate-IsRevokedIn :
      (id : String) (users : List User) (members : List Member) (now : ℕ) (token : String)
      → (remote_ip : Option String) (keys : List ApiKey) → IsRevokedIn id keys
      → IsRevokedIn id (authenticate ports users members now token remote_ip keys).1
  unfolding is_active
  authenticate-IsRevokedIn id users members now token remote_ip keys revoked =
      elim (authenticate-cases ports users members now token remote_ip keys) [
        | inr refused ↦ transport-IsRevokedIn id keys _ (sym (ap (λ r. r.1) refused)) revoked
        | inl (a, accepted) ↦
            transport-IsRevokedIn id (used ports users members now token remote_ip keys a.key) _
              (sym (ap (λ r. r.1) accepted))
              (elim (Bool-cases (should_record_usage now ports.usage_write_interval_ms a.key)) [
                | inr fresh ↦ rw fresh revoked
                | inl due ↦ rw due (
                    save-IsRevokedIn id (record_usage ports.user_texts.trim now remote_ip a.key)
                      keys
                      (λ same. absurd (
                        IsRevokedIn-refused id users members now token remote_ip keys revoked a (
                          sym (find_by_id-key ports a.parts.id keys a.key a.found)
                          ∙ sym (record_usage-id now remote_ip a.key)
                          ∙ same)))
                      revoked)
              ])
      ]

  create_api_key-IsRevokedIn :
      (id : String) (members : List Member) (tenant : Option String) (recorded : Bool) (now : ℕ)
      → (drawn secret organization owner name : String)
      → (scopes : Option (List String)) (days : Option ℕ) (keys : List ApiKey) → drawn ≢ id
      → IsRevokedIn id keys
      → IsRevokedIn id
          (create_api_key ports members tenant recorded now drawn secret organization owner name
            scopes days keys).1
  unfolding create
  create_api_key-IsRevokedIn id members tenant recorded now drawn secret organization owner name
        scopes days keys other revoked =
      elim (create_api_key-cases ports members tenant recorded now drawn secret organization owner
        name scopes days keys) [
          | inr (e, refused) ↦ transport-IsRevokedIn id keys _ (sym (ap (λ r. r.1) refused)) revoked
          | inl c ↦
              transport-IsRevokedIn id
                (ports.key_saves.save
                  (created_of ports members tenant recorded now drawn secret organization owner name
                    scopes days keys c.membership)
                  keys)
                _ (sym (ap (λ r. r.1) c.outcome))
                (save-IsRevokedIn id
                  (created_of ports members tenant recorded now drawn secret organization owner name
                    scopes days keys c.membership)
                  keys (λ same. absurd (other same)) revoked)
        ]

  steps-IsRevokedIn :
      (id : String) (ss : List Step) (keys : List ApiKey)
      → AreOtherIds id ss
      → IsRevokedIn id keys
      → IsRevokedIn id (steps ports ss keys)
  unfolding step
  steps-IsRevokedIn id [] keys other revoked = revoked
  steps-IsRevokedIn id (use_key users members now token remote_ip ∷ ss) keys other revoked =
      steps-IsRevokedIn id ss _ other
        (authenticate-IsRevokedIn id users members now token remote_ip keys revoked)
  steps-IsRevokedIn id
        (add_key members tenant recorded now drawn secret organization owner name scopes days ∷ ss)
        keys (fresh, other) revoked =
      steps-IsRevokedIn id ss _ other (
        create_api_key-IsRevokedIn id members tenant recorded now drawn secret organization owner
          name scopes days keys fresh revoked)
  steps-IsRevokedIn id (revoke_key recorded now drawn organization owner ∷ ss) keys other revoked =
      steps-IsRevokedIn id ss _ other
        (revoke_api_key-IsRevokedIn id recorded now drawn organization owner keys (inl revoked))

  -- A key that was revoked is taken no more, whatever use cases follow, unless its id is drawn again.
  pub revoked_key_refused :
      (recorded : Bool) (now : ℕ) (id organization owner : String) (keys : List ApiKey)
      → (revoke_api_key ports recorded now id organization owner keys).0 ≡ ok tt
      → (ss : List Step) → AreOtherIds id ss
      → (users : List User) (members : List Member) (later : ℕ) (token : String)
      → (remote_ip : Option String) (parts : ApiKeyTokenParts)
      → parse_api_key_token ports.texts token ≡ some parts
      → parts.id ≡ id
      → (authenticate ports users members later token remote_ip
          (steps ports ss (revoke_api_key ports recorded now id organization owner keys).1)).0
        ≡ none
  revoked_key_refused recorded now id organization owner keys success ss other users members later
        token remote_ip parts parsed same =
      let after = steps ports ss (revoke_api_key ports recorded now id organization owner keys).1 in
      let revoked =
        steps-IsRevokedIn id ss (revoke_api_key ports recorded now id organization owner keys).1
          other
          (revoke_api_key-IsRevokedIn id recorded now id organization owner keys
            (inr (refl, success))) in
      elim (authenticate-cases ports users members later token remote_ip after) [
        | inr refused ↦ ap (λ r. r.0) refused
        | inl (a, accepted) ↦
            let both = sym a.parsed ∙ parsed in
            let same_parts : a.parts ≡ parts = ground arith in
            absurd (
              IsRevokedIn-refused id users members later token remote_ip after revoked a
                (ap (λ p. p.id) same_parts ∙ same))
      ]

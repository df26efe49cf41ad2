-- ===== src/Sessions/Steps.antt =====
-- Use cases of src/modules/iam/auth one after another, and what they read and write.
use hexagonal.Base.{
  ℕ, ◌≡◌, ◌≢◌, ◌⊎◌, ap, ◌∙◌, inl, inr, String, true, ◌==◌, none, some, List, [], ◌∷◌, arith, ok,
  Option-cases, Result-cases, if◌then◌else◌,
}
use hexagonal.Table.{find_by, find_by-key, find_by-map}
use hexagonal.Sessions.Token.{OpaqueTokenParts, parse_opaque_token}
use hexagonal.Sessions.Entity.{AuthSession, is_active}
use hexagonal.Sessions.Repository.{session_id, find_by_id, update}
use hexagonal.Sessions.UseCases.{
  Ports, session_of_token, rotated, refresh, logout, logout_all, login,
}

-- One use case, run by one user after another.
pub data Step : Type 0 where
  log_in : (now : ℕ) → (id secret salt email password : String) → Step
  renew : (now : ℕ) → (salt next_secret token : String) → Step
  log_out : (now : ℕ) → (token : String) → Step
  log_out_all : (now : ℕ) → (user_id : String) → Step

-- The secret that a step draws is not this one: secrets are random UUIDs.
abbrev pub IsOther : String → Step → Type 0
IsOther secret (log_in now id drawn salt email password) = drawn ≢ secret
IsOther secret (renew now salt drawn token) = drawn ≢ secret
IsOther secret _ = Unit

abbrev pub AreOther : String → List Step → Type 0
AreOther secret [] = Unit
AreOther secret (s ∷ ss) = IsOther secret s × AreOther secret ss

module _ (ports : Ports) where
  unfoldable pub step : Step → List AuthSession → List AuthSession
  step (log_in now id secret salt email password) rows =
      (login ports now id secret salt email password rows).1
  step (renew now salt next_secret token) rows =
      (refresh ports (λ r. r) now salt next_secret token rows).1
  step (log_out now token) rows = (logout ports now token rows).1
  step (log_out_all now user_id) rows = (logout_all ports now user_id rows).1

  abbrev pub steps : List Step → List AuthSession → List AuthSession
  steps [] rows = rows
  steps (s ∷ ss) rows = steps ss (step s rows)

  -- What a password hash promises, but for collisions: only the text that was hashed compares.
  abbrev pub IsSound : Type 0
  IsSound =
      (salt secret other : String)
      → ports.compare other (ports.hash salt secret) ≡ true
      → other ≡ secret

  pub session_of_token-parts :
      (now : ℕ) (token : String) (rows : List AuthSession) (session : AuthSession)
      → session_of_token ports now token rows ≡ ok session
      → (parts : OpaqueTokenParts) × (parse_opaque_token ports.split token ≡ some parts)
        × (find_by_id parts.id rows ≡ some session)
        × (is_active now session ≡ true)
        × (ports.compare parts.secret session.refresh_token_hash ≡ true)
  unfolding session_of_token
  session_of_token-parts now token rows session h =
      elim (Option-cases (parse_opaque_token ports.split token)) [
        | inl unread ↦ absurd (ground arith)
        | inr (parts, read) ↦ elim (Option-cases (find_by_id parts.id rows)) [
          | inl missing ↦ absurd (ground arith)
          | inr (s, found) ↦ (parts, read, ground arith, ground arith, ground arith)
        ]
      ]

  pub session_of_token-found :
      (now : ℕ) (token : String) (rows : List AuthSession) (session : AuthSession)
      → session_of_token ports now token rows ≡ ok session
      → find_by_id session.id rows ≡ some session
  unfolding find_by_id
  session_of_token-found now token rows session h =
      let (parts, read, found, active, matches) = session_of_token-parts now token rows session h in
      ap (λ k. find_by session_id k rows) (find_by-key session_id parts.id rows found) ∙ found

  -- The row that an update leaves.
  pub find_by_id-update :
      (id : String) (s : AuthSession) (rows : List AuthSession)
      → find_by_id id (update s rows) ≡ (elim (find_by_id id rows) [
        | none ↦ none
        | some r ↦ some (
            if r.id == s.id
            then record r {
              refresh_token_hash = s.refresh_token_hash;
              expires_at = s.expires_at;
              revoked_at = s.revoked_at;
              updated_at = s.updated_at;
            }
            else r)
      ])
  unfolding update find_by_id
  find_by_id-update id s rows = find_by-map session_id _ id rows (λ r. ground arith)

  pub refresh-cases :
      (now : ℕ) (salt next_secret token : String) (rows : List AuthSession)
      → let after = refresh ports (λ r. r) now salt next_secret token rows in
        (after.1 ≡ rows)
        ⊎ ((session : AuthSession) × (session_of_token ports now token rows ≡ ok session)
            × (after.1 ≡ update (rotated ports now salt next_secret session) rows))
  unfolding refresh
  refresh-cases now salt next_secret token rows =
      elim (Result-cases (session_of_token ports now token rows)) [
        | inr (e, refused) ↦ inl (ground arith)
        | inl (session, taken) ↦ elim (Option-cases (ports.find_user_by_id session.user_id)) [
          | inl gone ↦ inl (ground arith)
          | inr (user, found) ↦ inr (session, taken, ground arith)
        ]
      ]

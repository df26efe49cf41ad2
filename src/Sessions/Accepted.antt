-- ===== src/Sessions/Accepted.antt =====
-- Which tokens the sessions of src/modules/iam/auth take.
use hexagonal.Base.{
  ℕ, ◌+◌, ◌<◌, ◌≡◌, ◌≢◌, refl, inl, inr, String, true, Bool-cases, some, List, [], ◌∷◌, arith, ◌∙◌,
  eq_refl, ok, Result-cases, Option-cases,
}
use hexagonal.Table.{find_by, find_by-key}
use hexagonal.Sessions.Token.{
  OpaqueTokenParts, token_of, parse_opaque_token, parse_opaque_token-token_of,
}
use hexagonal.Sessions.Entity.{AuthSession, create, is_active, rotate}
use hexagonal.Sessions.Repository.{session_id, find_by_id, update, create_row}
use hexagonal.Sessions.UseCases.{Ports, SessionResponse, session_of_token, rotated, refresh, login}
use hexagonal.Sessions.Steps.{session_of_token-parts, find_by_id-update}

module _ (ports : Ports) where
  -- What a password hash promises: the text that was hashed compares.
  abbrev pub IsComplete : Type 0
  IsComplete = (salt secret : String) → ports.compare secret (ports.hash salt secret) ≡ true

  -- The runtime splits the token of an id and a secret in these two: there are no dots in a UUID.
  abbrev pub Splits : (id secret : String) → Type 0
  Splits id secret =
      (ports.split (token_of id secret) ≡ id ∷ secret ∷ []) × (id ≢ "") × (secret ≢ "")

  found_by_id :
      (id : String) (session : AuthSession) (rows : List AuthSession)
      → find_by session_id id rows ≡ some session
      → find_by_id id rows ≡ some session
  unfolding find_by_id
  found_by_id id session rows there = ground arith

  taken :
      (later : ℕ) (id secret : String) (session : AuthSession) (rows : List AuthSession)
      → Splits id secret
      → find_by_id id rows ≡ some session
      → is_active later session ≡ true
      → ports.compare secret session.refresh_token_hash ≡ true
      → session_of_token ports later (token_of id secret) rows ≡ ok session
  unfolding session_of_token
  taken later id secret session rows (split, full_id, full_secret) found active matches =
      let read = parse_opaque_token-token_of ports.split id secret split full_id full_secret in
      ground arith

  -- If a text compares with its hash, and the token splits in its id and its secret, then the token that
  -- a login answers with is taken until the session expires, in any table that still has the row of the
  -- session as the login left it, so that no refresh and no logout has changed it.
  pub login_token_taken :
      IsComplete
      → (now : ℕ) (id secret salt email password : String) (rows : List AuthSession)
      → Splits id secret
      → (response : SessionResponse)
      → (login ports now id secret salt email password rows).0 ≡ ok response
      → (later : ℕ) → later < now + ports.refresh_session_ttl_ms
      → (then_rows : List AuthSession)
      → find_by session_id id then_rows
        ≡ find_by session_id id (login ports now id secret salt email password rows).1
      → (session : AuthSession) × (find_by session_id id
            (login ports now id secret salt email password rows).1
          ≡ some session)
        × (session_of_token ports later response.refresh_token then_rows ≡ ok session)
        × (session.user_id ≡ response.user_id)
  unfolding login create_row create is_active find_by_id
  login_token_taken complete now id secret salt email password rows splits response done later early
        then_rows kept =
      elim (Option-cases (ports.find_user_by_email email)) [
        | inl unknown ↦ absurd (ground arith)
        | inr (user, known) ↦
            let session =
              create now id user.id (ports.hash salt secret) (now + ports.refresh_session_ttl_ms) in
            let saved = ports.session_saves.find_by-save id session rows in
            let own = eq_refl id in
            let there : find_by session_id id (ports.session_saves.save session rows)
                ≡ some session =
              ground arith in
            elim (Bool-cases (ports.compare password user.password_hash)) [
              | inr wrong ↦ absurd (ground arith)
              | inl right ↦
                  let written : find_by session_id id
                        (login ports now id secret salt email password rows).1
                      ≡ some session =
                    ground arith in
                  let accepted =
                    taken later id secret session then_rows splits
                      (found_by_id id session then_rows (kept ∙ written)) (ground arith)
                      (complete salt secret) in
                  (session, written, ground arith, ground arith)
            ]
      ]

  -- If a text compares with its hash, and the new token splits in its id and its secret, then the token
  -- that a refresh answers with is taken until the session expires, in any table that still has the row
  -- of the session as the refresh left it, so that no other refresh and no logout has changed it.
  pub refresh_token_taken :
      IsComplete
      → (now : ℕ) (salt next_secret token : String) (rows : List AuthSession)
      → (response : SessionResponse)
      → (refresh ports (λ r. r) now salt next_secret token rows).0 ≡ ok response
      → (parts : OpaqueTokenParts) → parse_opaque_token ports.split token ≡ some parts
      → Splits parts.id next_secret
      → (later : ℕ) → later < now + ports.refresh_session_ttl_ms
      → (then_rows : List AuthSession)
      → find_by session_id parts.id then_rows
        ≡ find_by session_id parts.id (refresh ports (λ r. r) now salt next_secret token rows).1
      → (session : AuthSession) × (session_of_token ports later response.refresh_token then_rows
          ≡ ok session)
        × (session.expires_at ≡ now + ports.refresh_session_ttl_ms)
  unfolding refresh rotated rotate is_active find_by_id
  refresh_token_taken complete now salt next_secret token rows response done parts read splits later
        early then_rows kept =
      elim (Result-cases (session_of_token ports now token rows)) [
        | inr (e, refused) ↦ absurd (ground arith)
        | inl (old, known) ↦ elim (Option-cases (ports.find_user_by_id old.user_id)) [
          | inl gone ↦ absurd (ground arith)
          | inr (user, there) ↦
              let (others, same, found, active, matches) =
                session_of_token-parts ports now token rows old known in
              let here : find_by session_id parts.id rows ≡ some old = ground arith in
              let named = find_by-key session_id parts.id rows here in
              let session = rotated ports now salt next_secret old in
              let row = find_by_id-update ports parts.id session rows in
              let own = eq_refl old.id in
              let there : find_by session_id parts.id (update session rows) ≡ some session =
                ground arith in
              let written : find_by session_id parts.id
                    (refresh ports (λ r. r) now salt next_secret token rows).1
                  ≡ some session =
                ground arith in
              let accepted =
                taken later parts.id next_secret session then_rows splits
                  (found_by_id parts.id session then_rows (kept ∙ written)) (ground arith)
                  (complete salt next_secret) in
              (session, ground arith, refl)
        ]
      ]

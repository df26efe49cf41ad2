-- ===== src/Sessions/Refused.antt =====
-- Which tokens the sessions of src/modules/iam/auth refuse.
use hexagonal.Base.{
  ℕ, ◌+◌, ◌≡◌, ◌≢◌, sym, ap, ◌∙◌, inl, inr, String, false, not, ◌==◌, ◌&&◌, some, is_some, List, [],
  ◌∷◌, arith, eq_iff, eq_refl, ok, err, Bool-cases, Option-cases, Result-cases, not-eq-true,
  if◌then◌else◌,
}
use hexagonal.Table.{find_by, find_by-key, find_by-map}
use hexagonal.Sessions.Token.{OpaqueTokenParts, parse_opaque_token}
use hexagonal.Sessions.Entity.{AuthSession, create, rotate, revoke}
use hexagonal.Sessions.Repository.{
  session_id, find_by_id, update, revoke_all_active_by_user_id, create_row,
}
use hexagonal.Sessions.UseCases.{
  Ports, session_not_found, SessionResponse, session_of_token, rotated, refresh, logout, logout_all,
  login,
}
use hexagonal.Sessions.Steps.{
  Step, log_in, renew, log_out, log_out_all, IsOther, AreOther, step, steps, IsSound,
  session_of_token-parts, session_of_token-found, find_by_id-update, refresh-cases,
}

module _ (ports : Ports) where
  -- The session with the id, if there is one, does not take the secret.
  abbrev pub Refuses : (secret id : String) → List AuthSession → Type 0
  Refuses secret id rows =
      (s : AuthSession)
      → find_by_id id rows ≡ some s
      → ports.compare secret s.refresh_token_hash ≡ false

  update-Refuses :
      (secret id : String) (s : AuthSession) (rows : List AuthSession)
      → (s.id ≡ id → ports.compare secret s.refresh_token_hash ≡ false)
      → Refuses secret id rows
      → Refuses secret id (update s rows)
  unfolding find_by_id
  update-Refuses secret id s rows written refuses after found =
      let row = find_by_id-update ports id s rows in
      elim (Option-cases (find_by_id id rows)) [
        | inl missing ↦ absurd (ground arith)
        | inr (r, there) ↦
            let named = find_by-key session_id id rows there in
            let kept = refuses r there in
            elim (Bool-cases (r.id == s.id)) [
              | inl same ↦
                  let fresh = written (sym ((eq_iff r.id s.id).0 same) ∙ named) in ground arith
              | inr apart ↦ ground arith
            ]
      ]

  logout-Refuses :
      (secret id : String) (now : ℕ) (token : String) (rows : List AuthSession)
      → Refuses secret id rows
      → Refuses secret id (logout ports now token rows).1
  unfolding logout revoke find_by_id
  logout-Refuses secret id now token rows refuses after found =
      elim (Result-cases (session_of_token ports now token rows)) [
        | inr (e, refused) ↦ refuses after (ground arith)
        | inl (session, taken) ↦
            let there = session_of_token-found ports now token rows session taken in
            update-Refuses secret id (revoke now session) rows
              (λ here. refuses session (sym (ap (λ k. find_by session_id k rows) here) ∙ there))
              refuses after (ground arith)
      ]

  logout_all-Refuses :
      (secret id : String) (now : ℕ) (user_id : String) (rows : List AuthSession)
      → Refuses secret id rows
      → Refuses secret id (logout_all ports now user_id rows).1
  unfolding logout_all revoke_all_active_by_user_id find_by_id
  logout_all-Refuses secret id now user_id rows refuses after found =
      let row =
        find_by-map session_id
          (λ r.
            if (r.user_id == user_id) && not (is_some r.revoked_at)
            then record r { revoked_at = some now; updated_at = now }
            else r)
          id rows (λ r. ground arith) in
      elim (Option-cases (find_by_id id rows)) [
        | inl missing ↦ absurd (ground arith)
        | inr (r, there) ↦ let kept = refuses r there in ground arith
      ]

  login-Refuses :
      IsSound ports
      → (secret id : String) (now : ℕ) (new_id drawn salt email password : String)
        (rows : List AuthSession)
      → drawn ≢ secret
      → Refuses secret id rows
      → Refuses secret id (login ports now new_id drawn salt email password rows).1
  unfolding login create_row create find_by_id
  login-Refuses sound secret id now new_id drawn salt email password rows other refuses after
        found =
      let fresh : ports.compare secret (ports.hash salt drawn) ≡ false =
        not-eq-true (λ e. other (sym (sound salt drawn secret e))) in
      elim (Option-cases (ports.find_user_by_email email)) [
        | inl unknown ↦ refuses after (ground arith)
        | inr (user, known) ↦
            let new =
              create now new_id user.id (ports.hash salt drawn)
                (now + ports.refresh_session_ttl_ms) in
            let saved = ports.session_saves.find_by-save id new rows in
            elim (Bool-cases (ports.compare password user.password_hash)) [
              | inr wrong ↦ refuses after (ground arith)
              | inl right ↦ elim (Bool-cases (new_id == id)) [
                | inl here ↦ ground arith
                | inr apart ↦ refuses after (ground arith)
              ]
            ]
      ]

  -- A session keeps refusing a secret that is not drawn again.
  step-Refuses :
      IsSound ports
      → (secret id : String) (s : Step) (rows : List AuthSession) → IsOther secret s
      → Refuses secret id rows
      → Refuses secret id (step ports s rows)
  unfolding step rotated rotate
  step-Refuses sound secret id (log_in now new_id drawn salt email password) rows other refuses =
      login-Refuses sound secret id now new_id drawn salt email password rows other refuses
  step-Refuses sound secret id (renew now salt drawn token) rows other refuses =
      elim (refresh-cases ports now salt drawn token rows) [
        | inl same ↦ rw same refuses
        | inr (session, taken, written) ↦ rw written (
            update-Refuses secret id (rotated ports now salt drawn session) rows
              (λ here. not-eq-true (λ e. other (sym (sound salt drawn secret e)))) refuses)
      ]
  step-Refuses sound secret id (log_out now token) rows other refuses =
      logout-Refuses secret id now token rows refuses
  step-Refuses sound secret id (log_out_all now user_id) rows other refuses =
      logout_all-Refuses secret id now user_id rows refuses

  steps-Refuses :
      IsSound ports
      → (secret id : String) (ss : List Step) (rows : List AuthSession) → AreOther secret ss
      → Refuses secret id rows
      → Refuses secret id (steps ports ss rows)
  steps-Refuses sound secret id [] rows other refuses = refuses
  steps-Refuses sound secret id (s ∷ ss) rows (other, others) refuses =
      steps-Refuses sound secret id ss (step ports s rows) others
        (step-Refuses sound secret id s rows other refuses)

  refresh-Refuses :
      IsSound ports
      → (now : ℕ) (salt next_secret token : String) (rows : List AuthSession)
      → (parts : OpaqueTokenParts) → parse_opaque_token ports.split token ≡ some parts
      → next_secret ≢ parts.secret
      → (response : SessionResponse)
      → (refresh ports (λ r. r) now salt next_secret token rows).0 ≡ ok response
      → Refuses parts.secret parts.id (refresh ports (λ r. r) now salt next_secret token rows).1
  unfolding refresh find_by_id rotated rotate
  refresh-Refuses sound now salt next_secret token rows parts read other response done after found =
      let fresh : ports.compare parts.secret (ports.hash salt next_secret) ≡ false =
        not-eq-true (λ e. other (sym (sound salt next_secret parts.secret e))) in
      elim (Result-cases (session_of_token ports now token rows)) [
        | inr (e, refused) ↦ absurd (ground arith)
        | inl (session, taken) ↦
            let (others, same, there, active, matches) =
              session_of_token-parts ports now token rows session taken in
            let here : find_by session_id parts.id rows ≡ some session = ground arith in
            let named = find_by-key session_id parts.id rows here in
            let row =
              find_by_id-update ports parts.id (rotated ports now salt next_secret session) rows in
            let own = eq_refl session.id in
            elim (Option-cases (ports.find_user_by_id session.user_id)) [
              | inl gone ↦ absurd (ground arith)
              | inr (user, known) ↦ ground arith
            ]
      ]

  -- If only the text that was hashed compares with a hash, then a token that refreshed a session is
  -- refused from then on, whatever use cases are run after it, unless its secret is drawn again.
  pub refreshed_token_refused :
      IsSound ports
      → (now : ℕ) (salt next_secret token : String) (rows : List AuthSession)
      → (parts : OpaqueTokenParts) → parse_opaque_token ports.split token ≡ some parts
      → next_secret ≢ parts.secret
      → (response : SessionResponse)
      → (refresh ports (λ r. r) now salt next_secret token rows).0 ≡ ok response
      → (ss : List Step) → AreOther parts.secret ss
      → (later : ℕ)
      → session_of_token ports later token
          (steps ports ss (refresh ports (λ r. r) now salt next_secret token rows).1)
        ≡ err session_not_found
  unfolding session_of_token
  refreshed_token_refused sound now salt next_secret token rows parts read other response done ss
        others later =
      let after = steps ports ss (refresh ports (λ r. r) now salt next_secret token rows).1 in
      let own =
        refresh-Refuses sound now salt next_secret token rows parts read other response done in
      let refuses = steps-Refuses sound parts.secret parts.id ss _ others own in
      elim (Option-cases (find_by_id parts.id after)) [
        | inl gone ↦ ground arith
        | inr (session, found) ↦ let refused = refuses session found in ground arith
      ]

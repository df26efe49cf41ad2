-- ===== src/Sessions/Ended.antt =====
-- Sessions of src/modules/iam/auth that were ended.
use hexagonal.Base.{
  ℕ, ◌+◌, ◌≡◌, ◌≢◌, refl, sym, ap, ◌∙◌, inl, inr, String, true, not, ◌==◌, ◌&&◌, some, is_some,
  List, [], ◌∷◌, arith, eq_iff, eq_refl, ok, err, Bool-cases, Option-cases, Result-cases,
  if◌then◌else◌,
}
use hexagonal.Table.{find_by, find_by-key, find_by-map}
use hexagonal.Sessions.Token.{OpaqueTokenParts, parse_opaque_token}
use hexagonal.Sessions.Entity.{AuthSession, create, is_active, rotate, revoke}
use hexagonal.Sessions.Repository.{
  session_id, find_by_id, update, revoke_all_active_by_user_id, create_row,
}
use hexagonal.Sessions.UseCases.{
  Ports, session_not_found, AuditRecord, session_of_token, rotated, logout, logout_all, login,
}
use hexagonal.Sessions.Steps.{
  Step, log_in, renew, log_out, log_out_all, step, steps, session_of_token-parts,
  session_of_token-found, find_by_id-update, refresh-cases,
}

-- A login draws another id, as random UUIDs are.
abbrev pub IsOtherId : String → Step → Type 0
IsOtherId id (log_in now drawn secret salt email password) = drawn ≢ id
IsOtherId id _ = Unit

abbrev pub AreOtherIds : String → List Step → Type 0
AreOtherIds id [] = Unit
AreOtherIds id (s ∷ ss) = IsOtherId id s × AreOtherIds id ss

-- The session with the id, if there is one, is revoked.
abbrev pub IsEnded : (id : String) → List AuthSession → Type 0
IsEnded id rows = (s : AuthSession) → find_by_id id rows ≡ some s → is_some s.revoked_at ≡ true

module _ (ports : Ports) where
  update-IsEnded :
      (id : String) (s : AuthSession) (rows : List AuthSession)
      → (s.id ≡ id → is_some s.revoked_at ≡ true)
      → IsEnded id rows
      → IsEnded id (update s rows)
  unfolding find_by_id
  update-IsEnded id s rows written ended after found =
      let row = find_by_id-update ports id s rows in
      elim (Option-cases (find_by_id id rows)) [
        | inl missing ↦ absurd (ground arith)
        | inr (r, there) ↦
            let named = find_by-key session_id id rows there in
            let kept = ended r there in
            elim (Bool-cases (r.id == s.id)) [
              | inl same ↦
                  let fresh = written (sym ((eq_iff r.id s.id).0 same) ∙ named) in ground arith
              | inr apart ↦ ground arith
            ]
      ]

  logout-IsEnded :
      (id : String) (now : ℕ) (token : String) (rows : List AuthSession)
      → IsEnded id rows
      → IsEnded id (logout ports now token rows).1
  unfolding logout revoke
  logout-IsEnded id now token rows ended after found =
      elim (Result-cases (session_of_token ports now token rows)) [
        | inr (e, refused) ↦ ended after (ground arith)
        | inl (session, taken) ↦
            update-IsEnded id (revoke now session) rows (λ here. refl) ended after (ground arith)
      ]

  logout_all-IsEnded :
      (id : String) (now : ℕ) (user_id : String) (rows : List AuthSession)
      → IsEnded id rows
      → IsEnded id (logout_all ports now user_id rows).1
  unfolding logout_all revoke_all_active_by_user_id find_by_id
  logout_all-IsEnded id now user_id rows ended after found =
      let row =
        find_by-map session_id
          (λ r.
            if (r.user_id == user_id) && not (is_some r.revoked_at)
            then record r { revoked_at = some now; updated_at = now }
            else r)
          id rows (λ r. ground arith) in
      elim (Option-cases (find_by_id id rows)) [
        | inl missing ↦ absurd (ground arith)
        | inr (r, there) ↦ let kept = ended r there in ground arith
      ]

  login-IsEnded :
      (id : String) (now : ℕ) (drawn secret salt email password : String) (rows : List AuthSession)
      → drawn ≢ id
      → IsEnded id rows
      → IsEnded id (login ports now drawn secret salt email password rows).1
  unfolding login create_row create find_by_id
  login-IsEnded id now drawn secret salt email password rows other ended after found =
      elim (Option-cases (ports.find_user_by_email email)) [
        | inl unknown ↦ ended after (ground arith)
        | inr (user, known) ↦
            let new =
              create now drawn user.id (ports.hash salt secret)
                (now + ports.refresh_session_ttl_ms) in
            let saved = ports.session_saves.find_by-save id new rows in
            let apart = eq_iff drawn id in
            elim (Bool-cases (ports.compare password user.password_hash)) [
              | inr wrong ↦ ended after (ground arith)
              | inl right ↦ ended after (ground arith)
            ]
      ]

  step-IsEnded :
      (id : String) (s : Step) (rows : List AuthSession)
      → IsOtherId id s
      → IsEnded id rows
      → IsEnded id (step ports s rows)
  unfolding step rotated rotate is_active find_by_id
  step-IsEnded id (log_in now drawn secret salt email password) rows other ended =
      login-IsEnded id now drawn secret salt email password rows other ended
  step-IsEnded id (renew now salt drawn token) rows other ended =
      elim (refresh-cases ports now salt drawn token rows) [
        | inl same ↦ rw same ended
        | inr (session, taken, written) ↦
            let (parts, read, found, active, matches) =
              session_of_token-parts ports now token rows session taken in
            let there = session_of_token-found ports now token rows session taken in
            rw written (
              update-IsEnded id (rotated ports now salt drawn session) rows
                (λ here. absurd (
                  ground (
                    arith,
                    ended session (sym (ap (λ k. find_by session_id k rows) here) ∙ there),
                  )))
                ended)
      ]
  step-IsEnded id (log_out now token) rows other ended = logout-IsEnded id now token rows ended
  step-IsEnded id (log_out_all now user_id) rows other ended =
      logout_all-IsEnded id now user_id rows ended

  steps-IsEnded :
      (id : String) (ss : List Step) (rows : List AuthSession)
      → AreOtherIds id ss
      → IsEnded id rows
      → IsEnded id (steps ports ss rows)
  steps-IsEnded id [] rows other ended = ended
  steps-IsEnded id (s ∷ ss) rows (other, others) ended =
      steps-IsEnded id ss (step ports s rows) others (step-IsEnded id s rows other ended)

  -- No token takes an ended session.
  ended_refused :
      (later : ℕ) (token : String) (rows : List AuthSession) (parts : OpaqueTokenParts)
      → parse_opaque_token ports.split token ≡ some parts
      → IsEnded parts.id rows
      → session_of_token ports later token rows ≡ err session_not_found
  unfolding session_of_token is_active
  ended_refused later token rows parts read ended = elim (Option-cases (find_by_id parts.id rows)) [
    | inl gone ↦ ground arith
    | inr (session, found) ↦ let over = ended session found in ground arith
  ]

  logout_ends :
      (now : ℕ) (token : String) (rows : List AuthSession) (parts : OpaqueTokenParts)
      → parse_opaque_token ports.split token ≡ some parts
      → (audit : AuditRecord) → (logout ports now token rows).0 ≡ ok audit
      → IsEnded parts.id (logout ports now token rows).1
  unfolding logout revoke find_by_id
  logout_ends now token rows parts read audit done after found =
      elim (Result-cases (session_of_token ports now token rows)) [
        | inr (e, refused) ↦ absurd (ground arith)
        | inl (session, taken) ↦
            let (others, same, there, active, matches) =
              session_of_token-parts ports now token rows session taken in
            let here : find_by session_id parts.id rows ≡ some session = ground arith in
            let row = find_by_id-update ports parts.id (revoke now session) rows in
            let own = eq_refl session.id in ground arith
      ]

  -- After a logout no token of the session is taken any more, whatever use cases are run after it,
  -- unless a login draws the id of the session again.
  pub logged_out_stays_out :
      (now : ℕ) (token : String) (rows : List AuthSession) (parts : OpaqueTokenParts)
      → parse_opaque_token ports.split token ≡ some parts
      → (audit : AuditRecord) → (logout ports now token rows).0 ≡ ok audit
      → (ss : List Step) → AreOtherIds parts.id ss
      → (later : ℕ) (other_token : String) (other_parts : OpaqueTokenParts)
      → parse_opaque_token ports.split other_token ≡ some other_parts
      → other_parts.id ≡ parts.id
      → session_of_token ports later other_token (steps ports ss (logout ports now token rows).1)
        ≡ err session_not_found
  logged_out_stays_out now token rows parts read audit done ss others later other_token other_parts
        other_read same =
      let ended =
        steps-IsEnded parts.id ss _ others (logout_ends now token rows parts read audit done) in
      ended_refused later other_token _ other_parts other_read (rw same ended)

  logout_all_ends :
      (now : ℕ) (user_id id : String) (rows : List AuthSession) (session : AuthSession)
      → find_by_id id rows ≡ some session
      → session.user_id ≡ user_id
      → IsEnded id (logout_all ports now user_id rows).1
  unfolding logout_all revoke_all_active_by_user_id find_by_id
  logout_all_ends now user_id id rows session found his after there =
      let row =
        find_by-map session_id
          (λ r.
            if (r.user_id == user_id) && not (is_some r.revoked_at)
            then record r { revoked_at = some now; updated_at = now }
            else r)
          id rows (λ r. ground arith) in
      let own = eq_iff session.user_id user_id in
      elim (Option-cases session.revoked_at) [
        | inl open_session ↦ ground arith
        | inr (before, over) ↦ ground arith
      ]

  -- After a logout from all sessions no token of a session that the user had is taken any more,
  -- whatever use cases are run after it, unless a login draws the id of the session again.
  pub logged_out_everywhere :
      (now : ℕ) (user_id id : String) (rows : List AuthSession) (session : AuthSession)
      → find_by_id id rows ≡ some session
      → session.user_id ≡ user_id
      → (ss : List Step) → AreOtherIds id ss
      → (later : ℕ) (token : String) (parts : OpaqueTokenParts)
      → parse_opaque_token ports.split token ≡ some parts
      → parts.id ≡ id
      → session_of_token ports later token (steps ports ss (logout_all ports now user_id rows).1)
        ≡ err session_not_found
  logged_out_everywhere now user_id id rows session found his ss others later token parts read
        same =
      let ended =
        steps-IsEnded id ss _ others (logout_all_ends now user_id id rows session found his) in
      ended_refused later token _ parts read (rw same ended)

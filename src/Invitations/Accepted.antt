-- ===== src/Invitations/Accepted.antt =====
-- An invitation of src/modules/iam/organizations is accepted once.
use hexagonal.Base.{
  ℕ, ◌≡◌, sym, ap, ◌∙◌, inl, inr, String, Bool, false, ◌==◌, Option, some, List, arith, ok, err,
  Bool-cases, Option-cases, Result-cases,
}
use hexagonal.Table.{find_by, find_by-key}
use hexagonal.Sessions.Token.{OpaqueTokenParts, parse_opaque_token}
use hexagonal.Users.Entity.{User}
use hexagonal.Users.Repository
use hexagonal.Members.Repository.{MembershipRole, find_by_user_and_organization}
use hexagonal.Invitations.Entity.{OrganizationInvitation, rehydrate, is_active}
use hexagonal.Invitations.Repository.{invitation_id, find_by_id, create_member}
use hexagonal.Invitations.UseCases.{
  Store, Ports, InvitationException, invitation_not_found, invitation_of_token, join,
  accept_invitation,
}
use hexagonal.Invitations.Steps.{Step, AreOtherIds, IsTaken, steps, own-IsTaken, steps-IsTaken}

module _ (ports : Ports) (roles : List MembershipRole) where
  -- A token of an invitation that is taken is refused.
  IsTaken-refused :
      (now : ℕ) (token : String) (parts : OpaqueTokenParts) (rows : List OrganizationInvitation)
      → parse_opaque_token ports.split token ≡ some parts
      → IsTaken parts.id rows
      → invitation_of_token ports roles now token rows ≡ err invitation_not_found
  unfolding invitation_of_token is_active find_by_id rehydrate
  IsTaken-refused now token parts rows read taken =
      elim (Option-cases (find_by invitation_id parts.id rows)) [
        | inl missing ↦ ground arith
        | inr (i, there) ↦ let over = taken i there in ground arith
      ]

  invitation_of_token-id :
      (now : ℕ) (token : String) (parts : OpaqueTokenParts) (rows : List OrganizationInvitation)
      (i : OrganizationInvitation)
      → parse_opaque_token ports.split token ≡ some parts
      → invitation_of_token ports roles now token rows ≡ ok i
      → i.id ≡ parts.id
  unfolding invitation_of_token find_by_id rehydrate
  invitation_of_token-id now token parts rows i read taken =
      elim (Option-cases (find_by invitation_id parts.id rows)) [
        | inl missing ↦ absurd (ground arith)
        | inr (r, there) ↦
            let key = find_by-key invitation_id parts.id rows there in
            elim (Bool-cases (is_active now (rehydrate ports.texts r))) [
              | inr over ↦ absurd (ground arith)
              | inl alive ↦ elim (Bool-cases (ports.compare parts.secret r.token_hash)) [
                | inr wrong ↦ absurd (ground arith)
                | inl right ↦
                    let same : rehydrate ports.texts r ≡ i = ground arith in
                    ap (λ (x : OrganizationInvitation). x.id) (sym same) ∙ key
              ]
            ]
      ]

  join-own :
      (recorded : Bool) (now : ℕ) (drawn : String) (i : OrganizationInvitation) (user : User)
      (store : Store)
      → (join ports roles recorded now drawn i user store).0 ≡ ok tt
      → IsTaken i.id (join ports roles recorded now drawn i user store).1.invitations
  unfolding join
  join-own recorded now drawn i user store done after found =
      elim (Option-cases (
        create_member ports.member_saves roles now drawn user.id i.organization_id i.role_id
          store.members)) [
            | inl refused ↦ absurd (ground arith)
            | inr (members, joined) ↦
                own-IsTaken ports roles now i store.invitations after (ground arith)
          ]

  accept_consumes :
      (users : List User) (tenant : Option String) (recorded : Bool) (now : ℕ)
      (drawn token user_id : String) (store : Store) (parts : OpaqueTokenParts)
      → parse_opaque_token ports.split token ≡ some parts
      → (accept_invitation ports roles users tenant recorded now drawn token user_id store).0
        ≡ ok tt
      → IsTaken parts.id
          (accept_invitation ports roles users tenant recorded now drawn token user_id
            store).1.invitations
  unfolding accept_invitation
  accept_consumes users tenant recorded now drawn token user_id store parts read done after found =
      elim (Result-cases (invitation_of_token ports roles now token store.invitations)) [
        | inr (e, refused) ↦ absurd (ground arith)
        | inl (i, known) ↦
            elim (Option-cases (Repository.find_by_id ports.texts false user_id users)) [
              | inl nobody ↦ absurd (ground arith)
              | inr (user, there) ↦ elim (Bool-cases (user.email == i.email)) [
                | inr foreign ↦ absurd (ground arith)
                | inl own ↦
                    elim (Option-cases (
                      find_by_user_and_organization tenant user.id i.organization_id
                        store.members)) [
                          | inr (existing, before) ↦ absurd (ground arith)
                          | inl newcomer ↦
                              let key =
                                invitation_of_token-id now token parts store.invitations i read
                                  known in
                              join-own recorded now drawn i user store (ground arith) after (
                                ap
                                  (λ k.
                                    find_by invitation_id k
                                      (join ports roles recorded now drawn i user
                                        store).1.invitations)
                                  key
                                ∙ ground arith)
                        ]
              ]
            ]
      ]

  refused_accept :
      (users : List User) (tenant : Option String) (recorded : Bool) (now : ℕ)
      (drawn token user_id : String) (store : Store) (e : InvitationException)
      → invitation_of_token ports roles now token store.invitations ≡ err e
      → (accept_invitation ports roles users tenant recorded now drawn token user_id store).0
        ≡ err e
  unfolding accept_invitation
  refused_accept users tenant recorded now drawn token user_id store e refused = ground arith

  -- An invitation that was accepted is not found again with its token, by whoever and whatever use cases
  -- follow, unless its id is drawn again.
  pub accepted_once :
      (users : List User) (tenant : Option String) (recorded : Bool) (now : ℕ)
      (drawn token user_id : String) (store : Store) (parts : OpaqueTokenParts)
      → parse_opaque_token ports.split token ≡ some parts
      → (accept_invitation ports roles users tenant recorded now drawn token user_id store).0
        ≡ ok tt
      → (ss : List Step) → AreOtherIds parts.id ss
      → (others : List User) (scope : Option String) (audited : Bool) (later : ℕ)
        (fresh other_user : String)
      → (accept_invitation ports roles others scope audited later fresh token other_user (
          steps ports roles ss
            (accept_invitation ports roles users tenant recorded now drawn token user_id
              store).1)).0
        ≡ err invitation_not_found
  accepted_once users tenant recorded now drawn token user_id store parts read done ss apart others
        scope audited later fresh other_user =
      let after =
        steps ports roles ss
          (accept_invitation ports roles users tenant recorded now drawn token user_id store).1 in
      let refused = IsTaken-refused later token parts after.invitations read (
        steps-IsTaken ports roles parts.id ss
          (accept_invitation ports roles users tenant recorded now drawn token user_id store).1
          apart
          (accept_consumes users tenant recorded now drawn token user_id store parts read done)) in
      refused_accept others scope audited later fresh token other_user after invitation_not_found
        refused

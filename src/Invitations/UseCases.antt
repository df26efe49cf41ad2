-- ===== src/Invitations/UseCases.antt =====
-- accept-organization-invitation.use-case.ts and create-organization-invitation.use-case.ts of
-- src/modules/iam/organizations/application/use-cases. The clock and random texts are arguments, as is
-- whether the audit record and the event are written and the mail is sent.
use hexagonal.Base.{
  ℕ, ◌+◌, ◌*◌, String, Bool, false, not, ◌==◌, Option, none, some, get_or, List, find, Result, ok,
  err, if◌then◌else◌,
}
use hexagonal.Table.{Saves}
use hexagonal.Sessions.Token.{token_of, parse_opaque_token}
use hexagonal.Users.Entity.{User, Texts}
use hexagonal.Users.Repository
use hexagonal.Members.Repository.{Member, MembershipRole, member_id, find_by_user_and_organization}
use hexagonal.ActionTokens.UseCases.{DeliveryMode, sync, async}
use hexagonal.Invitations.Entity.{OrganizationInvitation, create, is_active, accept, expire}
use hexagonal.Invitations.Repository.{
  invitation_id, find_by_id, find_active_by_organization_and_email, update, create_member,
}

pub record Store : Type 0 where
  pub members : List Member
  pub invitations : List OrganizationInvitation

pub record Ports : Type 0 where
  pub texts : Texts
  pub split : String → List String
  pub compare : (secret token_hash : String) → Bool
  pub hash : (salt secret : String) → String
  pub member_saves : Saves Member member_id
  pub invitation_saves : Saves OrganizationInvitation invitation_id
  pub organization_name : (id : String) → Option String

pub data InvitationException : Type 0 where
  invitation_not_found : InvitationException
  user_not_found : String → InvitationException
  email_mismatch : String → InvitationException
  member_already_exists : (user_id organization_id : String) → InvitationException
  role_not_found : String → InvitationException
  invitation_already_exists : (email organization_id : String) → InvitationException
  organization_not_found : String → InvitationException
  not_recorded : InvitationException
  not_sent : InvitationException

pub record CreateOrganizationInvitationCommand : Type 0 where
  pub organization_id : String
  pub email : String
  pub role_code : Option String

module _ (ports : Ports) (roles : List MembershipRole) where
  -- The checks of the token.
  unfoldable pub invitation_of_token :
      (now : ℕ) (token : String)
      → List OrganizationInvitation
      → Result InvitationException OrganizationInvitation
  invitation_of_token now token rows = elim (parse_opaque_token ports.split token) [
    | none ↦ err invitation_not_found
    | some parts ↦ elim (find_by_id ports.texts parts.id rows) [
      | none ↦ err invitation_not_found
      | some invitation ↦
          if not (is_active now invitation)
          then err invitation_not_found
          else if not (ports.compare parts.secret invitation.token_hash)
          then err invitation_not_found
          else ok invitation
    ]
  ]

  -- The insertion of the member and the update of the invitation, which are in no transaction.
  unfoldable pub join :
      (recorded : Bool) (now : ℕ) (drawn : String)
      → OrganizationInvitation
      → User
      → Store
      → Result InvitationException (Unit {0}) × Store
  join recorded now drawn invitation user store =
      elim (create_member ports.member_saves roles now drawn user.id invitation.organization_id
        invitation.role_id store.members) [
          | none ↦ (err not_recorded, store)
          | some members ↦ (
            if recorded then ok tt else err not_recorded,
            record {
              members = members;
              invitations = update (accept now invitation) store.invitations;
            },
          )
        ]

  unfoldable pub accept_invitation :
      List User
      → (tenant : Option String) (recorded : Bool) (now : ℕ) (drawn token user_id : String) → Store
      → Result InvitationException (Unit {0}) × Store
  accept_invitation users tenant recorded now drawn token user_id store =
      elim (invitation_of_token now token store.invitations) [
        | err e ↦ (err e, store)
        | ok invitation ↦ elim (Repository.find_by_id ports.texts false user_id users) [
          | none ↦ (err (user_not_found user_id), store)
          | some user ↦
              if not (user.email == invitation.email)
              then (err (email_mismatch invitation.email), store)
              else elim (find_by_user_and_organization tenant user.id invitation.organization_id
                  store.members) [
                    | some existing ↦
                        (err (member_already_exists user.id invitation.organization_id), store)
                    | none ↦ join recorded now drawn invitation user store
                  ]
        ]
      ]

  -- `existingUser` is a member already.
  abbrev pub is_member :
      List User
      → (tenant : Option String) → CreateOrganizationInvitationCommand
      → List Member
      → Option String
  is_member users tenant command members =
      elim (Repository.find_by_email ports.texts false command.email users) [
        | none ↦ none
        | some user ↦
            elim (find_by_user_and_organization tenant user.id command.organization_id members) [
              | none ↦ none
              | some existing ↦ some user.id
            ]
      ]

  abbrev pub is_open : (now : ℕ) → Option OrganizationInvitation → Bool
  is_open now none = false
  is_open now (some invitation) = is_active now invitation

  -- The invitation and its token, or what is thrown.
  unfoldable pub prepare_invitation :
      List User
      → (tenant : Option String) (recorded : Bool) (now : ℕ) (id secret salt : String)
      → CreateOrganizationInvitationCommand
      → Store
      → Result InvitationException (OrganizationInvitation × String)
  prepare_invitation users tenant recorded now id secret salt command store =
      let role_code = get_or command.role_code "member" in
      elim (find (λ (r : MembershipRole). r.name == role_code) roles) [
        | none ↦ err (role_not_found role_code)
        | some role ↦ elim (is_member users tenant command store.members) [
          | some user_id ↦ err (member_already_exists user_id command.organization_id)
          | none ↦
              if is_open now (
                find_active_by_organization_and_email ports.texts command.organization_id
                  command.email store.invitations)
              then err (invitation_already_exists command.email command.organization_id)
              else elim (ports.organization_name command.organization_id) [
                | none ↦ err (organization_not_found command.organization_id)
                | some name ↦
                    if recorded
                    then ok (
                      create ports.texts now id command.organization_id command.email role.id
                          (ports.hash salt secret) (now + 7 * 24 * 60 * 60 * 1000),
                      token_of id secret,
                    )
                    else err not_recorded
              ]
        ]
      ]

  -- What the modes of delivery leave: a mail that is not sent undoes the transaction, or lets the
  -- invitation expire at `later`.
  abbrev pub delivered :
      DeliveryMode
      → (sent : Bool) (later : ℕ) → OrganizationInvitation
      → String
      → Store
      → Result InvitationException String × Store
  delivered mode sent later invitation token store =
      let after = record store {
        invitations = ports.invitation_saves.save invitation store.invitations;
      } in
      if sent then (ok token, after) else elim mode [
        | async ↦ (err not_sent, store)
        | sync ↦ (
          err not_sent,
          record after { invitations = update (expire later invitation) after.invitations },
        )
      ]

  unfoldable pub create_invitation :
      List User
      → (tenant : Option String) (mode : DeliveryMode) (recorded sent : Bool) (now later : ℕ)
        (id secret salt : String)
      → CreateOrganizationInvitationCommand
      → Store
      → Result InvitationException String × Store
  create_invitation users tenant mode recorded sent now later id secret salt command store =
      elim (prepare_invitation users tenant recorded now id secret salt command store) [
        | err e ↦ (err e, store)
        | ok (invitation, token) ↦ delivered mode sent later invitation token store
      ]

-- ===== src/Invitations/Repository.antt =====
-- The statements of src/modules/iam/organizations/infrastructure/persistence/typeorm/repositories/
-- organization-invitation.typeorm-repository.ts, and the insertion of member.typeorm-repository.ts.
use hexagonal.Base.{
  ℕ, String, Bool, not, ◌&&◌, ◌==◌, leb, Option, none, some, is_some, List, [], ◌∷◌, find, filter,
  any, if◌then◌else◌,
}
use hexagonal.Table.{find_by, update_where, Saves}
use hexagonal.Users.Entity.{Texts}
use hexagonal.Members.Repository.{Member, MembershipRole, member_id}
use hexagonal.Invitations.Entity.{OrganizationInvitation, rehydrate}

abbrev pub invitation_id : OrganizationInvitation → String
invitation_id i = i.id

abbrev pub to_domain : Texts → Option OrganizationInvitation → Option OrganizationInvitation
to_domain texts none = none
to_domain texts (some row) = some (rehydrate texts row)

unfoldable pub find_by_id :
    Texts → (id : String) → List OrganizationInvitation → Option OrganizationInvitation
find_by_id texts id rows = to_domain texts (find_by invitation_id id rows)

-- The newest, as `ORDER BY "createdAt" DESC LIMIT 1` gives it.
abbrev pub newest : List OrganizationInvitation → Option OrganizationInvitation
newest [] = none
newest (i ∷ is) = elim (newest is) [
  | none ↦ some i
  | some j ↦ if leb j.created_at i.created_at then some i else some j
]

unfoldable pub find_active_by_organization_and_email :
    Texts
    → (organization_id email : String) → List OrganizationInvitation
    → Option OrganizationInvitation
find_active_by_organization_and_email texts organization_id email rows = to_domain texts (
    newest (
      filter
        (λ i.
          (i.organization_id == organization_id)
          && (i.email == texts.trim (texts.to_lower_case email))
          && not (is_some i.accepted_at))
        rows))

unfoldable pub update :
    OrganizationInvitation → List OrganizationInvitation → List OrganizationInvitation
update invitation =
    update_where (λ r. r.id == invitation.id)
      (λ r. record r {
        accepted_at = invitation.accepted_at;
        expires_at = invitation.expires_at;
        token_hash = invitation.token_hash;
      })

abbrev pub is_membership : (user_id organization_id : String) → Member → Bool
is_membership user_id organization_id m =
    (m.user_id == user_id) && (m.organization_id == organization_id)

-- The insertion of a member, with a random id and the role that `role_id` names. `none` is an exception of
-- the database: there is no such role, or the unique constraint on user and organization is violated.
unfoldable pub create_member :
    Saves Member member_id
    → List MembershipRole
    → (now : ℕ) (id user_id organization_id role_id : String) → List Member
    → Option (List Member)
create_member saves roles now id user_id organization_id role_id rows =
    elim (find (λ (r : MembershipRole). r.id == role_id) roles) [
      | none ↦ none
      | some role ↦
          if any (is_membership user_id organization_id) rows
          then none
          else some (
              saves.save
                (record {
                  id = id;
                  user_id = user_id;
                  organization_id = organization_id;
                  role = role;
                  joined_at = now;
                })
                rows)
    ]

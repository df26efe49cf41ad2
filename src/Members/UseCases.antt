-- ===== src/Members/UseCases.antt =====
-- src/modules/iam/organizations/application/use-cases: change-member-role.use-case.ts and
-- remove-member.use-case.ts. The audit record is part of the result; `meanwhile` is what others write
-- after the members were read.
use hexagonal.Base.{
  String, Option, none, some, List, ◌==◌, not, find, Result, ok, err, if◌then◌else◌,
}
use hexagonal.Members.Repository.{
  MembershipRole, Member, MembershipException, member_by_id_not_found, role_not_found, find_by_id,
  find_by_organization, update, delete_row,
}
use hexagonal.Members.Policy.{assert_role_change_is_allowed, assert_member_removal_is_allowed}

pub record AuditRecord : Type 0 where
  pub action : String
  pub organization_id : String
  pub resource_id : String
  pub target_user_id : String
  pub role_code : String

-- The member with the id, who must be of the organization.
unfoldable pub member_of :
    (tenant : Option String) (member_id organization_id : String)
    → List Member
    → Result MembershipException Member
member_of tenant member_id organization_id rows = elim (find_by_id tenant member_id rows) [
  | err e ↦ err e
  | ok none ↦ err (member_by_id_not_found member_id)
  | ok (some member) ↦
      if not (member.organization_id == organization_id)
      then err (member_by_id_not_found member_id)
      else ok member
]

module _ (tenant : Option String) where
  -- The write of a change that is allowed.
  unfoldable pub change_allowed :
      (member_id organization_id : String)
      → Member
      → MembershipRole
      → (role_code : String) → List Member
      → Result MembershipException (Member × Option AuditRecord) × List Member
  change_allowed member_id organization_id member role role_code rows =
      if member.role.id == role.id
      then (ok (member, none), rows)
      else let (updated, after) = update tenant member_id role rows in
        elim updated [
          | err e ↦ (err e, after)
          | ok updated_member ↦ (
            ok (
              updated_member,
              some (record {
                action = "iam.member.role_changed";
                organization_id = organization_id;
                resource_id = updated_member.id;
                target_user_id = updated_member.user_id;
                role_code = role_code;
              }),
            ),
            after,
          )
        ]

  -- `roles` are the rows of the roles, which are found by their code.
  unfoldable pub change_member_role :
      (roles : List MembershipRole)
      → (meanwhile : List Member → List Member) → (member_id organization_id role_code : String)
      → List Member
      → Result MembershipException (Member × Option AuditRecord) × List Member
  change_member_role roles meanwhile member_id organization_id role_code rows =
      elim (member_of tenant member_id organization_id rows) [
        | err e ↦ (err e, rows)
        | ok member ↦ elim (find (λ r. r.name == role_code) roles) [
          | none ↦ (err (role_not_found role_code), rows)
          | some role ↦
              elim (assert_role_change_is_allowed member role_code
                (find_by_organization tenant organization_id rows)) [
                  | err e ↦ (err e, rows)
                  | ok _ ↦
                      change_allowed member_id organization_id member role role_code
                        (meanwhile rows)
                ]
        ]
      ]

  unfoldable pub remove_member :
      (meanwhile : List Member → List Member)
      → (member_id organization_id : String) → List Member
      → Result MembershipException AuditRecord × List Member
  remove_member meanwhile member_id organization_id rows =
      elim (member_of tenant member_id organization_id rows) [
        | err e ↦ (err e, rows)
        | ok member ↦
            elim (assert_member_removal_is_allowed member
              (find_by_organization tenant organization_id rows)) [
                | err e ↦ (err e, rows)
                | ok _ ↦ (
                  ok (record {
                    action = "iam.member.removed";
                    organization_id = organization_id;
                    resource_id = member.id;
                    target_user_id = member.user_id;
                    role_code = member.role.name;
                  }),
                  delete_row member_id (meanwhile rows),
                )
              ]
      ]

-- ===== src/Members/Repository.antt =====
-- src/modules/iam/organizations: domain/entities/member.entity.ts, and the statements of
-- infrastructure/persistence/typeorm/repositories/member.typeorm-repository.ts that the changes of
-- members send. The tenant of the request, if there is one, is an argument. A row carries the role
-- that its `roleId` names.
use hexagonal.Base.{
  ℕ, String, Bool, ◌&&◌, ◌==◌, Option, none, some, List, find, filter, includes, Result, ok, err,
}
use hexagonal.Table.{update_where, delete_where}

pub record MembershipRole : Type 0 where
  pub id : String
  pub name : String
  pub permissions : List String

unfoldable pub has_permission : (permission_code : String) → MembershipRole → Bool
has_permission permission_code role = includes permission_code role.permissions

pub record Member : Type 0 where
  pub id : String
  pub user_id : String
  pub organization_id : String
  pub role : MembershipRole
  pub joined_at : ℕ

abbrev pub member_id : Member → String
member_id m = m.id

pub data MembershipException : Type 0 where
  tenant_context_required : MembershipException
  member_by_id_not_found : String → MembershipException
  role_not_found : String → MembershipException
  last_owner_role_change_not_allowed : String → MembershipException
  last_owner_removal_not_allowed : String → MembershipException

unfoldable pub find_by_id :
    (tenant : Option String) (id : String)
    → List Member
    → Result MembershipException (Option Member)
find_by_id none id rows = err tenant_context_required
find_by_id (some tenant) id rows =
    ok (find (λ m. (m.id == id) && (m.organization_id == tenant)) rows)

-- For this look-up the organization is given: the row-level security shows its rows only. A tenant
-- takes its place in the condition.
unfoldable pub find_by_user_and_organization :
    (tenant : Option String) (user_id organization_id : String) → List Member → Option Member
find_by_user_and_organization none user_id organization_id =
    find (λ m. (m.user_id == user_id) && (m.organization_id == organization_id))
find_by_user_and_organization (some tenant) user_id organization_id = find (λ m.
    (m.user_id == user_id)
    && (m.organization_id == tenant)
    && (m.organization_id == organization_id))

-- The tenant takes the place of the organization. The order of the rows is left open.
unfoldable pub find_by_organization :
    (tenant : Option String) (organization_id : String) → List Member → List Member
find_by_organization none organization_id = filter (λ m. m.organization_id == organization_id)
find_by_organization (some tenant) organization_id = filter (λ m. m.organization_id == tenant)

-- The update of the role, and the row that is read back.
unfoldable pub update :
    (tenant : Option String) (id : String) (role : MembershipRole)
    → List Member
    → Result MembershipException Member × List Member
unfolding find_by_id
update tenant id role rows =
    let after = update_where (λ m. m.id == id) (λ m. record m { role = role }) rows in
    elim (find_by_id tenant id after) [
      | err e ↦ (err e, rows)
      | ok none ↦ (err (member_by_id_not_found id), after)
      | ok (some member) ↦ (ok member, after)
    ]

-- `delete`, which needs a tenant.
unfoldable pub delete_row : (id : String) → List Member → List Member
delete_row id = delete_where (λ m. m.id == id)

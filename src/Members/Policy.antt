-- ===== src/Members/Policy.antt =====
-- src/modules/iam/organizations/application/policies/tenant-membership-management.policy.ts.
use hexagonal.Base.{
  String, Bool, not, ◌==◌, ◌||◌, leb, List, length, filter, Result, ok, throw_if, if◌then◌else◌,
}
use hexagonal.Members.Repository.{
  Member, MembershipException, last_owner_role_change_not_allowed, last_owner_removal_not_allowed,
}

-- `DEFAULT_ROLE_CODES[0]`
abbrev pub owner : String
owner = "owner"

abbrev pub is_owner : Member → Bool
is_owner m = m.role.name == owner

unfoldable pub assert_role_change_is_allowed :
    Member → (next_role_code : String) → List Member → Result MembershipException (Unit {0})
assert_role_change_is_allowed target next_role_code members =
    if not (is_owner target) || (next_role_code == owner)
    then ok tt
    else throw_if (leb (length (filter is_owner members)) 1)
        (last_owner_role_change_not_allowed target.organization_id)

unfoldable pub assert_member_removal_is_allowed :
    Member → List Member → Result MembershipException (Unit {0})
assert_member_removal_is_allowed target members =
    if not (is_owner target)
    then ok tt
    else throw_if (leb (length (filter is_owner members)) 1)
        (last_owner_removal_not_allowed target.organization_id)

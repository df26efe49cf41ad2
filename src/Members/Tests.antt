-- ===== src/Members/Tests.antt =====
-- The theorems on the members at a concrete organization.
use hexagonal.Base.{◌≡◌, ◌≤◌, refl, String, some, List, [], ◌∷◌, arith}
use hexagonal.Members.Repository.{
  MembershipRole, Member, find_by_id, find_by_organization, delete_row,
}
use hexagonal.Members.Policy.{assert_member_removal_is_allowed}
use hexagonal.Members.UseCases.{member_of, change_member_role, remove_member}
use hexagonal.Members.Counting.{owners}
use hexagonal.Members.Owners.{remove_member_keeps_owner, change_member_role_keeps_owner}

abbrev owner_role : MembershipRole
owner_role = record { id = "r1"; name = "owner"; permissions = [] }

abbrev guest_role : MembershipRole
guest_role = record { id = "r2"; name = "guest"; permissions = [] }

abbrev owner_of : String → Member
owner_of id = record {
  id = id;
  user_id = "u";
  organization_id = "o";
  role = owner_role;
  joined_at = 1;
}

abbrev rows : List Member
rows = owner_of "m1" ∷ owner_of "m2" ∷ []

remove_member_keeps_owner_example :
    1 ≤ owners "o" (remove_member (some "o") (λ r. r) "m1" "o" rows).1
remove_member_keeps_owner_example =
    remove_member_keeps_owner (some "o") "m1" "o" rows (refl, (refl, tt)) "o" (omega arith)

change_member_role_keeps_owner_example :
    1
    ≤ owners "o"
        (change_member_role
          (some "o")
          (owner_role ∷ guest_role ∷ [])
          (λ r. r)
          "m1"
          "o"
          "guest"
          rows).1
change_member_role_keeps_owner_example =
    change_member_role_keeps_owner (some "o") (owner_role ∷ guest_role ∷ []) "m1" "o" "guest" rows
      (refl, (refl, tt)) "o" (omega arith)

-- Two removals of which each has read the members before the other's write.
overlapping_removals :
    (remove_member
      (some "o")
      (λ r. (remove_member (some "o") (λ r. r) "m2" "o" r).1)
      "m1"
      "o"
      rows).1
    ≡ []
unfolding remove_member member_of find_by_id find_by_organization assert_member_removal_is_allowed
    delete_row
overlapping_removals = refl

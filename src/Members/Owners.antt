-- ===== src/Members/Owners.antt =====
-- An organization of src/modules/iam/organizations keeps an owner.
use hexagonal.Base.{
  ℕ, ◌+◌, ◌≤◌, ◌≡◌, ◌⊎◌, refl, sym, ap, ◌∙◌, inl, inr, String, true, false, ◌&&◌, ◌==◌, Option,
  none, some, List, length, filter, find, of_find, arith, eq_iff, ok, Bool-cases, Option-cases,
  Result-cases,
}
use hexagonal.Table.{find_by, HasUniqueKeys, update_where, delete_where, find_by_of_mem}
use hexagonal.Members.Repository.{
  MembershipRole, Member, member_id, find_by_id, find_by_organization, update, delete_row,
}
use hexagonal.Members.Policy.{
  owner, is_owner, assert_role_change_is_allowed, assert_member_removal_is_allowed,
}
use hexagonal.Members.UseCases.{member_of, change_allowed, change_member_role, remove_member}
use hexagonal.Members.Counting.{owning, owners, owners-filter, owners-update, owners-delete}

-- A member that is found is the row with the id, and is of the tenant and the organization.
member_of-row :
    (tenant : Option String) (id organization : String) (rows : List Member) (m : Member)
    → HasUniqueKeys member_id rows
    → member_of tenant id organization rows ≡ ok m
    → (find_by member_id id rows ≡ some m)
      × (m.organization_id ≡ organization)
      × (tenant ≡ some organization)
unfolding member_of find_by_id
member_of-row none id organization rows m u e = absurd (ground arith)
member_of-row (some t) id organization rows m u e =
    elim (Option-cases (find (λ m. (m.id == id) && (m.organization_id == t)) rows)) [
      | inl missing ↦ absurd (ground arith)
      | inr (found, there) ↦
          let (here, test) = of_find (λ m. (m.id == id) && (m.organization_id == t)) rows there in
          let row = find_by_of_mem member_id rows u here in
          elim (Bool-cases (found.organization_id == organization)) [
            | inr other ↦ absurd (ground arith)
            | inl his ↦
                let same : found ≡ m = ground arith in
                let named = (eq_iff found.id id).0 (ground arith) in
                let of_tenant = (eq_iff found.organization_id t).0 (ground arith) in
                let of_organization = (eq_iff found.organization_id organization).0 his in
                (
                  ap (λ k. find_by member_id k rows) (sym named) ∙ row ∙ ap some same,
                  ap (λ m. m.organization_id) (sym same) ∙ of_organization,
                  ap some (sym of_tenant ∙ of_organization),
                )
          ]
    ]

-- What the policy has counted.
removal-allowed :
    (m : Member) (members : List Member)
    → assert_member_removal_is_allowed m members ≡ ok tt
    → is_owner m ≡ true
    → 2 ≤ length (filter is_owner members)
unfolding assert_member_removal_is_allowed
removal-allowed m members allowed h = ground arith

role_change-allowed :
    (m : Member) (code : String) (members : List Member)
    → assert_role_change_is_allowed m code members ≡ ok tt
    → is_owner m ≡ true
    → (code == owner) ≡ false
    → 2 ≤ length (filter is_owner members)
unfolding assert_role_change_is_allowed
role_change-allowed m code members allowed h other = ground arith

owners_found :
    (tenant : Option String) (organization : String) (rows : List Member)
    → tenant ≡ some organization
    → length (filter is_owner (find_by_organization tenant organization rows))
      ≡ owners organization rows
unfolding find_by_organization
owners_found none organization rows e = absurd (cc)
owners_found (some t) organization rows e =
    let same : t ≡ organization = ground arith in rw same (owners-filter organization rows)

-- One owner less is still one, where there are two.
one_left :
    (kept : String) (m : Member) (rows : List Member) (after : ℕ)
    → (is_owner m ≡ true → 2 ≤ owners m.organization_id rows)
    → owners kept rows ≤ after + owning kept m
    → 1 ≤ owners kept rows
    → 1 ≤ after
one_left kept m rows after two counted some_owner = elim (Bool-cases (is_owner m)) [
  | inr other ↦ ground arith
  | inl owns ↦ elim (Bool-cases (m.organization_id == kept)) [
    | inr elsewhere ↦ ground arith
    | inl here ↦
        let same = (eq_iff m.organization_id kept).0 here in
        let left : 2 ≤ owners kept rows = rw (sym same) (two owns) in ground arith
  ]
]

module _ (tenant : Option String) (id organization : String) (rows : List Member) (m : Member)
    (u : HasUniqueKeys member_id rows) (found : member_of tenant id organization rows ≡ ok m)
    (kept : String) (some_owner : 1 ≤ owners kept rows) where
  counted :
      2 ≤ length (filter is_owner (find_by_organization tenant organization rows))
      → 2 ≤ owners m.organization_id rows
  counted two =
      let (row, his, of_tenant) = member_of-row tenant id organization rows m u found in
      let all = owners_found tenant organization rows of_tenant in
      let two_owners : 2 ≤ owners organization rows = omega (arith, all) in rw his two_owners

  removed_keeps_owner :
      assert_member_removal_is_allowed m (find_by_organization tenant organization rows) ≡ ok tt
      → 1 ≤ owners kept (delete_row id rows)
  unfolding delete_row
  removed_keeps_owner allowed =
      let (row, his, of_tenant) = member_of-row tenant id organization rows m u found in
      let count = owners-delete kept id rows m u row in
      one_left kept m rows (owners kept (delete_where (λ m. m.id == id) rows))
        (λ owns. counted (removal-allowed m _ allowed owns)) (omega (arith, count)) some_owner

  changed_keeps_owner :
      (role : MembershipRole)
      → assert_role_change_is_allowed m role.name (find_by_organization tenant organization rows)
        ≡ ok tt
      → 1 ≤ owners kept (update_where (λ m. m.id == id) (λ m. record m { role = role }) rows)
  changed_keeps_owner role allowed =
      let (row, his, of_tenant) = member_of-row tenant id organization rows m u found in
      let count = owners-update kept id (λ m. record m { role = role }) rows m u row in
      elim (Bool-cases (role.name == owner)) [
        | inl owning_role ↦ ground arith
        | inr other ↦
            one_left kept m rows
              (owners kept (update_where (λ m. m.id == id) (λ m. record m { role = role }) rows))
              (λ owns. counted (role_change-allowed m role.name _ allowed owns other))
              (ground arith) some_owner
      ]

-- In a table with unique ids a removal of a member, however it ends, leaves every organization that has an owner one, if no
-- other change comes between its read and its write.
pub remove_member_keeps_owner :
    (tenant : Option String) (id organization : String) (rows : List Member)
    → HasUniqueKeys member_id rows
    → (kept : String) → 1 ≤ owners kept rows
    → 1 ≤ owners kept (remove_member tenant (λ r. r) id organization rows).1
unfolding remove_member
remove_member_keeps_owner tenant id organization rows u kept some_owner =
    elim (Result-cases (member_of tenant id organization rows)) [
      | inr (e, refused) ↦ ground arith
      | inl (m, found) ↦
          let members = find_by_organization tenant organization rows in
          elim (Result-cases (assert_member_removal_is_allowed m members)) [
            | inr (e, refused) ↦ ground arith
            | inl (done, allowed) ↦ ground (
              arith,
              removed_keeps_owner tenant id organization rows m u found kept some_owner allowed,
            )
          ]
    ]

update-rows :
    (tenant : Option String) (id : String) (role : MembershipRole) (rows : List Member)
    → let after = (update tenant id role rows).1 in
      (after ≡ rows) ⊎ (after ≡ update_where (λ m. m.id == id) (λ m. record m { role = role }) rows)
unfolding update find_by_id
update-rows none id role rows = inl refl
update-rows (some t) id role rows =
    let after = update_where (λ m. m.id == id) (λ m. record m { role = role }) rows in
    elim (Option-cases (find (λ m. (m.id == id) && (m.organization_id == t)) after)) [
      | inl gone ↦ inr (ground arith)
      | inr (m, there) ↦ inr (ground arith)
    ]

change_allowed-rows :
    (tenant : Option String) (id organization : String) (m : Member) (role : MembershipRole)
    → (code : String) (rows : List Member)
    → let after = (change_allowed tenant id organization m role code rows).1 in
      (after ≡ rows) ⊎ (after ≡ update_where (λ m. m.id == id) (λ m. record m { role = role }) rows)
unfolding change_allowed
change_allowed-rows tenant id organization m role code rows =
    elim (Bool-cases (m.role.id == role.id)) [
      | inl same ↦ inl (ground arith)
      | inr other ↦
          let rest : (change_allowed tenant id organization m role code rows).1
              ≡ (update tenant id role rows).1 =
            elim (Result-cases (update tenant id role rows).0) [
              | inl (updated, done) ↦ ground arith
              | inr (e, failed) ↦ ground arith
            ] in
          rw rest (update-rows tenant id role rows)
    ]

-- In a table with unique ids a change of a role, however it ends, leaves every organization that has an owner one, if no other
-- change comes between its read and its write.
pub change_member_role_keeps_owner :
    (tenant : Option String) (roles : List MembershipRole)
    → (id organization role_code : String) (rows : List Member) → HasUniqueKeys member_id rows
    → (kept : String) → 1 ≤ owners kept rows
    → 1 ≤ owners kept (change_member_role tenant roles (λ r. r) id organization role_code rows).1
unfolding change_member_role
change_member_role_keeps_owner tenant roles id organization role_code rows u kept some_owner =
    elim (Result-cases (member_of tenant id organization rows)) [
      | inr (e, refused) ↦ ground arith
      | inl (m, found) ↦ elim (Option-cases (find (λ r. r.name == role_code) roles)) [
        | inl unknown ↦ ground arith
        | inr (role, known) ↦
            let members = find_by_organization tenant organization rows in
            let (listed, coded) = of_find (λ r. r.name == role_code) roles known in
            let named : role_code ≡ role.name = sym ((eq_iff role.name role_code).0 coded) in
            elim (Result-cases (assert_role_change_is_allowed m role_code members)) [
              | inr (e, refused) ↦ ground arith
              | inl (done, allowed) ↦
                  let left =
                    changed_keeps_owner tenant id organization rows m u found kept some_owner role (
                      ap (λ code. assert_role_change_is_allowed m code members) (sym named)
                      ∙ allowed) in
                  elim (change_allowed-rows tenant id organization m role role_code rows) [
                    | inl same ↦ ground arith
                    | inr written ↦ ground arith
                  ]
            ]
      ]
    ]

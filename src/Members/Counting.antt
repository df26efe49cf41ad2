-- ===== src/Members/Counting.antt =====
-- How the statements of src/modules/iam/organizations change the number of owners.
use hexagonal.Base.{
  ℕ, ◌+◌, ◌≡◌, refl, sym, ap, inl, inr, String, ◌&&◌, ◌==◌, none, some, List, [], ◌∷◌, length,
  filter, arith, eq_iff, Bool-cases, if◌then◌else◌,
}
use hexagonal.Table.{find_by, HasUniqueKeys, update_where, delete_where}
use hexagonal.Members.Repository.{Member, member_id}
use hexagonal.Members.Policy.{is_owner}

-- One if the member is an owner of the organization.
abbrev pub owning : String → Member → ℕ
owning organization m = if (m.organization_id == organization) && is_owner m then 1 else 0

abbrev pub owners : String → List Member → ℕ
owners organization =
    λ rows. length (filter (λ m. (m.organization_id == organization) && is_owner m) rows)

pub owners-filter :
    (organization : String) (rows : List Member)
    → length (filter is_owner (filter (λ m. m.organization_id == organization) rows))
      ≡ owners organization rows
owners-filter organization [] = refl
owners-filter organization (m ∷ rows) = ground (arith, owners-filter organization rows)

-- Statements on an id that no row has.
update_where-none :
    (id : String) (f : Member → Member) (rows : List Member)
    → find_by member_id id rows ≡ none
    → update_where (λ m. m.id == id) f rows ≡ rows
update_where-none id f [] e = refl
update_where-none id f (m ∷ rows) e = ground (arith, update_where-none id f rows)

delete_where-none :
    (id : String) (rows : List Member)
    → find_by member_id id rows ≡ none
    → delete_where (λ m. m.id == id) rows ≡ rows
delete_where-none id [] e = refl
delete_where-none id (m ∷ rows) e = ground (arith, delete_where-none id rows)

pub owners-update :
    (organization id : String) (f : Member → Member) (rows : List Member) (m : Member)
    → HasUniqueKeys member_id rows
    → find_by member_id id rows ≡ some m
    → owners organization (update_where (λ m. m.id == id) f rows) + owning organization m
      ≡ owners organization rows + owning organization (f m)
owners-update organization id f [] m u e = absurd (cc)
owners-update organization id f (x ∷ rows) m (fresh, u) e = elim (Bool-cases (x.id == id)) [
  | inl here ↦
      let same : x ≡ m = ground arith in
      let rest = update_where-none id f rows (rw (sym ((eq_iff x.id id).0 here)) fresh) in
      ground (arith, ap (owning organization) same)
  | inr later ↦ ground (arith, owners-update organization id f rows m u)
]

pub owners-delete :
    (organization id : String) (rows : List Member) (m : Member)
    → HasUniqueKeys member_id rows
    → find_by member_id id rows ≡ some m
    → owners organization (delete_where (λ m. m.id == id) rows) + owning organization m
      ≡ owners organization rows
owners-delete organization id [] m u e = absurd (cc)
owners-delete organization id (x ∷ rows) m (fresh, u) e = elim (Bool-cases (x.id == id)) [
  | inl here ↦
      let same : x ≡ m = ground arith in
      let rest = delete_where-none id rows (rw (sym ((eq_iff x.id id).0 here)) fresh) in
      ground (arith, ap (owning organization) same)
  | inr later ↦ ground (arith, owners-delete organization id rows m u)
]

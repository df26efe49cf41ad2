-- ===== src/Invitations/Tests.antt =====
-- The invitations at concrete tables.
use mathlib.Core.Option
use hexagonal.Base.{◌≡◌, refl, true, ◌==◌, none, some, List, [], ◌∷◌, err, if◌then◌else◌}
use hexagonal.Table.Upsert.{upserting}
use hexagonal.Sessions.Token.{parse_opaque_token}
use hexagonal.Users.Entity.{User}
use hexagonal.Users.Entity
use hexagonal.Users.Repository
use hexagonal.Members.Repository.{MembershipRole, member_id, find_by_user_and_organization}
use hexagonal.Invitations.Entity.{OrganizationInvitation, is_active, rehydrate}
use hexagonal.Invitations.Repository.{invitation_id, find_by_id, create_member}
use hexagonal.Invitations.UseCases.{
  Store, Ports, invitation_not_found, invitation_of_token, join, accept_invitation,
}
use hexagonal.Invitations.Steps.{take, steps}
use hexagonal.Invitations.Accepted.{accepted_once}

abbrev ports : Ports
ports = record {
  texts = record { trim = λ s. s; to_lower_case = λ s. s };
  split = λ token. if token == "i.a" then "i" ∷ "a" ∷ [] else [];
  compare = λ secret hash. secret == hash;
  hash = λ salt secret. secret;
  member_saves = upserting member_id;
  invitation_saves = upserting invitation_id;
  organization_name = λ id. some "Org";
}

abbrev roles : List MembershipRole
roles = record { id = "r"; name = "member"; permissions = [] } ∷ []

abbrev ann : User
ann = record {
  id = "u";
  email = "a@b.c";
  password_hash = "h";
  first_name = "Ann";
  last_name = "Lee";
  email_verified_at = none;
  deleted_at = none;
  created_at = 1;
  updated_at = 1;
}

abbrev invitation : OrganizationInvitation
invitation = record {
  id = "i";
  organization_id = "o";
  email = "a@b.c";
  role_id = "r";
  token_hash = "a";
  expires_at = 900;
  accepted_at = none;
  created_at = 5;
}

abbrev store : Store
store = record { members = []; invitations = invitation ∷ [] }

accepted_once_example :
    (accept_invitation ports roles (ann ∷ []) none true 30 "m3" "i.a" "u" (
      steps ports roles
        (take (ann ∷ []) none true 20 "m2" "i.a" "u" ∷ [])
        (accept_invitation ports roles (ann ∷ []) none true 10 "m" "i.a" "u" store).1)).0
    ≡ err invitation_not_found
unfolding parse_opaque_token accept_invitation invitation_of_token find_by_id rehydrate is_active
    Repository.find_by_id Entity.rehydrate find_by_user_and_organization join create_member
accepted_once_example =
    accepted_once ports roles (ann ∷ []) none true 10 "m" "i.a" "u" store
      (record { id = "i"; secret = "a" }) refl refl
      (take (ann ∷ []) none true 20 "m2" "i.a" "u" ∷ []) tt (ann ∷ []) none true 30 "m3" "u"

-- The member has the organization and the role of the invitation.
joined :
    Option.map
      (λ m. m.role.name)
      (find_by_user_and_organization none "u" "o"
        (accept_invitation ports roles (ann ∷ []) none true 10 "m" "i.a" "u" store).1.members)
    ≡ some "member"
unfolding parse_opaque_token accept_invitation invitation_of_token find_by_id rehydrate is_active
    Repository.find_by_id Entity.rehydrate find_by_user_and_organization join create_member
joined = refl

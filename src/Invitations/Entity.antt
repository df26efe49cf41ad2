-- ===== src/Invitations/Entity.antt =====
-- src/modules/iam/organizations/domain/entities/organization-invitation.entity.ts.
use hexagonal.Base.{ℕ, String, Bool, not, ◌&&◌, ltb, Option, none, some, is_some}
use hexagonal.Users.Entity.{Texts}

pub record OrganizationInvitation : Type 0 where
  pub id : String
  pub organization_id : String
  pub email : String
  pub role_id : String
  pub token_hash : String
  pub expires_at : ℕ
  pub accepted_at : Option ℕ
  pub created_at : ℕ

unfoldable pub create :
    Texts
    → (now : ℕ) (id organization_id email role_id token_hash : String) (expires_at : ℕ)
    → OrganizationInvitation
create texts now id organization_id email role_id token_hash expires_at = record {
  id = id;
  organization_id = organization_id;
  email = texts.trim (texts.to_lower_case email);
  role_id = role_id;
  token_hash = token_hash;
  expires_at = expires_at;
  accepted_at = none;
  created_at = now;
}

unfoldable pub rehydrate : Texts → OrganizationInvitation → OrganizationInvitation
rehydrate texts invitation = record invitation {
  email = texts.trim (texts.to_lower_case invitation.email);
}

unfoldable pub is_active : (now : ℕ) → OrganizationInvitation → Bool
is_active now invitation = not (is_some invitation.accepted_at) && ltb now invitation.expires_at

unfoldable pub accept : (now : ℕ) → OrganizationInvitation → OrganizationInvitation
accept now invitation = record invitation { accepted_at = some now }

unfoldable pub expire : (now : ℕ) → OrganizationInvitation → OrganizationInvitation
expire now invitation = record invitation { expires_at = now }

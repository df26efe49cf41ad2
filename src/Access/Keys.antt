-- ===== src/Access/Keys.antt =====
-- The tenant of a request of src/common/http, whose keys are taken by
-- src/modules/iam/api-keys/application/use-cases/authenticate-api-key.use-case.ts.
use hexagonal.Base.{
  ℕ, ◌≡◌, inl, inr, String, Bool, Option, none, some, List, ok, arith, Result-cases,
}
use hexagonal.Users.Entity.{User}
use hexagonal.Members.Repository.{Member}
use hexagonal.ApiKeys.Entity.{ApiKey}
use hexagonal.ApiKeys.UseCases.{Ports, ApiKeyAuthenticationResult, authenticate}
use hexagonal.ApiKeys.Accepted.{authenticate-members}
use hexagonal.Access.Request.{AuthenticatedHttpRequest, Texts}
use hexagonal.Access.Authentication.{JwtPayload, access_auth_guard}
use hexagonal.Access.Permissions.{permission_guard}
use hexagonal.Access.Tenant.{TenantInfo}
use hexagonal.Access.Chain.{admit, IsMember, AreMembers}
use hexagonal.Access.Joined.{
  access_auth_guard-IsJoined, permission_guard-IsJoined, tenant_interceptor-IsMember,
}

module _ (texts : Texts) (members : List Member) (verify_token : String → Option JwtPayload)
    (authenticate : (token : String) (remote_ip : Option String)
      → Option ApiKeyAuthenticationResult)
    (required : List String) (tenant_scoped : Bool) where
  admit-IsMember :
      AreMembers members authenticate
      → (request : AuthenticatedHttpRequest) → request.effective_organization_id ≡ none
      → (info : TenantInfo) (o : String)
      → admit texts members verify_token authenticate required tenant_scoped request
        ≡ ok (some info)
      → info.organization_id ≡ some o
      → IsMember members info.user_id o
  unfolding admit
  admit-IsMember sound request unset info o h e =
      elim (Result-cases (access_auth_guard texts verify_token authenticate request)) [
        | inr (thrown, failed) ↦ absurd (ground arith)
        | inl (authenticated, entered) ↦
            elim (Result-cases (permission_guard texts members required authenticated)) [
              | inr (thrown, failed) ↦ absurd (ground arith)
              | inl (permitted, passed) ↦
                  tenant_interceptor-IsMember texts members tenant_scoped permitted
                    (permission_guard-IsJoined texts members required authenticated
                      (access_auth_guard-IsJoined texts members verify_token authenticate sound
                        request unset authenticated entered)
                      permitted passed)
                    info o (ground arith) e
            ]
      ]

-- A request whose organization no guard has set before, that is admitted with an organization as its
-- tenant, is one of a member of that organization, for every route.
pub tenant_of_member :
    (ports : Ports) (texts : Texts) (users : List User) (members : List Member) (keys : List ApiKey)
    (now : ℕ)
    → (verify_token : String → Option JwtPayload) → (required : List String) (tenant_scoped : Bool)
    → (request : AuthenticatedHttpRequest) → request.effective_organization_id ≡ none
    → (info : TenantInfo) (organization_id : String)
    → admit texts members verify_token
        (λ token remote_ip. (authenticate ports users members now token remote_ip keys).0)
        required
        tenant_scoped
        request
      ≡ ok (some info)
    → info.organization_id ≡ some organization_id
    → IsMember members info.user_id organization_id
tenant_of_member ports texts users members keys now verify_token required tenant_scoped request
      unset info organization_id admitted tenant =
    admit-IsMember texts members verify_token
      (λ token remote_ip. (authenticate ports users members now token remote_ip keys).0) required
      tenant_scoped
      (λ token remote_ip. authenticate-members ports users members now token remote_ip keys) request
      unset info organization_id admitted tenant

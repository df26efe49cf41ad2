-- ===== src/Access/Chain.antt =====
-- The guards of src/common/http/guards and src/modules/iam/auth/presentation/guards, and
-- src/common/tenant/tenant.interceptor.ts, in the order in which a request passes them. An empty
-- list of permissions is a route without the guard's decorator.
use hexagonal.Base.{◌≡◌, String, Bool, true, Option, none, some, is_some, List, Result, ◌>>=◌}
use hexagonal.Members.Repository.{Member, find_by_user_and_organization}
use hexagonal.ApiKeys.UseCases.{ApiKeyAuthenticationResult}
use hexagonal.Access.Request.{
  AuthenticatedUserPayload, AuthenticatedHttpRequest, HttpException, Texts,
}
use hexagonal.Access.Authentication.{JwtPayload, access_auth_guard}
use hexagonal.Access.Permissions.{permission_guard}
use hexagonal.Access.Tenant.{TenantInfo, tenant_interceptor}

unfoldable pub admit :
    Texts
    → List Member
    → (verify_token : String → Option JwtPayload)
    → (authenticate : (token : String) (remote_ip : Option String)
        → Option ApiKeyAuthenticationResult)
    → (required : List String) (tenant_scoped : Bool) → AuthenticatedHttpRequest
    → Result HttpException (Option TenantInfo)
admit texts members verify_token authenticate required tenant_scoped request =
    access_auth_guard texts verify_token authenticate request >>= λ authenticated.
    permission_guard texts members required authenticated >>= λ permitted.
    tenant_interceptor texts members tenant_scoped permitted

-- The user of the organization is a member of it.
abbrev pub IsMember : List Member → (user_id organization_id : String) → Type 0
IsMember members user_id organization_id =
    is_some (find_by_user_and_organization none user_id organization_id members) ≡ true

-- An organization that the request carries is one of its user.
abbrev pub IsJoined : List Member → AuthenticatedHttpRequest → Type 0
IsJoined members request =
    (user : AuthenticatedUserPayload) (organization_id : String)
    → request.user ≡ some user
    → request.effective_organization_id ≡ some organization_id
    → IsMember members user.user_id organization_id

-- A key is taken for a member of its organization only.
abbrev pub AreMembers :
    List Member
    → (authenticate : (token : String) (remote_ip : Option String)
        → Option ApiKeyAuthenticationResult)
    → Type 0
AreMembers members authenticate =
    (token : String) (remote_ip : Option String) (found : ApiKeyAuthenticationResult)
    → authenticate token remote_ip ≡ some found
    → IsMember members found.user_id found.organization_id

-- ===== src/Access/Tenant.antt =====
-- src/common/tenant/tenant.interceptor.ts: the tenant context in which the handler runs.
use hexagonal.Base.{
  String, Bool, false, not, ◌==◌, Option, none, some, List, Result, ok, err, ◌>>=◌, if◌then◌else◌,
}
use hexagonal.Members.Repository.{Member}
use hexagonal.Access.Request.{
  AuthenticatedUserPayload, AuthenticatedHttpRequest, HttpException, forbidden, Texts, truthy,
  trimmed,
}
use hexagonal.Access.Permissions.{has_tenant_access}

pub record TenantInfo : Type 0 where
  pub user_id : String
  pub organization_id : Option String

abbrev pub is_text : Option String → String → Bool
is_text none s = false
is_text (some t) s = t == s

module _ (texts : Texts) (members : List Member) where
  -- The organization of the request after the check of the header.
  unfoldable pub checked_organization :
      AuthenticatedUserPayload → AuthenticatedHttpRequest → Result HttpException (Option String)
  checked_organization user request = elim (trimmed texts request.x_organization_id) [
    | none ↦ ok request.effective_organization_id
    | some normalized ↦
        if is_text request.effective_organization_id normalized
        then ok request.effective_organization_id
        else if not (has_tenant_access none user.user_id normalized members)
        then err (forbidden "Invalid tenant context for authenticated user")
        else ok (some normalized)
  ]

  -- A tenant-scoped route needs an organization.
  unfoldable pub scoped_organization :
      (tenant_scoped : Bool)
      → AuthenticatedHttpRequest
      → Option String
      → Result HttpException (Option String)
  scoped_organization tenant_scoped request effective = elim (truthy effective) [
    | some organization ↦ ok effective
    | none ↦
        if tenant_scoped
        then elim (trimmed texts request.x_organization_id) [
          | none ↦ err (forbidden "x-organization-id header is required for tenant-scoped routes")
          | some normalized ↦ ok (some normalized)
        ]
        else ok effective
  ]

  -- `none` is `undefined`: there is no user.
  unfoldable pub tenant_interceptor :
      (tenant_scoped : Bool) → AuthenticatedHttpRequest → Result HttpException (Option TenantInfo)
  tenant_interceptor tenant_scoped request = elim request.user [
    | none ↦
        if tenant_scoped
        then err (forbidden "Authenticated user context is required for tenant-scoped routes")
        else ok none
    | some user ↦ checked_organization user request >>= λ checked.
        scoped_organization tenant_scoped request checked >>= λ effective.
        ok (some (record { user_id = user.user_id; organization_id = truthy effective }))
  ]

-- ===== src/Access/Permissions.antt =====
-- src/common/http/guards/permission.guard.ts, with the authorization port of
-- src/modules/iam/organizations/infrastructure/adapters/tenant-membership-access.adapter.ts.
use Prim.Native.String
use hexagonal.Base.{
  String, Bool, true, false, not, ◌&&◌, ◌==◌, Option, none, some, is_some, List, [], ◌∷◌, includes,
  Result, ok, err, ◌>>=◌, if◌then◌else◌,
}
use hexagonal.Members.Repository.{Member, has_permission, find_by_user_and_organization}
use hexagonal.Access.Request.{
  AuthMethod, jwt, api_key, AuthenticatedUserPayload, AuthenticatedHttpRequest, HttpException,
  forbidden, Texts, truthy, trimmed,
}

-- `tenant` is the organization of the tenant context, which is not set yet in a guard.
unfoldable pub has_tenant_access :
    (tenant : Option String) (user_id organization_id : String) → List Member → Bool
has_tenant_access tenant user_id organization_id members =
    is_some (find_by_user_and_organization tenant user_id organization_id members)

unfoldable pub user_has_permission :
    (tenant : Option String) (user_id organization_id permission_code : String) → List Member → Bool
user_has_permission tenant user_id organization_id permission_code members =
    elim (find_by_user_and_organization tenant user_id organization_id members) [
      | none ↦ false
      | some member ↦ has_permission permission_code member.role
    ]

abbrev pub is_api_key : AuthMethod → Bool
is_api_key api_key = true
is_api_key jwt = false

-- `apiKeyScopes && !apiKeyScopes.includes(permissionCode)`
abbrev pub lacks_scope : Option (List String) → (permission_code : String) → Bool
lacks_scope none permission_code = false
lacks_scope (some scopes) permission_code = not (includes permission_code scopes)

module _ (texts : Texts) (members : List Member) where
  -- The loop over the required permissions.
  unfoldable pub check_permissions :
      AuthenticatedUserPayload
      → (organization_id : String) → List String
      → Result HttpException (Unit {0})
  check_permissions user organization_id [] = ok tt
  check_permissions user organization_id (permission_code ∷ rest) =
      let later = check_permissions user organization_id rest in
      if not (user_has_permission none user.user_id organization_id permission_code members)
      then err (forbidden (String.◌++◌ "Missing required permission: " permission_code))
      else if is_api_key user.auth_method && lacks_scope user.api_key_scopes permission_code
      then err (forbidden (String.◌++◌ "Missing required permission: " permission_code))
      else later

  -- Whether the organization of the header is another one than that of the key.
  abbrev pub is_outside : Option String → AuthenticatedUserPayload → Bool
  is_outside none user = false
  is_outside (some requested) user = elim (truthy user.organization_id) [
    | none ↦ false
    | some bound ↦ is_api_key user.auth_method && not (requested == bound)
  ]

  -- `organizationIdFromHeader || request.effectiveOrganizationId`
  abbrev pub chosen_organization : Option String → AuthenticatedHttpRequest → Option String
  chosen_organization (some requested) request = some requested
  chosen_organization none request = truthy request.effective_organization_id

  abbrev pub permission_guard_for :
      AuthenticatedUserPayload
      → List String
      → AuthenticatedHttpRequest
      → Result HttpException AuthenticatedHttpRequest
  permission_guard_for user required request =
      let requested = trimmed texts request.x_organization_id in
      if is_outside requested user
      then err (forbidden "API key cannot be used outside its bound organization")
      else elim (chosen_organization requested request) [
        | none ↦ err (forbidden "x-organization-id header is required for permission checks")
        | some organization_id ↦ check_permissions user organization_id required >>= λ _.
            ok (record request { effective_organization_id = some organization_id })
      ]

  unfoldable pub permission_guard :
      (required : List String)
      → AuthenticatedHttpRequest
      → Result HttpException AuthenticatedHttpRequest
  permission_guard [] request = ok request
  permission_guard (p ∷ ps) request = elim request.user [
    | none ↦ err (forbidden "Authenticated user context is required")
    | some user ↦ permission_guard_for user (p ∷ ps) request
  ]

-- ===== src/Access/Tests.antt =====
-- The theorems on the guards at a concrete request.
use hexagonal.Base.{◌≡◌, refl, true, none, some, is_some, [], ◌∷◌, Memᴰ}
use hexagonal.Members.Repository.{find_by_user_and_organization, has_permission}
use hexagonal.Users.Entity.{rehydrate}
use hexagonal.Users.Repository
use hexagonal.ApiKeys.Token.{parse_api_key_token}
use hexagonal.ApiKeys.Entity.{is_active}
use hexagonal.ApiKeys.Entity
use hexagonal.ApiKeys.UseCases.{find_by_id, authenticate}
use hexagonal.ApiKeys.Sample.{ports, ann, membership, key}
use hexagonal.Access.Request.{AuthenticatedHttpRequest, Texts}
use hexagonal.Access.Authentication.{extract_bearer_token, extract_api_key, access_auth_guard}
use hexagonal.Access.Permissions.{user_has_permission, check_permissions, permission_guard}
use hexagonal.Access.Tenant.{
  TenantInfo, checked_organization, scoped_organization, tenant_interceptor,
}
use hexagonal.Access.Chain.{admit}
use hexagonal.Access.Granted.{IsGranted, admit-IsGranted}
use hexagonal.Access.Keys.{tenant_of_member}

abbrev texts : Texts
texts = record { trim = λ s. s; split = λ separator text. [] }

abbrev request : AuthenticatedHttpRequest
request = record {
  authorization = none;
  x_api_key = some "hex_test_k.s";
  x_organization_id = some "o";
  x_forwarded_for = none;
  ip = some "::1";
  user = none;
  effective_organization_id = none;
}

abbrev info : TenantInfo
info = record { user_id = "u"; organization_id = some "o" }

tenant_of_member_example :
    is_some (find_by_user_and_organization none "u" "o" (membership ∷ [])) ≡ true
unfolding admit access_auth_guard extract_bearer_token extract_api_key authenticate find_by_id
    parse_api_key_token Entity.rehydrate is_active Repository.find_by_id rehydrate permission_guard
    check_permissions user_has_permission has_permission tenant_interceptor checked_organization
    scoped_organization find_by_user_and_organization
tenant_of_member_example =
    tenant_of_member ports texts (ann ∷ []) (membership ∷ []) (key ∷ []) 30 (λ token. none)
      ("read" ∷ []) true request refl info "o" refl refl

admit-IsGranted_example :
    IsGranted texts
      (membership ∷ [])
      (λ token. none)
      (λ token remote_ip.
        (authenticate ports (ann ∷ []) (membership ∷ []) 30 token remote_ip (key ∷ [])).0)
      request
      info
      "read"
unfolding admit access_auth_guard extract_bearer_token extract_api_key authenticate find_by_id
    parse_api_key_token Entity.rehydrate is_active Repository.find_by_id rehydrate permission_guard
    check_permissions has_permission tenant_interceptor checked_organization scoped_organization
    find_by_user_and_organization user_has_permission
admit-IsGranted_example =
    admit-IsGranted texts (membership ∷ []) (λ token. none)
      (λ token remote_ip.
        (authenticate ports (ann ∷ []) (membership ∷ []) 30 token remote_ip (key ∷ [])).0)
      ("read" ∷ []) true request info refl "read" (Memᴰ.head refl)

-- ===== src/Access/Joined.antt =====
-- A request of src/common/http and src/common/tenant acts in an organization of its user.
use hexagonal.Base.{
  ◌≡◌, ap, ◌∙◌, inl, inr, String, Bool, true, Option, none, some, List, [], ◌∷◌, ok, arith, eq_iff,
  Bool-cases, Option-cases, Result-cases,
}
use hexagonal.Members.Repository.{Member, find_by_user_and_organization}
use hexagonal.ApiKeys.UseCases.{ApiKeyAuthenticationResult}
use hexagonal.Access.Request.{
  jwt, AuthenticatedUserPayload, AuthenticatedHttpRequest, Texts, truthy, trimmed,
}
use hexagonal.Access.Authentication.{
  JwtPayload, extract_bearer_token, extract_api_key, extract_remote_ip, with_key, access_auth_guard,
}
use hexagonal.Access.Permissions.{
  has_tenant_access, user_has_permission, is_outside, chosen_organization, check_permissions,
  permission_guard_for, permission_guard,
}
use hexagonal.Access.Tenant.{
  TenantInfo, is_text, checked_organization, scoped_organization, tenant_interceptor,
}
use hexagonal.Access.Chain.{IsMember, IsJoined, AreMembers}

pub is_text-some : (t : Option String) (s : String) → is_text t s ≡ true → t ≡ some s
is_text-some none s h = absurd (cc)
is_text-some (some t) s h = ap some ((eq_iff t s).0 h)

module _ (texts : Texts) (members : List Member) where
  user_has_permission-IsMember :
      (user_id organization_id permission_code : String)
      → user_has_permission none user_id organization_id permission_code members ≡ true
      → IsMember members user_id organization_id
  unfolding user_has_permission
  user_has_permission-IsMember user_id organization_id permission_code h =
      elim (Option-cases (find_by_user_and_organization none user_id organization_id members)) [
        | inl gone ↦ absurd (ground arith)
        | inr (member, found) ↦ ground arith
      ]

  check_permissions-IsMember :
      (user : AuthenticatedUserPayload) (organization_id p : String) (ps : List String)
      → check_permissions texts members user organization_id (p ∷ ps) ≡ ok tt
      → IsMember members user.user_id organization_id
  unfolding check_permissions
  check_permissions-IsMember user organization_id p ps h =
      elim (Bool-cases (user_has_permission none user.user_id organization_id p members)) [
        | inl held ↦ user_has_permission-IsMember user.user_id organization_id p held
        | inr missing ↦ absurd (ground arith)
      ]

  with_key-IsJoined :
      (found : ApiKeyAuthenticationResult) (request : AuthenticatedHttpRequest)
      → IsMember members found.user_id found.organization_id
      → IsJoined members (with_key texts found request)
  with_key-IsJoined found request member user o u e =
      let same_user : found.user_id ≡ user.user_id = ground arith in
      let same_organization : found.organization_id ≡ o = ground arith in
      rw (← same_user, ← same_organization) member

  bearer-IsJoined :
      (payload : AuthenticatedUserPayload) (request : AuthenticatedHttpRequest)
      → request.effective_organization_id ≡ none
      → IsJoined members (record request { user = some payload })
  bearer-IsJoined payload request unset user o u e = absurd (ground arith)

  transport-IsJoined :
      (request passed : AuthenticatedHttpRequest)
      → request ≡ passed
      → IsJoined members request
      → IsJoined members passed
  transport-IsJoined request passed same joined user o u e =
      joined user o (ap (λ r. r.user) same ∙ u) (ap (λ r. r.effective_organization_id) same ∙ e)

  abbrev pub bearer_user : JwtPayload → AuthenticatedUserPayload
  bearer_user payload = record {
    user_id = payload.user_id;
    email = payload.email;
    auth_method = jwt;
    organization_id = none;
    api_key_id = none;
    api_key_name = none;
    api_key_scopes = none;
  }

  pub access_auth_guard-IsJoined :
      (verify_token : String → Option JwtPayload)
      → (authenticate : (token : String) (remote_ip : Option String)
          → Option ApiKeyAuthenticationResult)
      → AreMembers members authenticate
      → (request : AuthenticatedHttpRequest) → request.effective_organization_id ≡ none
      → (passed : AuthenticatedHttpRequest)
      → access_auth_guard texts verify_token authenticate request ≡ ok passed
      → IsJoined members passed
  unfolding access_auth_guard
  access_auth_guard-IsJoined verify_token authenticate sound request unset passed h =
      elim (Option-cases (extract_bearer_token texts request)) [
        | inr (bearer_token, bearer) ↦ elim (Option-cases (verify_token bearer_token)) [
          | inl bad ↦ absurd (ground arith)
          | inr (payload, good) ↦
              transport-IsJoined (record request { user = some (bearer_user payload) }) passed
                (ground arith) (bearer-IsJoined (bearer_user payload) request unset)
        ]
        | inl no_bearer ↦ elim (Option-cases (extract_api_key texts request)) [
          | inl no_key ↦ absurd (ground arith)
          | inr (key, given) ↦
              elim (Option-cases (authenticate key (extract_remote_ip texts request))) [
                | inl bad ↦ absurd (ground arith)
                | inr (found, good) ↦
                    transport-IsJoined (with_key texts found request) passed
                      (elim (Option-cases (trimmed texts request.x_organization_id)) [
                        | inl absent ↦ ground arith
                        | inr (requested, header) ↦ ground arith
                      ])
                      (with_key-IsJoined found request
                        (sound key (extract_remote_ip texts request) found good))
              ]
        ]
      ]

  chosen-IsJoined :
      (user : AuthenticatedUserPayload) (request : AuthenticatedHttpRequest) (o : String)
      → request.user ≡ some user
      → IsMember members user.user_id o
      → IsJoined members (record request { effective_organization_id = some o })
  chosen-IsJoined user request o known member other o2 u e =
      let same_user : user.user_id ≡ other.user_id = ground arith in
      let same_organization : o ≡ o2 = ground arith in rw (← same_user, ← same_organization) member

  permission_guard_for-IsJoined :
      (user : AuthenticatedUserPayload) (p : String) (ps : List String)
      (request : AuthenticatedHttpRequest)
      → request.user ≡ some user
      → (passed : AuthenticatedHttpRequest)
      → permission_guard_for texts members user (p ∷ ps) request ≡ ok passed
      → IsJoined members passed
  permission_guard_for-IsJoined user p ps request known passed h =
      let requested = trimmed texts request.x_organization_id in
      elim (Bool-cases (is_outside texts members requested user)) [
        | inl outside ↦ absurd (ground arith)
        | inr inside ↦ elim (Option-cases (chosen_organization texts members requested request)) [
          | inl missing ↦ absurd (ground arith)
          | inr (o, chosen) ↦
              elim (Result-cases (check_permissions texts members user o (p ∷ ps))) [
                | inr (e, failed) ↦ absurd (ground arith)
                | inl (u, held) ↦
                    transport-IsJoined (record request { effective_organization_id = some o })
                      passed (ground arith)
                      (chosen-IsJoined user request o known
                        (check_permissions-IsMember user o p ps held))
              ]
        ]
      ]

  pub permission_guard-IsJoined :
      (required : List String) (request : AuthenticatedHttpRequest)
      → IsJoined members request
      → (passed : AuthenticatedHttpRequest)
      → permission_guard texts members required request ≡ ok passed
      → IsJoined members passed
  unfolding permission_guard
  permission_guard-IsJoined [] request joined passed h =
      transport-IsJoined request passed (ground arith) joined
  permission_guard-IsJoined (p ∷ ps) request joined passed h = elim (Option-cases request.user) [
    | inl nobody ↦ absurd (ground arith)
    | inr (user, known) ↦
        permission_guard_for-IsJoined user p ps request known passed (ground arith)
  ]

  has_tenant_access-IsMember :
      (user_id o : String)
      → has_tenant_access none user_id o members ≡ true
      → IsMember members user_id o
  unfolding has_tenant_access
  has_tenant_access-IsMember user_id o h = h

  abbrev IsOwn : AuthenticatedUserPayload → Option String → Type 0
  IsOwn user organization = (o : String) → organization ≡ some o → IsMember members user.user_id o

  checked_organization-IsOwn :
      (user : AuthenticatedUserPayload) (request : AuthenticatedHttpRequest)
      → IsOwn user request.effective_organization_id
      → (checked : Option String) → checked_organization texts members user request ≡ ok checked
      → IsOwn user checked
        × ((normalized : String)
            → trimmed texts request.x_organization_id ≡ some normalized
            → IsMember members user.user_id normalized)
  unfolding checked_organization
  checked_organization-IsOwn user request own checked h =
      elim (Option-cases (trimmed texts request.x_organization_id)) [
        | inl absent ↦ ((λ o e. own o (ground arith)), (λ n e. absurd (ground arith)))
        | inr (normalized, header) ↦
            elim (Bool-cases (is_text request.effective_organization_id normalized)) [
              | inl same ↦ (
                (λ o e. own o (ground arith)),
                (λ n e. own n (is_text-some request.effective_organization_id n (ground arith))),
              )
              | inr other ↦
                  elim (Bool-cases (has_tenant_access none user.user_id normalized members)) [
                    | inr denied ↦ absurd (ground arith)
                    | inl allowed ↦
                        let joined = has_tenant_access-IsMember user.user_id normalized allowed in
                        (
                          (λ o e. let same : normalized ≡ o = ground arith in rw (← same) joined),
                          (λ n e. let same : normalized ≡ n = ground arith in rw (← same) joined),
                        )
                  ]
            ]
      ]

  pub truthy-some : (t : Option String) (s : String) → truthy t ≡ some s → t ≡ some s
  truthy-some none s h = absurd (cc)
  truthy-some (some t) s h = ground (arith, eq_iff t "")

  scoped_organization-IsOwn :
      (user : AuthenticatedUserPayload) (tenant_scoped : Bool) (request : AuthenticatedHttpRequest)
      → (checked : Option String) → IsOwn user checked
      → ((normalized : String)
          → trimmed texts request.x_organization_id ≡ some normalized
          → IsMember members user.user_id normalized)
      → (effective : Option String)
      → scoped_organization texts members tenant_scoped request checked ≡ ok effective
      → IsOwn user effective
  unfolding scoped_organization
  scoped_organization-IsOwn user tenant_scoped request checked own header effective h o e =
      elim (Option-cases (truthy checked)) [
        | inr (organization, set) ↦ own o (ground arith)
        | inl empty ↦ elim (Bool-cases tenant_scoped) [
          | inr open_route ↦ own o (ground arith)
          | inl scoped ↦ elim (Option-cases (trimmed texts request.x_organization_id)) [
            | inl absent ↦ absurd (ground arith)
            | inr (normalized, given) ↦ header o (ground arith)
          ]
        ]
      ]

  pub tenant_interceptor-IsMember :
      (tenant_scoped : Bool) (request : AuthenticatedHttpRequest)
      → IsJoined members request
      → (info : TenantInfo) (o : String)
      → tenant_interceptor texts members tenant_scoped request ≡ ok (some info)
      → info.organization_id ≡ some o
      → IsMember members info.user_id o
  unfolding tenant_interceptor
  tenant_interceptor-IsMember tenant_scoped request joined info o h e =
      elim (Option-cases request.user) [
        | inl nobody ↦ absurd (ground arith)
        | inr (user, known) ↦
            elim (Result-cases (checked_organization texts members user request)) [
              | inr (thrown, failed) ↦ absurd (ground arith)
              | inl (checked, passed) ↦
                  elim (Result-cases
                    (scoped_organization texts members tenant_scoped request checked)) [
                      | inr (thrown, failed) ↦ absurd (ground arith)
                      | inl (effective, scoped) ↦
                          let (own, header) =
                            checked_organization-IsOwn user request (λ o e. joined user o known e)
                              checked passed in
                          let same_user : user.user_id ≡ info.user_id = ground arith in
                          let same : truthy effective ≡ some o = ground arith in
                          rw (← same_user) (
                            scoped_organization-IsOwn user tenant_scoped request checked own header
                              effective scoped o (truthy-some effective o same))
                    ]
            ]
      ]

-- ===== src/Access/Granted.antt =====
-- A request of src/common/http and src/common/tenant has the permissions that its route requires.
use hexagonal.Base.{
  ◌≡◌, ◌⊎◌, refl, sym, ap, ◌∙◌, inl, inr, String, Bool, true, ◌==◌, Option, none, some, List, Memᴰ,
  includes, ok, arith, eq_iff, Bool-cases, Option-cases, Result-cases,
}
use hexagonal.Members.Repository.{Member}
use hexagonal.ApiKeys.UseCases.{ApiKeyAuthenticationResult}
use hexagonal.Access.Request.{
  api_key, AuthenticatedUserPayload, AuthenticatedHttpRequest, Texts, truthy, trimmed,
}
use hexagonal.Access.Authentication.{
  JwtPayload, extract_bearer_token, extract_api_key, extract_remote_ip, with_key, access_auth_guard,
}
use hexagonal.Access.Permissions.{user_has_permission, chosen_organization}
use hexagonal.Access.Tenant.{TenantInfo}
use hexagonal.Access.Chain.{admit}
use hexagonal.Access.Joined.{bearer_user}
use hexagonal.Access.Chosen.{truthy_same, of_not, trimmed_full, granted_in}

abbrev key_user : ApiKeyAuthenticationResult → AuthenticatedUserPayload
key_user found = record {
  user_id = found.user_id;
  email = found.email;
  auth_method = api_key;
  organization_id = some found.organization_id;
  api_key_id = some found.api_key_id;
  api_key_name = some found.api_key_name;
  api_key_scopes = some found.scopes;
}

module _ (texts : Texts) (members : List Member) (verify_token : String → Option JwtPayload)
    (authenticate : (token : String) (remote_ip : Option String)
      → Option ApiKeyAuthenticationResult) where
  -- Whether the token or the key of the request stands for the user in the organization.
  abbrev ByToken : AuthenticatedHttpRequest → (user_id : String) → Type 0
  ByToken request user_id =
      (token : String) × (payload : JwtPayload) × (extract_bearer_token texts request ≡ some token)
      × (verify_token token ≡ some payload)
      × (user_id ≡ payload.user_id)

  abbrev ByKey :
      AuthenticatedHttpRequest → (user_id organization_id permission_code : String) → Type 0
  ByKey request user_id organization_id permission_code =
      (key : String) × (found : ApiKeyAuthenticationResult) × (extract_api_key texts request
        ≡ some key)
      × (authenticate key (extract_remote_ip texts request) ≡ some found)
      × (user_id ≡ found.user_id)
      × (organization_id ≡ found.organization_id)
      × (includes permission_code found.scopes ≡ true)

  abbrev pub IsGranted : AuthenticatedHttpRequest → TenantInfo → (permission_code : String) → Type 0
  IsGranted request info permission_code =
      (organization_id : String) × (info.organization_id ≡ some organization_id)
      × (user_has_permission none info.user_id organization_id permission_code members ≡ true)
      × (ByToken request info.user_id ⊎ ByKey request info.user_id organization_id permission_code)

  abbrev IsAuthenticated : AuthenticatedHttpRequest → AuthenticatedHttpRequest → Type 0
  IsAuthenticated request passed =
      ((token : String) × (payload : JwtPayload) × (extract_bearer_token texts request ≡ some token)
        × (verify_token token ≡ some payload)
        × (record request { user = some (bearer_user texts members payload) } ≡ passed))
      ⊎ ((key : String) × (found : ApiKeyAuthenticationResult) × (extract_api_key texts request
            ≡ some key)
          × (authenticate key (extract_remote_ip texts request) ≡ some found)
          × (with_key texts found request ≡ passed)
          × (chosen_organization texts members (trimmed texts request.x_organization_id)
                (with_key texts found request)
              ≡ truthy (some found.organization_id)))

  access_auth_guard-IsAuthenticated :
      (request passed : AuthenticatedHttpRequest)
      → access_auth_guard texts verify_token authenticate request ≡ ok passed
      → IsAuthenticated request passed
  unfolding access_auth_guard
  access_auth_guard-IsAuthenticated request passed h =
      elim (Option-cases (extract_bearer_token texts request)) [
        | inr (token, bearer) ↦ elim (Option-cases (verify_token token)) [
          | inl bad ↦ absurd (ground arith)
          | inr (payload, good) ↦ inl (token, payload, bearer, good, ground arith)
        ]
        | inl no_bearer ↦ elim (Option-cases (extract_api_key texts request)) [
          | inl no_key ↦ absurd (ground arith)
          | inr (key, given) ↦
              elim (Option-cases (authenticate key (extract_remote_ip texts request))) [
                | inl bad ↦ absurd (ground arith)
                | inr (found, good) ↦
                    elim (Option-cases (trimmed texts request.x_organization_id)) [
                      | inl absent ↦ inr (key, found, given, good, ground arith, rw absent refl)
                      | inr (requested, header) ↦
                          elim (Bool-cases (requested == found.organization_id)) [
                            | inl same ↦
                                let full =
                                  trimmed_full texts request.x_organization_id requested header in
                                let bound = (eq_iff requested found.organization_id).0 same in
                                inr (
                                  key,
                                  found,
                                  given,
                                  good,
                                  ground arith,
                                  rw (header, ← bound, full) refl,
                                )
                            | inr other ↦ absurd (ground arith)
                          ]
                    ]
              ]
        ]
      ]

  -- An admitted request has a tenant organization in which, for each permission that the route requires,
  -- the role of its user has the permission. Its user is that of a verified access token, or of a key
  -- that is bound to this organization and whose scopes have the permission.
  pub admit-IsGranted :
      (required : List String) (tenant_scoped : Bool)
      → (request : AuthenticatedHttpRequest) (info : TenantInfo)
      → admit texts members verify_token authenticate required tenant_scoped request
        ≡ ok (some info)
      → (p : String) → Memᴰ p required
      → IsGranted request info p
  unfolding admit
  admit-IsGranted required tenant_scoped request info h p m =
      elim (Result-cases (access_auth_guard texts verify_token authenticate request)) [
        | inr (thrown, failed) ↦ absurd (ground arith)
        | inl (passed, entered) ↦ elim (access_auth_guard-IsAuthenticated request passed entered) [
          | inl (token, payload, bearer, good, same) ↦
              let (o, chosen, set, held, covered) =
                granted_in texts members passed (bearer_user texts members payload) required
                  tenant_scoped info p m (ap (λ r. r.user) (sym same)) (ground arith) in
              (
                o,
                ap (λ i. i.organization_id) (sym set),
                ap (λ i. user_has_permission none i.user_id o p members) (sym set) ∙ held,
                inl (token, payload, bearer, good, ap (λ i. i.user_id) (sym set)),
              )
          | inr (key, found, given, good, same, bound) ↦
              let (o, chosen, set, held, covered) =
                granted_in texts members passed (key_user found) required tenant_scoped info p m
                  (ap (λ r. r.user) (sym same)) (ground arith) in
              let organization =
                sym bound
                ∙ ap (λ r. chosen_organization texts members (trimmed texts r.x_organization_id) r)
                    same
                ∙ chosen in
              (
                o,
                ap (λ i. i.organization_id) (sym set),
                ap (λ i. user_has_permission none i.user_id o p members) (sym set) ∙ held,
                inr (
                  key,
                  found,
                  given,
                  good,
                  ap (λ i. i.user_id) (sym set),
                  sym (truthy_same found.organization_id o organization),
                  of_not (includes p found.scopes) covered,
                ),
              )
        ]
      ]

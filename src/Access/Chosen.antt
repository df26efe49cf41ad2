-- ===== src/Access/Chosen.antt =====
-- The organization that src/common/http/guards/permission.guard.ts chooses, and the tenant that
-- src/common/tenant/tenant.interceptor.ts makes of it.
use hexagonal.Base.{
  ◌≡◌, refl, sym, ap, ◌∙◌, inl, inr, String, Bool, true, false, not, ◌&&◌, Option, none, some, List,
  [], ◌∷◌, Memᴰ, Result, ok, ◌>>=◌, arith, eq_iff, Bool-cases, Option-cases, Result-cases,
}
use hexagonal.Members.Repository.{Member}
use hexagonal.Access.Request.{
  AuthenticatedUserPayload, AuthenticatedHttpRequest, HttpException, Texts, truthy, trimmed,
}
use hexagonal.Access.Permissions.{
  user_has_permission, is_api_key, lacks_scope, is_outside, chosen_organization, check_permissions,
  permission_guard,
}
use hexagonal.Access.Tenant.{
  TenantInfo, checked_organization, scoped_organization, tenant_interceptor,
}

truthy_again : (t : Option String) (s : String) → truthy t ≡ some s → truthy (some s) ≡ some s
truthy_again none s h = absurd (cc)
truthy_again (some t) s h = ground (arith, eq_iff t "", eq_iff s "")

pub truthy_same : (s t : String) → truthy (some s) ≡ some t → s ≡ t
truthy_same s t h = ground (arith, eq_iff s "")

pub of_not : (b : Bool) → not b ≡ false → b ≡ true
of_not true h = refl
of_not false h = absurd (cc)

ok_some_injective :
    {info other : TenantInfo}
    → ◌≡◌ {A = Result HttpException (Option TenantInfo)} (ok (some info)) (ok (some other))
    → info ≡ other
ok_some_injective h = ground arith

pub trimmed_full :
    (texts : Texts) (t : Option String) (s : String)
    → trimmed texts t ≡ some s
    → truthy (some s) ≡ some s
trimmed_full texts none s h = absurd (cc)
trimmed_full texts (some t) s h = truthy_again (some (texts.trim t)) s h

module _ (texts : Texts) (members : List Member) where
  -- What the loop has checked of each permission.
  check_permissions-lem :
      (user : AuthenticatedUserPayload) (o : String) (required : List String)
      → check_permissions texts members user o required ≡ ok tt
      → (p : String) → Memᴰ p required
      → (user_has_permission none user.user_id o p members ≡ true)
        × (is_api_key user.auth_method && lacks_scope user.api_key_scopes p ≡ false)
  unfolding check_permissions
  check_permissions-lem user o [] h p m = elim m [ ]
  check_permissions-lem user o (q ∷ qs) h p m =
      elim (Bool-cases (user_has_permission none user.user_id o q members)) [
        | inr missing ↦ absurd (ground arith)
        | inl held ↦
            elim (Bool-cases (is_api_key user.auth_method && lacks_scope user.api_key_scopes q)) [
              | inl lacks ↦ absurd (ground arith)
              | inr covered ↦ elim m [
                | Memᴰ.head e ↦ rw e (held, covered)
                | Memᴰ.tail n ↦ check_permissions-lem user o qs (ground arith) p n
              ]
            ]
      ]

  abbrev chosen_request :
      AuthenticatedHttpRequest → (organization_id : String) → AuthenticatedHttpRequest
  chosen_request request o = record request { effective_organization_id = some o }

  checked_organization-chosen :
      (request : AuthenticatedHttpRequest) (user : AuthenticatedUserPayload) (o : String)
      → ((n : String) → trimmed texts request.x_organization_id ≡ some n → n ≡ o)
      → checked_organization texts members user (chosen_request request o) ≡ ok (some o)
  unfolding checked_organization
  checked_organization-chosen request user o header =
      elim (Option-cases (trimmed texts request.x_organization_id)) [
        | inl absent ↦ ground arith
        | inr (n, given) ↦ let same = header n given in ground (arith, eq_iff o n)
      ]

  scoped_organization-chosen :
      (tenant_scoped : Bool) (request : AuthenticatedHttpRequest) (o : String)
      → truthy (some o) ≡ some o
      → scoped_organization texts members tenant_scoped request (some o) ≡ ok (some o)
  unfolding scoped_organization
  scoped_organization-chosen tenant_scoped request o full = ground arith

  tenant_interceptor-chosen :
      (tenant_scoped : Bool) (request : AuthenticatedHttpRequest) (user : AuthenticatedUserPayload)
      → (o : String) → request.user ≡ some user
      → truthy (some o) ≡ some o
      → ((n : String) → trimmed texts request.x_organization_id ≡ some n → n ≡ o)
      → tenant_interceptor texts members tenant_scoped (chosen_request request o)
        ≡ ok (some (record { user_id = user.user_id; organization_id = some o }))
  unfolding tenant_interceptor
  tenant_interceptor-chosen tenant_scoped request user o known full header = ground (
    arith,
    checked_organization-chosen request user o header,
    scoped_organization-chosen tenant_scoped (chosen_request request o) o full,
  )

  chosen_organization-lem :
      (request : AuthenticatedHttpRequest) (o : String)
      → chosen_organization texts members (trimmed texts request.x_organization_id) request ≡ some o
      → (truthy (some o) ≡ some o)
        × ((n : String) → trimmed texts request.x_organization_id ≡ some n → n ≡ o)
  chosen_organization-lem request o h =
      elim (Option-cases (trimmed texts request.x_organization_id)) [
        | inl absent ↦ (
          truthy_again request.effective_organization_id o (ground arith),
          λ n e. absurd (ground arith),
        )
        | inr (n, given) ↦
            (trimmed_full texts request.x_organization_id o (ground arith), λ m e. ground arith)
      ]

  -- What an admitted request has shown, before its tenant is set.
  permission_guard-chosen :
      (required : List String) (p : String)
      → Memᴰ p required
      → (request : AuthenticatedHttpRequest) (user : AuthenticatedUserPayload)
      → request.user ≡ some user
      → (passed : AuthenticatedHttpRequest)
      → permission_guard texts members required request ≡ ok passed
      → (o : String) × (chosen_organization texts members
            (trimmed texts request.x_organization_id)
            request
          ≡ some o)
        × (check_permissions texts members user o required ≡ ok tt)
        × (chosen_request request o ≡ passed)
  unfolding permission_guard
  permission_guard-chosen [] p m request user known passed h = elim m [ ]
  permission_guard-chosen (q ∷ qs) p m request user known passed h =
      let requested = trimmed texts request.x_organization_id in
      elim (Bool-cases (is_outside texts members requested user)) [
        | inl outside ↦ absurd (ground arith)
        | inr inside ↦ elim (Option-cases (chosen_organization texts members requested request)) [
          | inl missing ↦ absurd (ground arith)
          | inr (o, chosen) ↦
              elim (Result-cases (check_permissions texts members user o (q ∷ qs))) [
                | inr (e, failed) ↦ absurd (ground arith)
                | inl (u, held) ↦ (o, chosen, held, ground arith)
              ]
        ]
      ]

  -- The user and the organization of a request that has passed the first guard.
  -- In a chosen organization the interceptor sets the tenant.
  pub granted_in :
      (passed : AuthenticatedHttpRequest) (user : AuthenticatedUserPayload)
      → (required : List String) (tenant_scoped : Bool) (info : TenantInfo) (p : String)
      → Memᴰ p required
      → passed.user ≡ some user
      → (permission_guard texts members required passed >>= λ permitted.
          tenant_interceptor texts members tenant_scoped permitted)
        ≡ ok (some info)
      → (o : String) × (chosen_organization texts members
            (trimmed texts passed.x_organization_id)
            passed
          ≡ some o)
        × (record { user_id = user.user_id; organization_id = some o } ≡ info)
        × (user_has_permission none user.user_id o p members ≡ true)
        × (is_api_key user.auth_method && lacks_scope user.api_key_scopes p ≡ false)
  granted_in passed user required tenant_scoped info p m known h =
      elim (Result-cases (permission_guard texts members required passed)) [
        | inr (thrown, failed) ↦ absurd (ground arith)
        | inl (permitted, allowed) ↦
            let (o, chosen, checked, same) =
              permission_guard-chosen required p m passed user known permitted allowed in
            let (full, header) = chosen_organization-lem passed o chosen in
            let set = tenant_interceptor-chosen tenant_scoped passed user o known full header in
            let (held, covered) = check_permissions-lem user o required checked p m in
            let run : tenant_interceptor texts members tenant_scoped permitted ≡ ok (some info) =
              ground arith in
            let both = sym set ∙ ap (tenant_interceptor texts members tenant_scoped) same ∙ run in
            (o, chosen, ok_some_injective both, held, covered)
      ]

-- ===== src/Access/Authentication.antt =====
-- src/modules/iam/auth/presentation/guards/access-auth.guard.ts. The verification of an access token
-- and the authenticator of keys are arguments.
use hexagonal.Base.{
  String, not, ◌==◌, Option, none, some, List, [], ◌∷◌, Result, ok, err, if◌then◌else◌,
}
use hexagonal.ApiKeys.UseCases.{ApiKeyAuthenticationResult}
use hexagonal.Access.Request.{
  jwt, api_key, AuthenticatedHttpRequest, HttpException, unauthorized, forbidden, Texts, truthy,
  trimmed,
}

-- The payload of an access token.
pub record JwtPayload : Type 0 where
  pub user_id : String
  pub email : String

-- The second part, if the first is the scheme; the parts after it are passed over.
abbrev pub of_scheme : (scheme : String) → List String → Option String
of_scheme scheme (type ∷ token ∷ _) = if type == scheme then truthy (some token) else none
of_scheme scheme _ = none

module _ (texts : Texts) where
  abbrev pub authorization_of : (scheme : String) → AuthenticatedHttpRequest → Option String
  authorization_of scheme request = elim (truthy request.authorization) [
    | none ↦ none
    | some header ↦ of_scheme scheme (texts.split " " header)
  ]

  unfoldable pub extract_bearer_token : AuthenticatedHttpRequest → Option String
  extract_bearer_token = authorization_of "Bearer"

  unfoldable pub extract_api_key : AuthenticatedHttpRequest → Option String
  extract_api_key request = elim (trimmed texts request.x_api_key) [
    | some key ↦ some key
    | none ↦ authorization_of "ApiKey" request
  ]

  abbrev pub first_of : List String → Option String
  first_of [] = none
  first_of (s ∷ _) = trimmed texts (some s)

  unfoldable pub extract_remote_ip : AuthenticatedHttpRequest → Option String
  extract_remote_ip request = elim (truthy request.ip) [
    | some ip ↦ some ip
    | none ↦ elim request.x_forwarded_for [
      | none ↦ none
      | some forwarded_for ↦ first_of (texts.split "," forwarded_for)
    ]
  ]

  abbrev pub with_key :
      ApiKeyAuthenticationResult → AuthenticatedHttpRequest → AuthenticatedHttpRequest
  with_key found request = record request {
    user = some (record {
      user_id = found.user_id;
      email = found.email;
      auth_method = api_key;
      organization_id = some found.organization_id;
      api_key_id = some found.api_key_id;
      api_key_name = some found.api_key_name;
      api_key_scopes = some found.scopes;
    });
    effective_organization_id = some found.organization_id;
  }

  -- The request with its user, or what is thrown.
  unfoldable pub access_auth_guard :
      (verify_token : String → Option JwtPayload)
      → (authenticate : (token : String) (remote_ip : Option String)
          → Option ApiKeyAuthenticationResult)
      → AuthenticatedHttpRequest
      → Result HttpException AuthenticatedHttpRequest
  access_auth_guard verify_token authenticate request = elim (extract_bearer_token request) [
    | some bearer_token ↦ elim (verify_token bearer_token) [
      | none ↦ err (unauthorized "Invalid or expired token")
      | some payload ↦ ok (record request {
        user = some (record {
          user_id = payload.user_id;
          email = payload.email;
          auth_method = jwt;
          organization_id = none;
          api_key_id = none;
          api_key_name = none;
          api_key_scopes = none;
        });
      })
    ]
    | none ↦ elim (extract_api_key request) [
      | none ↦ err (unauthorized "Missing authentication token")
      | some key ↦ elim (authenticate key (extract_remote_ip request)) [
        | none ↦ err (unauthorized "Invalid or expired API key")
        | some found ↦ elim (trimmed texts request.x_organization_id) [
          | some requested ↦
              if not (requested == found.organization_id)
              then err (forbidden "API key cannot be used outside its bound organization")
              else ok (with_key found request)
          | none ↦ ok (with_key found request)
        ]
      ]
    ]
  ]

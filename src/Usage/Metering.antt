-- ===== src/Usage/Metering.antt =====
-- src/common/http/interceptors/api-key-usage-metering.interceptor.ts. The user is the one that the access
-- guard sets; the log of a failure is not modelled.
use hexagonal.Base.{ℕ, Bool, Option, none, some, get_or, List, Result, ok, err, if◌then◌else◌}
use hexagonal.Idempotency.Interceptor.{HttpRequest, build_idempotent_request_route_key}
use hexagonal.Access.Request.{AuthMethod, jwt, api_key, AuthenticatedUserPayload, truthy}
use hexagonal.Usage.Counter.{UsageCounter, CreateUsageCounterProps, record_usage}

abbrev pub of_method :
    AuthMethod → Option AuthenticatedUserPayload → Option AuthenticatedUserPayload
of_method api_key user = user
of_method jwt user = none

-- The command for a user with a key, whose key and organization are set.
unfoldable pub usage_of :
    Option AuthenticatedUserPayload
    → HttpRequest
    → (status_code : ℕ) → Option CreateUsageCounterProps
usage_of none request status_code = none
usage_of (some user) request status_code = elim (of_method user.auth_method (some user)) [
  | none ↦ none
  | some _ ↦ elim (truthy user.api_key_id) [
    | none ↦ none
    | some key ↦ elim (truthy user.organization_id) [
      | none ↦ none
      | some organization ↦ some (record {
        metric_key = "api_key.request";
        organization_id = organization;
        user_id = user.user_id;
        api_key_id = some key;
        route_key = build_idempotent_request_route_key request;
        status_code = status_code;
        occurred_at = none;
      })
    ]
  ]
]

module _ {ℓ κ} {E : Type ℓ} {A : Type κ} (status_of : E → Option ℕ) where
  -- The status of the response, or of the exception.
  abbrev pub status_after : (status : ℕ) → Result E A → ℕ
  status_after status (ok body) = status
  status_after status (err error) = get_or (status_of error) 500

  -- `stored` is whether the database takes the counter; `status` is that of the response.
  unfoldable pub intercept :
      Option AuthenticatedUserPayload
      → HttpRequest
      → (stored : Bool) (now status : ℕ) → Result E A
      → List UsageCounter
      → Result E A × List UsageCounter
  intercept user request stored now status outcome counters =
      elim (usage_of user request (status_after status outcome)) [
        | none ↦ (outcome, counters)
        | some command ↦ (outcome, if stored then record_usage now command counters else counters)
      ]

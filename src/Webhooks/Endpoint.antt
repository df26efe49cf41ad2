-- ===== src/Webhooks/Endpoint.antt =====
-- src/modules/webhooks/domain/entities/webhook-endpoint.entity.ts. `trim` is the runtime's.
use hexagonal.Base.{ℕ, String, Option, none, some, List, [], ◌∷◌, filter, not, ◌==◌}

pub record CreateWebhookEndpointProps : Type 0 where
  pub id : String
  pub organization_id : String
  pub created_by_user_id : String
  pub name : String
  pub url : String
  pub events : List String
  pub secret_ciphertext : String

pub record WebhookEndpoint : Type 0 where
  pub id : String
  pub organization_id : String
  pub created_by_user_id : String
  pub name : String
  pub url : String
  pub events : List String
  pub secret_ciphertext : String
  pub last_delivery_at : Option ℕ
  pub last_failure_at : Option ℕ
  pub last_failure_status_code : Option ℕ
  pub last_failure_message : Option String
  pub created_at : ℕ
  pub updated_at : ℕ

abbrev pub endpoint_id : WebhookEndpoint → String
endpoint_id endpoint = endpoint.id

-- `[...new Set(values)]`: the first occurrences, in order.
unfoldable pub distinct : List String → List String
distinct [] = []
distinct (x ∷ xs) = x ∷ filter (λ y. not (x == y)) (distinct xs)

module _ (trim : String → String) where
  unfoldable pub create : (now : ℕ) → CreateWebhookEndpointProps → WebhookEndpoint
  unfolding distinct
  create now props = record {
    id = props.id;
    organization_id = props.organization_id;
    created_by_user_id = props.created_by_user_id;
    name = trim props.name;
    url = trim props.url;
    events = distinct props.events;
    secret_ciphertext = props.secret_ciphertext;
    last_delivery_at = none;
    last_failure_at = none;
    last_failure_status_code = none;
    last_failure_message = none;
    created_at = now;
    updated_at = now;
  }

  unfoldable pub rehydrate : WebhookEndpoint → WebhookEndpoint
  unfolding distinct
  rehydrate props = record props {
    name = trim props.name;
    url = trim props.url;
    events = distinct props.events;
  }

unfoldable pub record_delivery_success : (delivered_at : ℕ) → WebhookEndpoint → WebhookEndpoint
record_delivery_success delivered_at endpoint = record endpoint {
  last_delivery_at = some delivered_at;
  last_failure_at = none;
  last_failure_status_code = none;
  last_failure_message = none;
  updated_at = delivered_at;
}

unfoldable pub record_delivery_failure :
    (status_code : Option ℕ) (message : String) (failed_at : ℕ) → WebhookEndpoint → WebhookEndpoint
record_delivery_failure status_code message failed_at endpoint = record endpoint {
  last_failure_at = some failed_at;
  last_failure_status_code = status_code;
  last_failure_message = some message;
  updated_at = failed_at;
}

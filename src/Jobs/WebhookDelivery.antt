-- ===== src/Jobs/WebhookDelivery.antt =====
-- src/modules/jobs/application/webhook-delivery-job.handler.ts.
pub mod Once
use hexagonal.Base.{
  ℕ, String, Bool, true, false, not, ◌&&◌, ◌||◌, Option, none, some, List, [], ◌∷◌, Result, ok, err,
  ◌==◌, if◌then◌else◌, ◌>>=◌,
}
use hexagonal.Json.{Json, str, get, is_string, is_object}
use hexagonal.Table.{Saves, find_by}
use hexagonal.Jobs.Errors.{Thrown, non_retryable_job_error, other_error}
use hexagonal.Jobs.Entity.{JobOutbox}
use hexagonal.Jobs.Store.{Store, Ports, run_in_transaction, Admission, skip, finish, proceed, admit}
use hexagonal.Jobs.Email.{complete, acknowledge}
use hexagonal.Webhooks.Endpoint.{
  WebhookEndpoint, rehydrate, record_delivery_success, record_delivery_failure,
}

abbrev pub handler_type : String
handler_type = "webhook_delivery"

pub record WebhookDeliveryJobPayload : Type 0 where
  pub event_id : String
  pub event_type : String
  pub organization_id : String
  pub endpoint_id : String
  pub occurred_at : String
  pub payload : Json

abbrev invalid : Result Thrown WebhookDeliveryJobPayload
invalid = err (non_retryable_job_error "Invalid webhook delivery payload")

-- `typeof value !== 'string'` throws.
text : Option Json → Result Thrown String
text (some (str s)) = ok s
text _ = err (non_retryable_job_error "Invalid webhook delivery payload")

-- A property that must be an object, and not null.
object : Option Json → Result Thrown Json
object none = err (non_retryable_job_error "Invalid webhook delivery payload")
object (some value) =
    if is_object (some value)
    then ok value
    else err (non_retryable_job_error "Invalid webhook delivery payload")

unfoldable pub validate : Option Json → Result Thrown WebhookDeliveryJobPayload
unfolding text object
validate none = invalid
validate (some candidate) = if not (is_object (some candidate)) then invalid else do
  event_id ← text (get "eventId" candidate)
  event_type ← text (get "eventType" candidate)
  organization_id ← text (get "organizationId" candidate)
  endpoint_id ← text (get "endpointId" candidate)
  occurred_at ← text (get "occurredAt" candidate)
  payload ← object (get "payload" candidate)
  ok (record {
    event_id = event_id;
    event_type = event_type;
    organization_id = organization_id;
    endpoint_id = endpoint_id;
    occurred_at = occurred_at;
    payload = payload;
  })

-- What the delivery client throws. The message of a value that is no `Error` is undefined.
pub data DeliveryError : Type 0 where
  non_retryable_webhook_delivery_error : String → DeliveryError
  retryable_error : String → Option ℕ → DeliveryError
  not_an_error : DeliveryError

-- `typeof retryableError.statusCode === 'number' ? retryableError.statusCode : null`
abbrev status_code : DeliveryError → Option ℕ
status_code (retryable_error message code) = code
status_code _ = none

-- `message || 'Unknown webhook delivery error'`
abbrev or_unknown : String → String
or_unknown message = if message == "" then "Unknown webhook delivery error" else message

abbrev failure_message : DeliveryError → String
failure_message (non_retryable_webhook_delivery_error message) = or_unknown message
failure_message (retryable_error message code) = or_unknown message
failure_message not_an_error = "Unknown webhook delivery error"

-- The error that the handler throws after the transaction.
abbrev pub thrown : DeliveryError → Thrown
thrown (non_retryable_webhook_delivery_error message) = non_retryable_job_error message
thrown (retryable_error message code) = other_error message
thrown not_an_error = other_error "Unknown webhook delivery error"

pub data WebhookHandleResult : Type 0 where
  completed skipped : WebhookHandleResult
  failed : Thrown → WebhookHandleResult

-- What the world answers to one handling.
pub record Answers : Type 0 where
  pub reads : Result Thrown (Unit {0})
  pub deliver : Result DeliveryError (Unit {0})
  pub writes : Result Thrown (Unit {0})

-- What the delivery client is handed.
pub record DeliverCommand : Type 0 where
  pub url : String
  pub secret : String
  pub event : WebhookDeliveryJobPayload

pub record Handled : Type 0 where
  pub result : Result Thrown WebhookHandleResult
  pub store : Store
  pub sent : Option DeliverCommand

-- `if (result.outcome === 'failed') throw result.error;`
abbrev pub rethrow : Result Thrown WebhookHandleResult → Result Thrown (Unit {0})
rethrow (err error) = err error
rethrow (ok (failed error)) = err error
rethrow (ok _) = ok tt

module _ (ports : Ports) where
  -- `findOne({ where: { id, organizationId } })`
  unfoldable pub select_endpoint :
      (id organization_id : String) → List WebhookEndpoint → Option WebhookEndpoint
  select_endpoint id organization_id [] = none
  select_endpoint id organization_id (e ∷ es) =
      if e.id == id && e.organization_id == organization_id
      then some (rehydrate ports.trim e)
      else select_endpoint id organization_id es

  -- `findById(endpointId, organizationId)` of the endpoints, which needs a tenant.
  unfoldable pub find_endpoint :
      (id organization_id : String) → List WebhookEndpoint → Result Thrown (Option WebhookEndpoint)
  unfolding select_endpoint
  find_endpoint id organization_id endpoints =
      if organization_id == ""
      then err (other_error "Tenant context is required to access webhook_endpoints")
      else ok (select_endpoint id organization_id endpoints)

  abbrev update_endpoint : WebhookEndpoint → Store → Store
  update_endpoint endpoint store = record store {
    endpoints = ports.endpoint_saves.save endpoint store.endpoints;
  }

  -- The delivery, and what is written by how it ends.
  deliver :
      Answers
      → (now : ℕ) (id : String) → WebhookDeliveryJobPayload
      → JobOutbox
      → WebhookEndpoint
      → (secret : String) → Store
      → Handled
  deliver answers now id payload job endpoint secret store =
      let command : DeliverCommand = record {
        url = endpoint.url;
        secret = secret;
        event = payload;
      } in
      elim answers.deliver [
        | err error ↦ record {
          result = answers.writes >>= λ _. ok (failed (thrown error));
          store =
              update_endpoint
                (record_delivery_failure (status_code error) (failure_message error) now endpoint)
                store;
          sent = some command;
        }
        | ok _ ↦ record {
          result = answers.writes >>= λ _. ok completed;
          store =
              acknowledge ports handler_type id now job
                (update_endpoint (record_delivery_success now endpoint) store);
          sent = some command;
        }
      ]

  -- From the endpoint on: an endpoint that is gone, and a secret that cannot be decrypted.
  deliver_found :
      Answers
      → (now : ℕ) (id : String) → WebhookDeliveryJobPayload
      → JobOutbox
      → Result Thrown (Option WebhookEndpoint)
      → Store
      → Handled
  unfolding deliver
  deliver_found answers now id payload job (err error) store = record {
    result = err error;
    store = store;
    sent = none;
  }
  deliver_found answers now id payload job (ok none) store = record {
    result = ok (failed (non_retryable_job_error "Webhook endpoint not found"));
    store = store;
    sent = none;
  }
  deliver_found answers now id payload job (ok (some endpoint)) store =
      elim (ports.decrypt endpoint.secret_ciphertext) [
        | err error ↦ record { result = err error; store = store; sent = none }
        | ok secret ↦ deliver answers now id payload job endpoint secret store
      ]

  -- The body of the transaction after the reads.
  handle_admitted :
      Answers → (now : ℕ) (id : String) → WebhookDeliveryJobPayload → Admission → Store → Handled
  unfolding deliver_found find_endpoint
  handle_admitted answers now id payload skip store = record {
    result = ok skipped;
    store = store;
    sent = none;
  }
  handle_admitted answers now id payload (finish job) store = record {
    result = answers.writes >>= λ _. ok skipped;
    store = complete ports now job store;
    sent = none;
  }
  handle_admitted answers now id payload (proceed job) store =
      deliver_found answers now id payload job
        (find_endpoint payload.endpoint_id payload.organization_id store.endpoints) store

  -- The transaction; `result` is what it returns, which `rethrow` turns into what is thrown.
  unfoldable pub handle :
      Answers → (now : ℕ) (id : String) → WebhookDeliveryJobPayload → Store → Handled
  unfolding handle_admitted run_in_transaction
  handle answers now id payload store =
      let handled = handle_admitted answers now id payload (admit handler_type id store) store in
      let body : Result Thrown WebhookHandleResult × Store =
        (answers.reads >>= λ _. handled.result, handled.store) in
      let (result, after) = run_in_transaction (λ _. body) store in
      let sent : Option DeliverCommand = elim answers.reads [
        | ok _ ↦ handled.sent
        | err _ ↦ none
      ] in
      record { result = result; store = after; sent = sent }

-- ===== src/Webhooks/Client.antt =====
-- src/modules/webhooks/infrastructure/adapters/fetch-webhook-delivery-client.adapter.ts. The clock's seconds
-- as a text, the signature of a text and the text of an event are parameters.
use Prim.Native.String
use hexagonal.Base.{
  ℕ, String, Bool, ◌&&◌, ◌||◌, leb, ltb, eqb, Option, none, some, Result, ok, err, if◌then◌else◌,
}
use hexagonal.Jobs.WebhookDelivery.{
  DeliveryError, non_retryable_webhook_delivery_error, retryable_error,
}
use hexagonal.Webhooks.Target.{WebhookTargetPolicyOptions, Runtime, assert_webhook_target_allowed}

-- `body` is `JSON.stringify` of the five fields of the event.
pub record DeliverWebhookCommand : Type 0 where
  pub url : String
  pub secret : String
  pub id : String
  pub type : String
  pub body : String

-- The request that is sent, without the constant headers and the timeout.
pub record Sent : Type 0 where
  pub target_url : String
  pub webhook_id : String
  pub webhook_event : String
  pub webhook_timestamp : String
  pub webhook_signature : String
  pub body : String

pub record Delivery : Type 0 where
  pub result : Result DeliveryError ℕ
  pub sent : Option Sent

unfoldable pub is_retried : (status : ℕ) → Bool
is_retried status =
    leb 500 status || eqb status 408 || eqb status 409 || eqb status 425 || eqb status 429

-- `print` is the decimal text of a status.
abbrev pub failed_with : (print : ℕ → String) (status : ℕ) → String
failed_with print status = String.◌++◌ "Webhook delivery failed with status " (print status)

unfoldable pub result_of : (print : ℕ → String) → Result String ℕ → Result DeliveryError ℕ
result_of print (err message) = err (retryable_error message none)
result_of print (ok status) =
    if leb 200 status && ltb status 300
    then ok status
    else if is_retried status
    then err (retryable_error (failed_with print status) (some status))
    else err (non_retryable_webhook_delivery_error (failed_with print status))

module _ (runtime : Runtime) (options : WebhookTargetPolicyOptions)
    (hmac : (secret text : String) → String) (print : ℕ → String) where
  abbrev pub request_to : (target_url timestamp : String) → DeliverWebhookCommand → Sent
  request_to target_url timestamp command = record {
    target_url = target_url;
    webhook_id = command.id;
    webhook_event = command.type;
    webhook_timestamp = timestamp;
    webhook_signature = String.◌++◌ "t=" (
        String.◌++◌ timestamp (
          String.◌++◌ ",v1="
            (hmac command.secret (String.◌++◌ timestamp (String.◌++◌ "." command.body)))));
    body = command.body;
  }

  -- `response` is the status that `fetch` gives, or the message of its exception.
  unfoldable pub deliver :
      (timestamp : String) (response : Result String ℕ) → DeliverWebhookCommand → Delivery
  deliver timestamp response command =
      elim (assert_webhook_target_allowed runtime command.url options) [
        | err message ↦ record {
          result = err (non_retryable_webhook_delivery_error message);
          sent = none;
        }
        | ok url ↦ record {
          result = result_of print response;
          sent = some (request_to url.href timestamp command);
        }
      ]

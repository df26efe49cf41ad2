-- ===== src/Jobs/Samples.antt =====
-- Concrete jobs, options and ports for the tests.
use hexagonal.Base.{ℕ, String, none, some, List, [], ◌∷◌, ◌≡◌, refl, ok, if◌then◌else◌, ◌==◌, ◌&&◌}
use hexagonal.Table.Upsert.{upserting}
use hexagonal.Json.{Json, str, obj, field, end}
use hexagonal.Jobs.Entity.{
  JobOutboxStatus, pending, claimed, published, dead, JobOutbox, JobExecutionReceipt,
}
use hexagonal.Jobs.Policy.{JobsRuntimeOptions}
use hexagonal.Jobs.Repository.{job_id, find_receipt, ReceiptSaves}
use hexagonal.Jobs.Email
use hexagonal.Jobs.WebhookDelivery
use hexagonal.Jobs.Store.{Store, Ports}
use hexagonal.Webhooks.Endpoint.{WebhookEndpoint, endpoint_id}

abbrev pub options : JobsRuntimeOptions
options = record {
  outbox_batch_size = 10;
  outbox_claim_timeout_ms = 1000;
  outbox_max_attempts = 3;
  outbox_retry_base_ms = 100;
  outbox_retry_max_ms = 5000;
  outbox_cleanup_batch_size = 5;
  outbox_retention_published_hours = 1;
  outbox_retention_completed_hours = 1;
  outbox_retention_dead_hours = 2;
}

abbrev pub welcome : Json
welcome = obj (
    field "type" (str "welcome") (field "to" (str "a@b.c") (field "recipientName" (str "Ann") end)))

abbrev pub job : String → JobOutboxStatus → (attempt_count created_at updated_at : ℕ) → JobOutbox
job id status attempt_count created_at updated_at = record {
  id = id;
  type = "transactional_email";
  payload = welcome;
  trace_id = none;
  status = status;
  attempt_count = attempt_count;
  next_attempt_at = created_at;
  published_at = none;
  last_error = none;
  group_key = "mail";
  deduplication_key = id;
  created_at = created_at;
  updated_at = updated_at;
}

abbrev pub late_job : JobOutbox
late_job = job "b" pending 0 20 20

abbrev pub claimed_job : JobOutbox
claimed_job = job "c" claimed 0 5 9000

abbrev pub dead_job : JobOutbox
dead_job = job "d" dead 3 1 7

abbrev pub old_job : JobOutbox
old_job = job "e" published 0 2 8

-- A job of each kind, the primary keys all different.
abbrev pub table : List JobOutbox
table = job "a" pending 0 10 10 ∷ late_job ∷ claimed_job ∷ dead_job ∷ old_job ∷ []

pub prepend_find_receipt :
    (job_id handler : String) (r : JobExecutionReceipt) (t : List JobExecutionReceipt)
    → find_receipt job_id handler (r ∷ t) ≡ (
        if r.job_id == job_id && r.handler == handler
        then some r
        else find_receipt job_id handler t)
prepend_find_receipt job_id handler r t = refl

abbrev pub prepending : ReceiptSaves
prepending = record { save = λ r t. r ∷ t; find_receipt-save = prepend_find_receipt }

abbrev pub endpoint : WebhookEndpoint
endpoint = record {
  id = "w";
  organization_id = "o";
  created_by_user_id = "u";
  name = "hook";
  url = "https://example.org/";
  events = "member.added" ∷ [];
  secret_ciphertext = "s";
  last_delivery_at = none;
  last_failure_at = none;
  last_failure_status_code = none;
  last_failure_message = none;
  created_at = 1;
  updated_at = 1;
}

abbrev pub ports : Ports
ports = record {
  job_saves = upserting job_id;
  receipt_saves = prepending;
  endpoint_saves = upserting endpoint_id;
  trim = λ s. s;
  decrypt = λ s. ok s;
}

abbrev pub store : Store
store = record { jobs = table; receipts = []; endpoints = endpoint ∷ [] }

abbrev pub iso : ℕ → String
iso n = "1970-01-01T00:00:00.000Z"

abbrev pub mail_up : Email.Answers
mail_up = record { reads = ok tt; send = ok tt; writes = ok tt }

abbrev pub hook_up : WebhookDelivery.Answers
hook_up = record { reads = ok tt; deliver = ok tt; writes = ok tt }

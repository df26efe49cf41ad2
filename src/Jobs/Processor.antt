-- ===== src/Jobs/Processor.antt =====
-- src/modules/jobs/application/async-job-processor.service.ts, over the two handlers that
-- src/modules/jobs/jobs.module.ts registers.
use Prim.Native.String
use hexagonal.Base.{ℕ, Result, ok, err, ◌==◌, if◌then◌else◌}
use hexagonal.Jobs.Errors.{Thrown, non_retryable_job_error}
use hexagonal.Jobs.Entity.{AsyncJobEnvelope}
use hexagonal.Jobs.Store.{Store, Ports}
use hexagonal.Jobs.Email
use hexagonal.Jobs.WebhookDelivery
use hexagonal.Jobs.WebhookDelivery.{rethrow}

-- The answers to either handler.
pub record Answers : Type 0 where
  pub email : Email.Answers
  pub webhook : WebhookDelivery.Answers

module _ (ports : Ports) (answers : Answers) (now : ℕ) where
  process_email : AsyncJobEnvelope → Store → Result Thrown (Unit {0}) × Store
  process_email job store = elim (Email.validate job.payload) [
    | err error ↦ (err error, store)
    | ok payload ↦
        let handled = Email.handle ports answers.email now job.job_id payload store in
        (handled.result, handled.store)
  ]

  process_webhook : AsyncJobEnvelope → Store → Result Thrown (Unit {0}) × Store
  process_webhook job store = elim (WebhookDelivery.validate job.payload) [
    | err error ↦ (err error, store)
    | ok payload ↦
        let handled = WebhookDelivery.handle ports answers.webhook now job.job_id payload store in
        (rethrow handled.result, handled.store)
  ]

  unfoldable pub process : AsyncJobEnvelope → Store → Result Thrown (Unit {0}) × Store
  unfolding process_email process_webhook
  process job store =
      if job.type == Email.handler_type
      then process_email job store
      else if job.type == WebhookDelivery.handler_type
      then process_webhook job store
      else (
        err (non_retryable_job_error (String.◌++◌ "Unsupported async job type: " job.type)),
        store,
      )

-- ===== src/Jobs/Worker/Tests.antt =====
-- The theorems on the queue worker at concrete messages.
use hexagonal.Base.{◌≡◌, refl, ◌⊎◌, String, some, [], ◌∷◌, ok, err, arith, eq_iff}
use hexagonal.Jobs.Entity.{JobOutbox}
use hexagonal.Jobs.Repository.{find_by_id}
use hexagonal.Json.{Json, JsonCodec, obj, field, end, str, num, null}
use hexagonal.Jobs.Errors.{non_retryable_job_error, other_error}
use hexagonal.Jobs.Entity.{to_envelope, AsyncJobEnvelope, dead}
use hexagonal.Jobs.Email
use hexagonal.Jobs.WebhookDelivery
use hexagonal.Jobs.WebhookDelivery.{WebhookDeliveryJobPayload, failed, thrown}
use hexagonal.Jobs.Processor.{process}
use hexagonal.Jobs.Worker
use hexagonal.Jobs.Worker.{envelope_json, parse_envelope, process_body, process_envelope}
use hexagonal.Jobs.Worker.Envelopes.{parse_envelope-stringify}
use hexagonal.Jobs.Worker.Buried.{come_back, unsupported_buried_once}
use hexagonal.Jobs.Worker.Dead.{deleted_has_cause}
use hexagonal.Jobs.Samples.{welcome, claimed_job, ports, store, iso, mail_up, hook_up}

-- A job of a type that no handler has.
abbrev strange_job : JobOutbox
strange_job = record claimed_job { type = "strange" }

abbrev strange_body : Json
strange_body = obj (
    field "jobId" (str "c") (
      field "version" (num 1) (
        field "type" (str "strange") (
          field "payload" welcome
            (field "publishedAt" (str "1970-01-01T00:00:00.000Z") (field "traceId" null end))))))

abbrev one_body : JsonCodec
one_body = record { stringify = λ j. "body"; parse = λ s. some strange_body }

parse_envelope-stringify_example :
    parse_envelope one_body (one_body.stringify (envelope_json (to_envelope iso strange_job)))
    ≡ ok (to_envelope iso strange_job)
unfolding envelope_json to_envelope
parse_envelope-stringify_example = parse_envelope-stringify one_body iso strange_job refl

abbrev answers : Worker.Answers
answers = record {
  processing = record { email = mail_up; webhook = hook_up };
  delete_done = ok tt;
  mark_dead = ok tt;
  delete_failed = ok tt;
}

deleted_has_cause_example :
    ((envelope : AsyncJobEnvelope) × (parse_envelope one_body "body" ≡ ok envelope)
      × ((process ports answers.processing 90 envelope store).0 ≡ ok tt))
    ⊎ ((message : String) × (parse_envelope one_body "body"
          ≡ err (non_retryable_job_error message)))
    ⊎ ((envelope : AsyncJobEnvelope) × (message : String) × (parse_envelope one_body "body"
          ≡ ok envelope)
        × ((process ports answers.processing 90 envelope store).0
            ≡ err (non_retryable_job_error message)))
unfolding process_body process
deleted_has_cause_example = deleted_has_cause ports one_body answers 90 "body" store refl

-- The message comes back twice after its deletion failed.
abbrev undeleted : Worker.Answers
undeleted = record answers { delete_failed = err (other_error "queue") }

unsupported_buried_once_example :
    find_by_id "c"
      (come_back ports one_body "body"
        ((undeleted, 91) ∷ (answers, 92) ∷ [])
        (process_body ports one_body undeleted 90 "body" store).store).jobs
    ≡ some (record claimed_job {
      status = dead;
      attempt_count = 1;
      last_error = some "Unsupported async job type: strange";
      updated_at = 90;
    })
unfolding parse_envelope to_envelope
unsupported_buried_once_example =
    unsupported_buried_once ports one_body "body" (to_envelope iso strange_job) refl
      (λ e. ground (arith, eq_iff "strange" Email.handler_type))
      (λ e. ground (arith, eq_iff "strange" WebhookDelivery.handler_type)) undeleted 90 store
      claimed_job refl (λ e. cc) (λ e. cc) refl ((undeleted, 91) ∷ (answers, 92) ∷ [])

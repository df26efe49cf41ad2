-- ===== src/Jobs/Worker/Buried.antt =====
-- A message of a type that no handler of src/modules/jobs takes.
use Prim.Native.String
use hexagonal.Base.{
  ℕ, ◌+◌, ◌≡◌, ◌≢◌, ◌∙◌, refl, ap, String, some, List, [], ◌∷◌, arith, ok, err, eq_iff,
}
use hexagonal.Json.{JsonCodec}
use hexagonal.Table.{find_by-key}
use hexagonal.Jobs.Errors.{non_retryable_job_error}
use hexagonal.Jobs.Entity.{AsyncJobEnvelope, JobOutbox, completed, dead, mark_dead}
use hexagonal.Jobs.Repository.{job_id, find_by_id}
use hexagonal.Jobs.Store.{Store, Ports}
use hexagonal.Jobs.Email
use hexagonal.Jobs.WebhookDelivery
use hexagonal.Jobs.Processor.{process}
use hexagonal.Jobs.Worker.{
  Answers, parse_envelope, bury, catch_error, process_envelope, process_body,
}

module _ (ports : Ports) (codec : JsonCodec) (body : String) where
  -- The message comes back, each time with other answers and at another time.
  abbrev pub come_back : List (Answers × ℕ) → Store → Store
  come_back [] store = store
  come_back ((answers, now) ∷ more) store =
      come_back more (process_body ports codec answers now body store).store

  module _ (envelope : AsyncJobEnvelope) (parsed : parse_envelope codec body ≡ ok envelope)
      (no_email : envelope.type ≢ Email.handler_type)
      (no_webhook : envelope.type ≢ WebhookDelivery.handler_type) where
    abbrev unsupported : String
    unsupported = String.◌++◌ "Unsupported async job type: " envelope.type

    process-unsupported :
        (answers : Answers) (now : ℕ) (store : Store)
        → process ports answers.processing now envelope store
          ≡ (err (non_retryable_job_error unsupported), store)
    unfolding process
    process-unsupported answers now store = ground (
      arith,
      no_email,
      no_webhook,
      eq_iff envelope.type Email.handler_type,
      eq_iff envelope.type WebhookDelivery.handler_type,
    )

    body-bury :
        (answers : Answers) (now : ℕ) (store : Store)
        → process_body ports codec answers now body store
          ≡ bury ports codec answers now unsupported (find_by_id envelope.job_id store.jobs) store
    unfolding process_body process_envelope catch_error
    body-bury answers now store = ground (arith, parsed, process-unsupported answers now store)

    -- A dead job is left as it is.
    dead_stays :
        (answers : Answers) (now : ℕ) (store : Store) (job : JobOutbox)
        → find_by_id envelope.job_id store.jobs ≡ some job
        → job.status ≡ dead
        → (process_body ports codec answers now body store).store ≡ store
    unfolding bury
    dead_stays answers now store job found d =
        ap (λ p. p.store) (body-bury answers now store) ∙ ground arith

    come_back-dead :
        (more : List (Answers × ℕ)) (store : Store) (job : JobOutbox)
        → find_by_id envelope.job_id store.jobs ≡ some job
        → job.status ≡ dead
        → come_back more store ≡ store
    come_back-dead [] store job found d = refl
    come_back-dead ((answers, now) ∷ more) store job found d =
        let same = dead_stays answers now store job found d in
        ap (come_back more) same ∙ come_back-dead more store job found d

    -- Of a message whose type no handler takes, if its job is in the outbox, neither completed nor dead, and
    -- the write of the dead job succeeds: the job is dead with one attempt more and the type in its error,
    -- and stays exactly so, however often the message comes back because its deletion failed.
    pub unsupported_buried_once :
        (answers : Answers) (now : ℕ) (store : Store) (job : JobOutbox)
        → find_by_id envelope.job_id store.jobs ≡ some job
        → job.status ≢ completed
        → job.status ≢ dead
        → answers.mark_dead ≡ ok tt
        → (more : List (Answers × ℕ))
        → find_by_id envelope.job_id
            (come_back more (process_body ports codec answers now body store).store).jobs
          ≡ some (record job {
            status = dead;
            attempt_count = job.attempt_count + 1;
            last_error = some (String.◌++◌ "Unsupported async job type: " envelope.type);
            updated_at = now;
          })
    unfolding bury mark_dead
    unsupported_buried_once answers now store job found open_c open_d writes more =
        let after = (process_body ports codec answers now body store).store in
        let buried = mark_dead now unsupported job in
        let saved = ports.job_saves.find_by-save envelope.job_id buried store.jobs in
        let named = find_by-key job_id envelope.job_id store.jobs found in
        let run = ap (λ p. p.store.jobs) (body-bury answers now store) in
        let there : find_by_id envelope.job_id after.jobs ≡ some buried =
          ap (find_by_id envelope.job_id) run ∙ ground (arith, eq_iff job.id envelope.job_id) in
        ap (λ s. find_by_id envelope.job_id s.jobs) (come_back-dead more after buried there refl)
        ∙ there

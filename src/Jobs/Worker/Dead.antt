-- ===== src/Jobs/Worker/Dead.antt =====
-- What becomes of a message, by how its processing ends.
use hexagonal.Base.{
  ℕ, ◌≡◌, ◌≢◌, refl, ap, ◌⊎◌, inl, inr, String, true, Option, none, some, arith, ok, err,
  Result-cases, eq_iff, ◌∙◌,
}
use hexagonal.Json.{JsonCodec}
use hexagonal.Table.{find_by-key}
use hexagonal.Jobs.Errors.{Thrown, non_retryable_job_error, other_error, no_error}
use hexagonal.Jobs.Entity.{AsyncJobEnvelope, JobOutbox, completed, dead, mark_dead}
use hexagonal.Jobs.Repository.{job_id, find_by_id}
use hexagonal.Jobs.Store.{Store, Ports}
use hexagonal.Jobs.Processor.{process}
use hexagonal.Jobs.Worker.{
  Answers, parse_envelope, bury, catch_error, process_envelope, process_body,
}

module _ (ports : Ports) (codec : JsonCodec) (answers : Answers) (now : ℕ) where
  catch_error-deleted :
      (envelope : Option AsyncJobEnvelope) (error : Thrown) (store : Store)
      → (catch_error ports codec answers now envelope error store).deleted ≡ true
      → (message : String) × (error ≡ non_retryable_job_error message)
  unfolding catch_error
  catch_error-deleted envelope (non_retryable_job_error message) store h = (message, refl)
  catch_error-deleted envelope (other_error message) store h = absurd (cc)
  catch_error-deleted envelope no_error store h = absurd (cc)

  process_envelope-deleted :
      (envelope : AsyncJobEnvelope) (store : Store)
      → (process_envelope ports codec answers now envelope store).deleted ≡ true
      → ((process ports answers.processing now envelope store).0 ≡ ok tt)
        ⊎ ((message : String) × ((process ports answers.processing now envelope store).0
              ≡ err (non_retryable_job_error message)))
  unfolding process_envelope
  process_envelope-deleted envelope store h =
      elim (Result-cases (process ports answers.processing now envelope store).0) [
        | inl (_, well) ↦ inl well
        | inr (error, failed) ↦
            let (message, final) =
              catch_error-deleted (some envelope) error _ (rw (failed, process_envelope) at h) in
            inr (message, failed ∙ ap err final)
      ]

  -- A message that is deleted was read and its processing ended well, or it could not be read, or its
  -- processing failed, both with an error that cannot be retried.
  pub deleted_has_cause :
      (body : String) (store : Store)
      → (process_body ports codec answers now body store).deleted ≡ true
      → ((envelope : AsyncJobEnvelope) × (parse_envelope codec body ≡ ok envelope)
          × ((process ports answers.processing now envelope store).0 ≡ ok tt))
        ⊎ ((message : String) × (parse_envelope codec body ≡ err (non_retryable_job_error message)))
        ⊎ ((envelope : AsyncJobEnvelope) × (message : String) × (parse_envelope codec body
              ≡ ok envelope)
            × ((process ports answers.processing now envelope store).0
                ≡ err (non_retryable_job_error message)))
  unfolding process_body
  deleted_has_cause body store h = elim (Result-cases (parse_envelope codec body)) [
    | inr (error, unread) ↦
        let (message, final) =
          catch_error-deleted none error store (rw (unread, process_body) at h) in
        inr (inl (message, unread ∙ ap err final))
    | inl (envelope, readable) ↦
        elim (process_envelope-deleted envelope store (rw (readable, process_body) at h)) [
          | inl well ↦ inl (envelope, readable, well)
          | inr (message, failed) ↦ inr (inr (envelope, message, readable, failed))
        ]
  ]

  -- An envelope whose processing fails for good: its open job is dead with the message of the error
  -- and one attempt more, if the database and the queue answer; the message is deleted.
  pub process_envelope-non_retryable :
      (envelope : AsyncJobEnvelope) (message : String) (store after : Store) (job : JobOutbox)
      → process ports answers.processing now envelope store
        ≡ (err (non_retryable_job_error message), after)
      → find_by_id envelope.job_id after.jobs ≡ some job
      → job.status ≢ completed
      → job.status ≢ dead
      → answers.mark_dead ≡ ok tt
      → answers.delete_failed ≡ ok tt
      → let done = process_envelope ports codec answers now envelope store in
        (done.deleted ≡ true)
        × (find_by_id envelope.job_id done.store.jobs ≡ some (mark_dead now message job))
  unfolding process_envelope catch_error bury mark_dead
  process_envelope-non_retryable envelope message store after job p found open_c open_d m d =
      ground (
        arith,
        ap (λ r. r.0) p,
        ap (λ r. r.1) p,
        ports.job_saves.find_by-save envelope.job_id (mark_dead now message job) after.jobs,
        find_by-key job_id envelope.job_id after.jobs found,
        eq_iff job.id envelope.job_id,
      )

-- ===== src/Jobs/Relay/Rows.antt =====
-- What dispatchClaimedJob of src/modules/jobs/application/outbox-relay.service.ts writes to the row of a
-- claimed job, by what the transport and the database answer.
use hexagonal.Base.{
  ℕ, ◌+◌, ◌-◌, ◌*◌, ◌^◌, ◌≤◌, ◌<◌, ◌≡◌, ◌∙◌, refl, ap, ◌⊎◌, inl, inr, String, min, leb, some, List,
  arith, eq_iff, Result, ok, err, Bool-cases,
}
use hexagonal.Table.{Saves, find_by-key}
use hexagonal.Jobs.Errors.{Thrown, message_or}
use hexagonal.Jobs.Entity.{
  JobOutbox, pending, claimed, published, dead, mark_published, mark_dead, schedule_retry,
}
use hexagonal.Jobs.Policy.{JobsRuntimeOptions, should_mark_dead, next_attempt_at}
use hexagonal.Jobs.Repository.{job_id, find_by_id}
use hexagonal.Jobs.Relay.{Answers, recovered, publish_claimed, dispatch_claimed_job}
use hexagonal.Jobs.Relay.Outcomes.{dispatch-publish_claimed}

-- The transport refuses, or the update after it does.
abbrev pub Fails : Answers → Thrown → Type 0
Fails answers error =
    (answers.publish ≡ err error) ⊎ ((answers.publish ≡ ok tt) × (answers.update ≡ err error))

abbrev pub failure_text : Thrown → String
failure_text = message_or "Unknown async transport publish error"

module _ (options : JobsRuntimeOptions) (now written : ℕ) where
  -- The row of a failed job: dead at the last attempt, and before it pending again, after a delay of the
  -- base doubled for each earlier failure, up to the cap.
  abbrev pub IsFailed : Thrown → JobOutbox → JobOutbox → Type 0
  IsFailed error job row =
      ((options.outbox_max_attempts ≤ job.attempt_count + 1)
        × (row ≡ record job {
          status = dead;
          attempt_count = job.attempt_count + 1;
          last_error = some (failure_text error);
          updated_at = written;
        }))
      ⊎ ((job.attempt_count + 1 < options.outbox_max_attempts)
          × (row ≡ record job {
            status = pending;
            attempt_count = job.attempt_count + 1;
            next_attempt_at =
                now
                + min (options.outbox_retry_base_ms * 2 ^ job.attempt_count)
                    options.outbox_retry_max_ms;
            last_error = some (failure_text error);
            updated_at = written;
          }))

  -- The three ways: published, failed, and failed without an update, which leaves the row claimed.
  abbrev pub IsDispatched : Answers → JobOutbox → JobOutbox → Type 0
  IsDispatched answers job row =
      ((answers.publish ≡ ok tt)
        × (answers.update ≡ ok tt)
        × (row
            ≡ record job { status = published; published_at = some written; updated_at = written }))
      ⊎ ((error : Thrown) × Fails answers error
          × (answers.recover ≡ ok tt)
          × IsFailed error job row)
      ⊎ ((error : Thrown) × (refusal : Thrown) × Fails answers error
          × (answers.recover ≡ err refusal)
          × (row ≡ job))

  module _ (saves : Saves JobOutbox job_id) (to_iso_string : ℕ → String) where
    recovered-IsFailed :
        (error : Thrown) (job : JobOutbox)
        → IsFailed error job (recovered saves options to_iso_string now written error job)
    unfolding recovered mark_dead schedule_retry should_mark_dead next_attempt_at
    recovered-IsFailed error job =
        let one_less : job.attempt_count + 1 - 1 ≡ job.attempt_count = omega arith in
        elim (Bool-cases (leb options.outbox_max_attempts (job.attempt_count + 1))) [
          | inl last ↦ inl (ground arith, ground arith)
          | inr more ↦ inr (ground arith, rw more (rw one_less refl))
        ]

    recovered-id :
        (error : Thrown) (job : JobOutbox)
        → (recovered saves options to_iso_string now written error job).id ≡ job.id
    unfolding recovered mark_dead schedule_retry
    recovered-id error job = ground arith

    stored :
        (id : String) (row : JobOutbox) (jobs : List JobOutbox)
        → row.id ≡ id
        → find_by_id id (saves.save row jobs) ≡ some row
    stored id row jobs own = ground (arith, saves.find_by-save id row jobs, eq_iff row.id id)

    published_row :
        (publish update recover : Result Thrown (Unit {0})) (id : String) (job : JobOutbox)
        (jobs : List JobOutbox)
        → job.id ≡ id
        → find_by_id id jobs ≡ some job
        → let answers : Answers = record {
          publish = publish;
          update = update;
          recover = recover;
        } in
          (row : JobOutbox) × (find_by_id id
              (publish_claimed saves options to_iso_string answers now written job jobs).jobs
            ≡ some row)
          × IsDispatched answers job row
    unfolding publish_claimed mark_published
    published_row (ok _) (ok _) recover id job jobs own found =
        (mark_published written job, stored id _ jobs own, inl (refl, refl, refl))
    published_row (err e) update (ok _) id job jobs own found = (
      recovered saves options to_iso_string now written e job,
      stored id _ jobs (recovered-id e job ∙ own),
      inr (inl (e, inl refl, refl, recovered-IsFailed e job)),
    )
    published_row (ok _) (err e) (ok _) id job jobs own found = (
      recovered saves options to_iso_string now written e job,
      stored id _ jobs (recovered-id e job ∙ own),
      inr (inl (e, inr (refl, refl), refl, recovered-IsFailed e job)),
    )
    published_row (err e) update (err f) id job jobs own found =
        (job, found, inr (inr (e, f, inl refl, refl, refl)))
    published_row (ok _) (err e) (err f) id job jobs own found =
        (job, found, inr (inr (e, f, inr (refl, refl), refl, refl)))

    -- A dispatch leaves a claimed job published if the transport and the update after it answer well; else,
    -- if the update of the recovery succeeds, dead at the last attempt and before it pending again, with
    -- one attempt more, the error's text and the delay of the retry policy; else as it was.
    pub dispatch_claimed_job-row :
        (answers : Answers) (id : String) (jobs : List JobOutbox) (job : JobOutbox)
        → find_by_id id jobs ≡ some job
        → job.status ≡ claimed
        → (row : JobOutbox) × (find_by_id id
              (dispatch_claimed_job saves options to_iso_string answers now written id jobs).jobs
            ≡ some row)
          × IsDispatched answers job row
    dispatch_claimed_job-row answers id jobs job found c =
        let run =
          dispatch-publish_claimed saves options to_iso_string now written answers id jobs job found
            c in
        let (row, there, kind) =
          published_row answers.publish answers.update answers.recover id job jobs
            (find_by-key job_id id jobs found) found in
        (row, ap (λ d. find_by_id id d.jobs) run ∙ there, kind)

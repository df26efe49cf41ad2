-- ===== src/Jobs/Relay.antt =====
-- src/modules/jobs/application/outbox-relay.service.ts, and the loop of
-- src/modules/jobs/infrastructure/outbox/outbox-relay.worker.ts.
pub mod Outcomes
pub mod Rows
pub mod Settled
mod Tests
use hexagonal.Base.{
  ℕ, zero, suc, ◌+◌, String, Bool, true, false, not, Option, none, some, List, [], ◌∷◌, map,
  if◌then◌else◌, Result, ok, err,
}
use hexagonal.Table.{Saves}
use hexagonal.Jobs.Errors.{Thrown, message_or}
use hexagonal.Jobs.Entity.{
  JobOutbox, claimed, same_status, AsyncJobEnvelope, to_envelope, mark_published, mark_dead,
  schedule_retry,
}
use hexagonal.Jobs.Policy.{JobsRuntimeOptions, should_mark_dead, next_attempt_at}
use hexagonal.Jobs.Repository.{job_id, find_by_id, claim_pending_batch}

-- What the transport is handed.
pub record PublishCommand : Type 0 where
  pub envelope : AsyncJobEnvelope
  pub group_key : String
  pub deduplication_key : String

-- What the transport and the database answer in one dispatch: to the publishing, to the update
-- inside `try`, and to the update inside `catch`.
pub record Answers : Type 0 where
  pub publish : Result Thrown (Unit {0})
  pub update : Result Thrown (Unit {0})
  pub recover : Result Thrown (Unit {0})

-- How a dispatch ends: its result, the table, and the command that the transport was handed.
pub record Dispatched : Type 0 where
  pub result : Result Thrown (Unit {0})
  pub jobs : List JobOutbox
  pub sent : Option PublishCommand

module _ (saves : Saves JobOutbox job_id) (options : JobsRuntimeOptions)
    (to_iso_string : ℕ → String) where
  abbrev command : JobOutbox → PublishCommand
  command job = record {
    envelope = to_envelope to_iso_string job;
    group_key = job.group_key;
    deduplication_key = job.deduplication_key;
  }

  -- The row that the `catch` block writes; it reads the clock for the next attempt, `now`, and for
  -- the time of the update, `written`.
  unfoldable pub recovered : (now written : ℕ) → Thrown → JobOutbox → JobOutbox
  unfolding should_mark_dead
  recovered now written error job =
      let error_message = message_or "Unknown async transport publish error" error in
      let next_attempt_count = job.attempt_count + 1 in
      if should_mark_dead options next_attempt_count
      then mark_dead written error_message job
      else schedule_retry written error_message (next_attempt_at options next_attempt_count now) job

  -- `await repository.update(job)`, as the database answers.
  abbrev write :
      Result Thrown (Unit {0})
      → JobOutbox
      → List JobOutbox
      → Result Thrown (Unit {0}) × List JobOutbox
  write (ok _) job jobs = (ok tt, saves.save job jobs)
  write (err error) job jobs = (err error, jobs)

  catch_error :
      Result Thrown (Unit {0})
      → (now written : ℕ) → Thrown
      → JobOutbox
      → List JobOutbox
      → Dispatched
  unfolding recovered
  catch_error answer now written error job jobs =
      let (result, after) = write answer (recovered now written error job) jobs in
      record { result = result; jobs = after; sent = some (command job) }

  -- The `try` block and its `catch`.
  pub publish_claimed : Answers → (now written : ℕ) → JobOutbox → List JobOutbox → Dispatched
  unfolding catch_error
  publish_claimed answers now written job jobs = elim answers.publish [
    | err error ↦ catch_error answers.recover now written error job jobs
    | ok _ ↦ elim answers.update [
      | err error ↦ catch_error answers.recover now written error job jobs
      | ok _ ↦ record {
        result = ok tt;
        jobs = saves.save (mark_published written job) jobs;
        sent = some (command job);
      }
    ]
  ]

  unfoldable pub dispatch_claimed_job :
      Answers → (now written : ℕ) → String → List JobOutbox → Dispatched
  unfolding publish_claimed
  dispatch_claimed_job answers now written id jobs = elim (find_by_id id jobs) [
    | none ↦ record { result = ok tt; jobs = jobs; sent = none }
    | some job ↦
        if not (same_status job.status claimed)
        then record { result = ok tt; jobs = jobs; sent = none }
        else publish_claimed answers now written job jobs
  ]

  -- `claimPendingBatch` of the service.
  unfoldable pub claim_batch :
      (locked : JobOutbox → Bool) (limit now db_now : ℕ)
      → List JobOutbox
      → List JobOutbox × List String
  claim_batch locked limit now db_now jobs =
      let (after, claimed_jobs) = claim_pending_batch options locked limit now db_now jobs in
      (after, map job_id claimed_jobs)

  -- The `for` loop of the worker: `fuel` jobs are dispatched before the worker is told to stop, and
  -- an exception leaves the loop. Each job has its own answers and clock.
  unfoldable pub dispatch_batch :
      (answers : String → Answers) (clock : String → ℕ) (fuel : ℕ)
      → List String
      → List JobOutbox
      → Result Thrown (Unit {0}) × List JobOutbox
  dispatch_batch answers clock fuel [] jobs = (ok tt, jobs)
  dispatch_batch answers clock zero (id ∷ ids) jobs = (ok tt, jobs)
  dispatch_batch answers clock (suc fuel) (id ∷ ids) jobs =
      let done = dispatch_claimed_job (answers id) (clock id) (clock id) id jobs in
      let rest = dispatch_batch answers clock fuel ids done.jobs in
      elim done.result [ ok _ ↦ rest | err error ↦ (err error, done.jobs) ]

-- ===== src/Jobs/Inspection.antt =====
-- src/modules/jobs/application/outbox-inspection.service.ts.
use hexagonal.Base.{
  ℕ, ◌+◌, ◌≡◌, String, Option, List, [], ◌∷◌, map, length, take, leb, filter, arith, if◌then◌else◌,
}
use hexagonal.Base.Sort.{length-sort_by}
use hexagonal.Jobs.Entity.{
  JobOutboxStatus, pending, claimed, published, completed, dead, same_status, JobOutbox,
}
use hexagonal.Jobs.Repository.{find_by_status}

pub record OutboxDeadJobSummary : Type 0 where
  pub id : String
  pub type : String
  pub attempt_count : ℕ
  pub last_error : Option String
  pub updated_at : String

pub record Counts : Type 0 where
  pub pending : ℕ
  pub claimed : ℕ
  pub published : ℕ
  pub completed : ℕ
  pub dead : ℕ
  pub total : ℕ

pub record OutboxInspectionSnapshot : Type 0 where
  pub counts : Counts
  pub dead_jobs : List OutboxDeadJobSummary

-- `sort((left, right) => right.updatedAt - left.updatedAt)`: stable, the latest first.
abbrev insert_latest : JobOutbox → List JobOutbox → List JobOutbox
insert_latest job [] = job ∷ []
insert_latest job (other ∷ jobs) =
    if leb other.updated_at job.updated_at
    then job ∷ other ∷ jobs
    else other ∷ insert_latest job jobs

abbrev sort_latest : List JobOutbox → List JobOutbox
sort_latest [] = []
sort_latest (job ∷ jobs) = insert_latest job (sort_latest jobs)

module _ (to_iso_string : ℕ → String) where
  unfoldable pub to_dead_job_summary : JobOutbox → OutboxDeadJobSummary
  to_dead_job_summary job = record {
    id = job.id;
    type = job.type;
    attempt_count = job.attempt_count;
    last_error = job.last_error;
    updated_at = to_iso_string job.updated_at;
  }

  -- The default of `dead_limit` is 10.
  unfoldable pub inspect : (dead_limit : ℕ) → List JobOutbox → OutboxInspectionSnapshot
  unfolding find_by_status
  inspect dead_limit jobs =
      let pending_count = length (find_by_status pending jobs) in
      let claimed_count = length (find_by_status claimed jobs) in
      let published_count = length (find_by_status published jobs) in
      let completed_count = length (find_by_status completed jobs) in
      let dead_rows = find_by_status dead jobs in
      record {
        counts = record {
          pending = pending_count;
          claimed = claimed_count;
          published = published_count;
          completed = completed_count;
          dead = length dead_rows;
          total =
              pending_count + claimed_count + published_count + completed_count + length dead_rows;
        };
        dead_jobs = map to_dead_job_summary (take dead_limit (sort_latest dead_rows));
      }

  length-find_by_status :
      (status : JobOutboxStatus) (jobs : List JobOutbox)
      → length (find_by_status status jobs)
        ≡ length (filter (λ job. same_status job.status status) jobs)
  unfolding find_by_status
  length-find_by_status status jobs =
      length-sort_by (λ job. job.created_at) (filter (λ job. same_status job.status status) jobs)

  every_status :
      (jobs : List JobOutbox)
      → length (filter (λ job. same_status job.status pending) jobs)
          + length (filter (λ job. same_status job.status claimed) jobs)
          + length (filter (λ job. same_status job.status published) jobs)
          + length (filter (λ job. same_status job.status completed) jobs)
          + length (filter (λ job. same_status job.status dead) jobs)
        ≡ length jobs
  every_status [] = omega arith
  every_status (job ∷ jobs) = ground (arith, every_status jobs)

  -- The total of an inspection is the number of rows: each job is counted under one status.
  pub inspect-total :
      (dead_limit : ℕ) (jobs : List JobOutbox)
      → (inspect dead_limit jobs).counts.total ≡ length jobs
  unfolding inspect
  inspect-total dead_limit jobs = omega (
    arith,
    every_status jobs,
    length-find_by_status pending jobs,
    length-find_by_status claimed jobs,
    length-find_by_status published jobs,
    length-find_by_status completed jobs,
    length-find_by_status dead jobs,
  )

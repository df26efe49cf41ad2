-- ===== src/Jobs/Cleanup.antt =====
-- src/modules/jobs/application/outbox-cleanup.service.ts.
pub mod Kept
pub mod Preview
use hexagonal.Base.{ℕ, ◌+◌, ◌-◌, ◌*◌, String, Bool, List, map, ltb, length, take, filter, ◌≡◌}
use hexagonal.Base.Sort.{sort_by}
use hexagonal.Jobs.Entity.{JobOutboxStatus, pending, claimed, published, completed, dead, JobOutbox}
use hexagonal.Jobs.Policy.{JobsRuntimeOptions}
use hexagonal.Jobs.Repository.{job_id, find_by_status, delete_by_status_older_than}

pub record OutboxCleanupResult : Type 0 where
  pub published_deleted : ℕ
  pub completed_deleted : ℕ
  pub dead_deleted : ℕ
  pub total_deleted : ℕ

pub record OutboxCleanupPreview : Type 0 where
  pub published_candidate_ids : List String
  pub completed_candidate_ids : List String
  pub dead_candidate_ids : List String
  pub total_candidates : ℕ

unfoldable pub retention_hours : JobsRuntimeOptions → JobOutboxStatus → ℕ
retention_hours options published = options.outbox_retention_published_hours
retention_hours options completed = options.outbox_retention_completed_hours
retention_hours options _ = options.outbox_retention_dead_hours

-- A cutoff before the epoch is 0: no time lies before either.
unfoldable pub resolve_cutoff : JobsRuntimeOptions → JobOutboxStatus → (now : ℕ) → ℕ
unfolding retention_hours
resolve_cutoff options status now = now - retention_hours options status * 60 * 60 * 1000

module _ (options : JobsRuntimeOptions) where
  unfoldable pub delete_by_status :
      JobOutboxStatus → (now : ℕ) → List JobOutbox → List JobOutbox × ℕ
  delete_by_status status now =
      delete_by_status_older_than status (resolve_cutoff options status now)
        options.outbox_cleanup_batch_size

  unfoldable pub cleanup_once : (now : ℕ) → List JobOutbox → List JobOutbox × OutboxCleanupResult
  cleanup_once now jobs =
      let (jobs₁, published_deleted) = delete_by_status published now jobs in
      let (jobs₂, completed_deleted) = delete_by_status completed now jobs₁ in
      let (jobs₃, dead_deleted) = delete_by_status dead now jobs₂ in
      (
        jobs₃,
        record {
          published_deleted = published_deleted;
          completed_deleted = completed_deleted;
          dead_deleted = dead_deleted;
          total_deleted = published_deleted + completed_deleted + dead_deleted;
        },
      )

  unfoldable pub preview_by_status : JobOutboxStatus → (now : ℕ) → List JobOutbox → List String
  preview_by_status status now jobs = map job_id (
      take options.outbox_cleanup_batch_size (
        sort_by (λ job. job.updated_at)
          (filter (λ job. ltb job.updated_at (resolve_cutoff options status now))
            (find_by_status status jobs))))

  unfoldable pub preview_cleanup : (now : ℕ) → List JobOutbox → OutboxCleanupPreview
  preview_cleanup now jobs =
      let published_ids = preview_by_status published now jobs in
      let completed_ids = preview_by_status completed now jobs in
      let dead_ids = preview_by_status dead now jobs in
      record {
        published_candidate_ids = published_ids;
        completed_candidate_ids = completed_ids;
        dead_candidate_ids = dead_ids;
        total_candidates = length published_ids + length completed_ids + length dead_ids;
      }

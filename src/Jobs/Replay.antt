-- ===== src/Jobs/Replay.antt =====
-- src/modules/jobs/application/outbox-replay.service.ts.
pub mod Dead
use hexagonal.Base.{
  ℕ, String, Bool, Option, none, some, get_or, List, [], ◌∷◌, map, take, filter, includes, Result,
  ok,
}
use hexagonal.Base.Sort.{sort_by}
use hexagonal.Jobs.Errors.{Thrown}
use hexagonal.Jobs.Entity.{dead, JobOutbox}
use hexagonal.Jobs.Repository.{job_id, find_by_status, replay_dead_batch, replay_dead_by_ids}

pub record ReplayDeadJobsCommand : Type 0 where
  pub ids : Option (List String)
  pub limit : Option ℕ

-- `command.ids && command.ids.length > 0`, and then the ids.
abbrev pub requested_ids : Option (List String) → Option (List String)
requested_ids none = none
requested_ids (some []) = none
requested_ids (some (id ∷ ids)) = some (id ∷ ids)

unfoldable pub replay_dead_jobs :
    (cast : String → Result Thrown String)
    → ReplayDeadJobsCommand
    → (now db_now : ℕ) → List JobOutbox
    → List JobOutbox × Result Thrown (List String)
replay_dead_jobs cast command now db_now jobs = elim (requested_ids command.ids) [
  | some ids ↦ replay_dead_by_ids cast ids now db_now jobs
  | none ↦
      let (after, replayed) = replay_dead_batch (get_or command.limit 100) now db_now jobs in
      (after, ok replayed)
]

-- The `Set` of requested ids is asked for membership only, of texts that are not cast.
unfoldable pub preview_dead_jobs : ReplayDeadJobsCommand → List JobOutbox → List String
preview_dead_jobs command jobs = elim (requested_ids command.ids) [
  | some ids ↦ map job_id (filter (λ job. includes job.id ids) (find_by_status dead jobs))
  | none ↦
      map job_id (
        take (get_or command.limit 100)
          (sort_by (λ job. job.updated_at) (find_by_status dead jobs)))
]

-- ===== src/Jobs/Repository.antt =====
-- src/modules/jobs/infrastructure/persistence/typeorm/repositories/job-outbox.typeorm-repository.ts
-- and job-execution-receipt.typeorm-repository.ts: the tables, and each statement on them.
-- `RETURNING` and `ORDER BY` leave the order of equals open; here it is the order of the table.
-- A threshold before the epoch is 0, under which no time lies either.
pub mod Selection
pub mod Claim
pub mod Exclusive
use hexagonal.Base.{
  ℕ, zero, ◌+◌, ◌-◌, String, Bool, true, false, not, ◌&&◌, ◌||◌, Option, none, some, List, [], ◌∷◌,
  map, ◌==◌, ◌≡◌, ltb, leb, if◌then◌else◌, length, take, filter, includes, Result, ok, err, ◌>>=◌,
}
use hexagonal.Base.Sort.{sort_by}
use hexagonal.Table.{find_by, update_where, delete_where}
use hexagonal.Jobs.Errors.{Thrown}
use hexagonal.Jobs.Entity.{
  JobOutboxStatus, pending, claimed, published, completed, dead, same_status, JobOutbox,
  JobExecutionReceipt,
}
use hexagonal.Jobs.Policy.{JobsRuntimeOptions}

abbrev pub job_id : JobOutbox → String
job_id job = job.id

abbrev pub find_by_id : String → List JobOutbox → Option JobOutbox
find_by_id = find_by job_id

unfoldable pub find_by_status : JobOutboxStatus → List JobOutbox → List JobOutbox
find_by_status status jobs =
    sort_by (λ job. job.created_at) (filter (λ job. same_status job.status status) jobs)

-- The `WHERE` clause of `claimable`.
unfoldable pub is_claimable : JobsRuntimeOptions → (now : ℕ) → JobOutbox → Bool
is_claimable options now job =
    let stale_claim_threshold = now - options.outbox_claim_timeout_ms in
    same_status job.status pending && leb job.next_attempt_at now
    || same_status job.status claimed && ltb job.updated_at stale_claim_threshold

-- The rows that `claimable` selects; `locked` tells the rows that other transactions lock.
unfoldable pub claimable :
    JobsRuntimeOptions
    → (locked : JobOutbox → Bool) (limit now : ℕ) → List JobOutbox
    → List JobOutbox
unfolding is_claimable
claimable options locked limit now jobs = take limit (
    sort_by (λ job. job.created_at)
      (filter (λ job. is_claimable options now job && not (locked job)) jobs))

-- Whether a row is joined with a selection by its primary key.
abbrev pub is_selected : List JobOutbox → JobOutbox → Bool
is_selected chosen job = includes job.id (map job_id chosen)

-- The `SET` clause of the claim; `db_now` is the database's `now()`.
unfoldable pub set_claimed : (db_now : ℕ) → JobOutbox → JobOutbox
set_claimed db_now job = record job { status = claimed; updated_at = db_now }

unfoldable pub claim_pending_batch :
    JobsRuntimeOptions
    → (locked : JobOutbox → Bool) (limit now db_now : ℕ) → List JobOutbox
    → List JobOutbox × List JobOutbox
unfolding claimable set_claimed
claim_pending_batch options locked limit now db_now jobs =
    let chosen = claimable options locked limit now jobs in
    let after = update_where (is_selected chosen) (set_claimed db_now) jobs in
    (after, filter (is_selected chosen) after)

-- The `SET` clause of both replays.
unfoldable pub set_replayed : (now db_now : ℕ) → JobOutbox → JobOutbox
set_replayed now db_now job = record job {
  status = pending;
  attempt_count = 0;
  next_attempt_at = now;
  published_at = none;
  last_error = none;
  updated_at = db_now;
}

unfoldable pub replayable : (limit : ℕ) → List JobOutbox → List JobOutbox
replayable limit jobs =
    take limit (sort_by (λ job. job.updated_at) (filter (λ job. same_status job.status dead) jobs))

unfoldable pub replay_dead_batch :
    (limit now db_now : ℕ) → List JobOutbox → List JobOutbox × List String
unfolding replayable set_replayed
replay_dead_batch limit now db_now jobs =
    let chosen = replayable limit jobs in
    (
      update_where (is_selected chosen) (set_replayed now db_now) jobs,
      map job_id (filter (is_selected chosen) jobs),
    )

-- The database's `::uuid[]`: of each text its canonical form, or the error of a text that is no UUID.
abbrev pub cast_uuids :
    (cast : String → Result Thrown String) → List String → Result Thrown (List String)
cast_uuids cast [] = ok []
cast_uuids cast (id ∷ ids) = do uuid ← cast id; uuids ← cast_uuids cast ids; ok (uuid ∷ uuids)

-- The ids are cast; the key of a row is canonical.
abbrev pub is_dead_among : (uuids : List String) → JobOutbox → Bool
is_dead_among uuids job = same_status job.status dead && includes job.id uuids

-- For no ids no statement is sent; if the cast throws, no row is written.
unfoldable pub replay_dead_by_ids :
    (cast : String → Result Thrown String)
    → List String
    → (now db_now : ℕ) → List JobOutbox
    → List JobOutbox × Result Thrown (List String)
unfolding set_replayed
replay_dead_by_ids cast [] now db_now jobs = (jobs, ok [])
replay_dead_by_ids cast (i ∷ is) now db_now jobs = elim (cast_uuids cast (i ∷ is)) [
  | err error ↦ (jobs, err error)
  | ok uuids ↦ (
    update_where (is_dead_among uuids) (set_replayed now db_now) jobs,
    ok (map job_id (filter (is_dead_among uuids) jobs)),
  )
]

unfoldable pub deletable :
    JobOutboxStatus → (older_than limit : ℕ) → List JobOutbox → List JobOutbox
deletable status older_than limit jobs = take limit (
    sort_by (λ job. job.updated_at)
      (filter (λ job. same_status job.status status && ltb job.updated_at older_than) jobs))

unfoldable pub delete_by_status_older_than :
    JobOutboxStatus → (older_than limit : ℕ) → List JobOutbox → List JobOutbox × ℕ
unfolding deletable
delete_by_status_older_than status older_than limit jobs =
    let chosen = deletable status older_than limit jobs in
    (delete_where (is_selected chosen) jobs, length (filter (is_selected chosen) jobs))

-- `findByJobIdAndHandler` of the receipts.
abbrev pub find_receipt :
    (job_id handler : String) → List JobExecutionReceipt → Option JobExecutionReceipt
find_receipt job_id handler [] = none
find_receipt job_id handler (r ∷ t) =
    if r.job_id == job_id && r.handler == handler then some r else find_receipt job_id handler t

-- `repository.save` on the receipts, whose primary key is the pair of job and handler.
pub record ReceiptSaves : Type 0 where
  pub save : JobExecutionReceipt → List JobExecutionReceipt → List JobExecutionReceipt
  pub find_receipt-save :
      (job_id handler : String) (r : JobExecutionReceipt) (t : List JobExecutionReceipt)
      → find_receipt job_id handler (save r t) ≡ (
          if r.job_id == job_id && r.handler == handler
          then some r
          else find_receipt job_id handler t)

-- ===== src/Jobs/Tests.antt =====
-- The theorems on the jobs at concrete inputs.
use hexagonal.Base.{
  ◌≤◌, ◌≡◌, refl, ◌⊎◌, String, Bool, false, none, some, List, [], ◌∷◌, map, Memᴰ, All, length,
  includes, ◌==◌, if◌then◌else◌, Result, ok, err, arith,
}
use hexagonal.Table.{HasUniqueKeys}
use hexagonal.Table.Upsert.{upserting}
use hexagonal.Jobs.Entity.{JobOutbox}
use hexagonal.Jobs.Repository.{
  job_id, find_by_id, find_by_status, replay_dead_by_ids, is_claimable, claimable,
  claim_pending_batch,
}
use hexagonal.Jobs.Repository.Claim.{claim_oldest_first}
use hexagonal.Jobs.Repository.Exclusive.{claim_exclusive}
use hexagonal.Jobs.Cleanup.{cleanup_once, preview_cleanup}
use hexagonal.Jobs.Cleanup.Kept.{IsExpired, cleanup_once-row}
use hexagonal.Jobs.Cleanup.Preview.{preview_cleanup-cleanup_once}
use hexagonal.Jobs.Errors.{Thrown, other_error}
use hexagonal.Jobs.Entity.{claimed, pending, completed}
use hexagonal.Jobs.Replay.{ReplayDeadJobsCommand, replay_dead_jobs, preview_dead_jobs}
use hexagonal.Jobs.Replay.Dead.{IsReplayed, replay_dead_jobs-row, replay_dead_jobs-preview}
use hexagonal.Jobs.Relay.{dispatch_claimed_job}
use hexagonal.Jobs.Relay
use hexagonal.Jobs.Relay.Rows.{IsDispatched, dispatch_claimed_job-row}
use hexagonal.Jobs.Store.{admit}
use hexagonal.Jobs.Email
use hexagonal.Jobs.Email.Once.{handle_atomic, handle_completes, deliveries_at_most_once}
use hexagonal.Jobs.WebhookDelivery
use hexagonal.Jobs.WebhookDelivery.{WebhookDeliveryJobPayload, failed, thrown}
use hexagonal.Jobs.WebhookDelivery.Once.{failure_keeps_job, webhook_deliveries_at_most_once}
use hexagonal.Jobs.Samples.{
  options, welcome, job, late_job, claimed_job, dead_job, old_job, table, ports, store, iso,
  mail_up, hook_up,
}

abbrev free : JobOutbox → Bool
free job = false

batch_test : map job_id (claim_pending_batch options free 1 100 100 table).1 ≡ "a" ∷ []
unfolding claim_pending_batch
batch_test = refl

unique : HasUniqueKeys job_id table
unique = (refl, (refl, (refl, (refl, (refl, tt)))))

claim_oldest_first_example :
    let batch = claimable options free 1 100 table in
    Memᴰ late_job batch ⊎ ((length batch ≡ 1) × All (λ taken. taken.created_at ≤ 20) batch)
unfolding is_claimable
claim_oldest_first_example =
    claim_oldest_first options free 1 100 table late_job (Memᴰ.tail (Memᴰ.head refl)) refl refl

-- The job of the first claim, in a table from which the others are gone.
abbrev held_job : JobOutbox
held_job = record (job "a" pending 0 10 10) { status = claimed; updated_at = 100 }

abbrev held_table : List JobOutbox
held_table = held_job ∷ []

claim_exclusive_example :
    includes "a" (map job_id (claim_pending_batch options free 10 900 900 held_table).1) ≡ false
unfolding claim_pending_batch
claim_exclusive_example =
    claim_exclusive options free free 1 100 100 10 900 900 table held_table unique (refl, tt)
      (omega arith) held_job (Memᴰ.head refl) refl

cleanup_once-row_example :
    let after = (cleanup_once options 9000000 table).0 in
    (find_by_id "e" after ≡ some old_job)
    ⊎ ((find_by_id "e" after ≡ none) × IsExpired options 9000000 old_job)
cleanup_once-row_example = cleanup_once-row options 9000000 table unique "e" old_job refl

preview_cleanup-cleanup_once_example :
    let preview = preview_cleanup options 9000000 table in
    let result = (cleanup_once options 9000000 table).1 in
    (result.published_deleted ≡ length preview.published_candidate_ids)
    × (result.completed_deleted ≡ length preview.completed_candidate_ids)
    × (result.dead_deleted ≡ length preview.dead_candidate_ids)
    × (result.total_deleted ≡ preview.total_candidates)
preview_cleanup-cleanup_once_example = preview_cleanup-cleanup_once options 9000000 table unique

abbrev replay_d : ReplayDeadJobsCommand
replay_d = record { ids = some ("d" ∷ "a" ∷ []); limit = none }

-- Ids of one letter, of which the database writes `D` as `d`.
abbrev cast : String → Result Thrown String
cast id = ok (if id == "D" then "d" else id)

cast_canonical : (id : String) → Memᴰ id ("d" ∷ "a" ∷ []) → cast id ≡ ok id
cast_canonical id (Memᴰ.head e) = rw e refl
cast_canonical id (Memᴰ.tail (Memᴰ.head e)) = rw e refl
cast_canonical id (Memᴰ.tail (Memᴰ.tail m)) = elim m [ ]

replay_dead_jobs-row_example :
    IsReplayed 50 51 dead_job (find_by_id "d" (replay_dead_jobs cast replay_d 50 51 table).0)
replay_dead_jobs-row_example =
    replay_dead_jobs-row cast 50 51 table unique replay_d "d" dead_job refl

replay_dead_jobs-preview_example :
    (replayed : List String) × ((replay_dead_jobs cast replay_d 50 51 table).1 ≡ ok replayed)
    × (length replayed ≡ length (preview_dead_jobs replay_d table))
replay_dead_jobs-preview_example =
    replay_dead_jobs-preview cast 50 51 table unique replay_d cast_canonical

-- The database finds an id in capitals, which the preview does not list.
capital_id :
    let command : ReplayDeadJobsCommand = record { ids = some ("D" ∷ []); limit = none } in
    ((replay_dead_jobs cast command 50 51 table).1 ≡ ok ("d" ∷ []))
    × (preview_dead_jobs command table ≡ [])
unfolding replay_dead_jobs replay_dead_by_ids preview_dead_jobs find_by_status
capital_id = (refl, refl)

abbrev refused : Relay.Answers
refused = record { publish = err (other_error "down"); update = ok tt; recover = ok tt }

dispatch_claimed_job-row_example :
    (row : JobOutbox) × (find_by_id "c"
        (dispatch_claimed_job (upserting job_id) options iso refused 70 71 "c" table).jobs
      ≡ some row)
    × IsDispatched options 70 71 refused claimed_job row
dispatch_claimed_job-row_example =
    dispatch_claimed_job-row options 70 71 (upserting job_id) iso refused "c" table claimed_job refl
      refl

abbrev mail_down : Email.Answers
mail_down = record { reads = ok tt; send = err (other_error "smtp"); writes = ok tt }

handle_completes_example :
    (after : JobOutbox) × (find_by_id "c"
        (Email.handle ports mail_up 80 "c" welcome store).store.jobs
      ≡ some after)
    × (after.status ≡ completed)
    × (after.attempt_count ≡ 0)
unfolding Email.handle admit
handle_completes_example =
    handle_completes ports "c" mail_up 80 welcome store claimed_job refl (λ e. cc) refl

deliveries_at_most_once_example :
    Email.Once.deliveries ports "c"
      ((mail_down, 80, welcome) ∷ (mail_up, 81, welcome) ∷ (mail_up, 82, welcome) ∷ [])
      store
    ≤ 1
deliveries_at_most_once_example =
    deliveries_at_most_once ports "c"
      ((mail_down, 80, welcome) ∷ (mail_up, 81, welcome) ∷ (mail_up, 82, welcome) ∷ []) store

abbrev event : WebhookDeliveryJobPayload
event = record {
  event_id = "v";
  event_type = "member.added";
  organization_id = "o";
  endpoint_id = "w";
  occurred_at = "now";
  payload = welcome;
}

abbrev hook_down : WebhookDelivery.Answers
hook_down = record {
  reads = ok tt;
  deliver = err (WebhookDelivery.retryable_error "503" (some 503));
  writes = ok tt;
}

webhook_deliveries_at_most_once_example :
    WebhookDelivery.Once.deliveries ports "c"
      ((hook_down, 80, event) ∷ (hook_up, 81, event) ∷ (hook_up, 82, event) ∷ [])
      store
    ≤ 1
webhook_deliveries_at_most_once_example =
    webhook_deliveries_at_most_once ports "c"
      ((hook_down, 80, event) ∷ (hook_up, 81, event) ∷ (hook_up, 82, event) ∷ []) store

-- ===== src/Jobs/Entity.antt =====
-- src/modules/jobs/domain/entities/job-outbox.entity.ts and job-execution-receipt.entity.ts.
-- A `Date` is its number of milliseconds; what `new Date()` reads is an argument.
use hexagonal.Base.{ℕ, ◌+◌, String, Bool, true, false, Option, none, some, get_or}
use hexagonal.Json.{Json}

pub data JobOutboxStatus : Type 0 where
  pending claimed published completed dead : JobOutboxStatus

-- `===` on statuses.
abbrev pub same_status : JobOutboxStatus → JobOutboxStatus → Bool
same_status pending pending = true
same_status claimed claimed = true
same_status published published = true
same_status completed completed = true
same_status dead dead = true
same_status _ _ = false

pub record CreateJobOutboxProps : Type 0 where
  pub id : String
  pub type : String
  pub payload : Json
  pub trace_id : Option String
  pub group_key : String
  pub deduplication_key : String
  pub next_attempt_at : Option ℕ

pub record JobOutbox : Type 0 where
  pub id : String
  pub type : String
  pub payload : Json
  pub trace_id : Option String
  pub status : JobOutboxStatus
  pub attempt_count : ℕ
  pub next_attempt_at : ℕ
  pub published_at : Option ℕ
  pub last_error : Option String
  pub group_key : String
  pub deduplication_key : String
  pub created_at : ℕ
  pub updated_at : ℕ

-- `AsyncJobEnvelope`; `version` is the literal 1. A payload may be `undefined`.
pub record AsyncJobEnvelope : Type 0 where
  pub job_id : String
  pub version : ℕ
  pub type : String
  pub payload : Option Json
  pub published_at : String
  pub trace_id : Option String

unfoldable pub create : (now : ℕ) → CreateJobOutboxProps → JobOutbox
create now props = record {
  id = props.id;
  type = props.type;
  payload = props.payload;
  trace_id = props.trace_id;
  status = pending;
  attempt_count = 0;
  next_attempt_at = get_or props.next_attempt_at now;
  published_at = none;
  last_error = none;
  group_key = props.group_key;
  deduplication_key = props.deduplication_key;
  created_at = now;
  updated_at = now;
}

-- `to_iso_string` is the runtime's `Date.prototype.toISOString`.
unfoldable pub to_envelope : (to_iso_string : ℕ → String) → JobOutbox → AsyncJobEnvelope
to_envelope to_iso_string job = record {
  job_id = job.id;
  version = 1;
  type = job.type;
  payload = some job.payload;
  published_at = to_iso_string (get_or job.published_at job.updated_at);
  trace_id = job.trace_id;
}

unfoldable pub mark_claimed : (now : ℕ) → JobOutbox → JobOutbox
mark_claimed now job = record job { status = claimed; updated_at = now }

unfoldable pub mark_published : (published_at : ℕ) → JobOutbox → JobOutbox
mark_published published_at job = record job {
  status = published;
  published_at = some published_at;
  updated_at = published_at;
}

unfoldable pub mark_completed : (now : ℕ) → JobOutbox → JobOutbox
mark_completed now job = record job { status = completed; updated_at = now }

unfoldable pub schedule_retry :
    (now : ℕ) (last_error : String) (next_attempt_at : ℕ) → JobOutbox → JobOutbox
schedule_retry now last_error next_attempt_at job = record job {
  status = pending;
  attempt_count = job.attempt_count + 1;
  next_attempt_at = next_attempt_at;
  last_error = some last_error;
  updated_at = now;
}

unfoldable pub mark_dead : (now : ℕ) (last_error : String) → JobOutbox → JobOutbox
mark_dead now last_error job = record job {
  status = dead;
  attempt_count = job.attempt_count + 1;
  last_error = some last_error;
  updated_at = now;
}

unfoldable pub replay : (now : ℕ) → JobOutbox → JobOutbox
replay now job = record job {
  status = pending;
  attempt_count = 0;
  next_attempt_at = now;
  published_at = none;
  last_error = none;
  updated_at = now;
}

pub record JobExecutionReceipt : Type 0 where
  pub job_id : String
  pub handler : String
  pub created_at : ℕ

unfoldable pub create_receipt : (now : ℕ) (job_id handler : String) → JobExecutionReceipt
create_receipt now job_id handler = record { job_id = job_id; handler = handler; created_at = now }

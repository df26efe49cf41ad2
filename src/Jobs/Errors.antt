-- ===== src/Jobs/Errors.antt =====
-- What code of the jobs throws: src/modules/jobs/application/errors/non-retryable-job.error.ts, the
-- other instances of `Error`, and values that are no instance of it.
use hexagonal.Base.{String}

pub data Thrown : Type 0 where
  non_retryable_job_error : String → Thrown
  other_error : String → Thrown
  no_error : Thrown

-- `error instanceof Error ? error.message : fallback`
abbrev pub message_or : String → Thrown → String
message_or fallback (non_retryable_job_error message) = message
message_or fallback (other_error message) = message
message_or fallback no_error = fallback

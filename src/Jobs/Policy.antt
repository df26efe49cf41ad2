-- ===== src/Jobs/Policy.antt =====
-- src/modules/jobs/application/job-outbox-retry-policy.service.ts and the options it reads.
-- The source computes `base * 2 ** k` in doubles, which rounds nothing below the cap: a product
-- that is rounded is far above any cap in milliseconds.
pub mod Delays
use hexagonal.Base.{ℕ, ◌+◌, ◌-◌, ◌*◌, ◌^◌, min, Bool, leb}

-- `JobsRuntimeOptions`, without the queue's address and the polling switches of the workers.
pub record JobsRuntimeOptions : Type 0 where
  pub outbox_batch_size : ℕ
  pub outbox_claim_timeout_ms : ℕ
  pub outbox_max_attempts : ℕ
  pub outbox_retry_base_ms : ℕ
  pub outbox_retry_max_ms : ℕ
  pub outbox_cleanup_batch_size : ℕ
  pub outbox_retention_published_hours : ℕ
  pub outbox_retention_completed_hours : ℕ
  pub outbox_retention_dead_hours : ℕ

unfoldable pub should_mark_dead : JobsRuntimeOptions → ℕ → Bool
should_mark_dead options next_attempt_count = leb options.outbox_max_attempts next_attempt_count

-- `Math.max(nextAttemptCount - 1, 0)` is the subtraction that stops at 0.
unfoldable pub next_attempt_at : JobsRuntimeOptions → (next_attempt_count now : ℕ) → ℕ
next_attempt_at options next_attempt_count now =
    let exponential_delay = options.outbox_retry_base_ms * 2 ^ (next_attempt_count - 1) in
    let delay_ms = min exponential_delay options.outbox_retry_max_ms in now + delay_ms

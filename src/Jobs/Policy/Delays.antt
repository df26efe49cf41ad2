-- ===== src/Jobs/Policy/Delays.antt =====
-- How the delay between two attempts grows.
use hexagonal.Base.{ℕ, ◌*◌, ◌^◌, min}
use hexagonal.Jobs.Policy.{JobsRuntimeOptions}

-- The exponent after one failure more.
abbrev delay : JobsRuntimeOptions → ℕ → ℕ
delay options k = min (options.outbox_retry_base_ms * 2 ^ k) options.outbox_retry_max_ms

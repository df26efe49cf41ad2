-- ===== src/Jobs/Relay/Tests.antt =====
-- The turns of a relay at a concrete outbox.
use hexagonal.Base.{◌≡◌, refl, false, some, List, [], ◌∷◌, arith, ok, err}
use hexagonal.Table.{Saves}
use hexagonal.Table.Upsert.{upserting}
use hexagonal.Jobs.Errors.{Thrown, no_error}
use hexagonal.Jobs.Entity.{JobOutbox, pending}
use hexagonal.Jobs.Repository.{job_id, find_by_id}
use hexagonal.Jobs.Samples.{options, job}
use hexagonal.Jobs.Relay.Settled.{Turn, turns, Runs, IsSettled, relay_settles}

abbrev saves : Saves JobOutbox job_id
saves = upserting job_id

abbrev refusals : Thrown → Turn
refusals thrown = record {
  locked = λ job. false;
  limit = 10;
  now = 100;
  db_now = 100;
  written = 101;
  answers = record { publish = err thrown; update = ok tt; recover = ok tt };
  others = λ jobs. jobs;
}

abbrev outbox : List JobOutbox
outbox = job "a" pending 2 10 10 ∷ []

turn_Runs : (thrown : Thrown) → Runs saves options (λ time. "now") "a" (refusals thrown) outbox
turn_Runs thrown = record {
  room = omega arith;
  due = λ found same. ground arith;
  unlocked = λ found same. refl;
  recovers = refl;
  apart = λ rows. refl;
  keeps_keys = λ rows unique. unique;
}

relay_settles_example :
    (row : JobOutbox) × (find_by_id "a"
        (turns saves options (λ time. "now") "a" (refusals no_error ∷ []) outbox)
      ≡ some row)
    × IsSettled saves options (λ time. "now") "a" row
relay_settles_example =
    relay_settles saves options (λ time. "now") "a" (refusals no_error ∷ []) outbox
      (job "a" pending 2 10 10) (refl, tt) refl refl (turn_Runs no_error, tt) (omega arith)
      (omega arith)

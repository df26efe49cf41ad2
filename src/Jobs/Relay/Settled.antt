-- ===== src/Jobs/Relay/Settled.antt =====
-- That src/modules/jobs/application/outbox-relay.service.ts is done with a job after finitely many turns.
use hexagonal.Base.{
  ℕ, suc, ◌+◌, ◌≤◌, ◌<◌, ◌≡◌, ◌≢◌, refl, ap, ◌∙◌, ◌⊎◌, inl, inr, String, Bool, true, false, not,
  ◌&&◌, some, List, [], ◌∷◌, arith, eq_iff, Result, ok, err, length, filter, leb, Bool-cases,
  length-take, length-filter-le,
}
use hexagonal.Base.Sort.{sort_by, length-sort_by}
use hexagonal.Table.{HasUniqueKeys, Saves, find_by_mem, find_by-key}
use hexagonal.Jobs.Errors.{Thrown}
use hexagonal.Jobs.Entity.{
  JobOutbox, pending, claimed, published, dead, mark_published, mark_dead, schedule_retry,
}
use hexagonal.Jobs.Policy.{JobsRuntimeOptions, should_mark_dead}
use hexagonal.Jobs.Repository.{
  job_id, find_by_id, is_claimable, claimable, set_claimed, claim_pending_batch,
}
use hexagonal.Jobs.Repository.Selection.{selected_of_mem}
use hexagonal.Jobs.Repository.Claim.{
  claim_oldest_first, claim-HasUniqueKeys, claim_pending_batch-picked, claim_pending_batch-row,
}
use hexagonal.Jobs.Relay.{Answers, recovered, publish_claimed, dispatch_claimed_job}
use hexagonal.Jobs.Relay.Outcomes.{
  dispatch_unclaimed, dispatch-publish_claimed, dispatch-HasUniqueKeys,
}

-- A claim, the dispatch of the job, and whatever else goes on until the next claim.
pub record Turn : Type 0 where
  pub locked : JobOutbox → Bool
  pub limit : ℕ
  pub now : ℕ
  pub db_now : ℕ
  pub written : ℕ
  pub answers : Answers
  pub others : List JobOutbox → List JobOutbox

module _ (saves : Saves JobOutbox job_id) (options : JobsRuntimeOptions)
    (to_iso_string : ℕ → String) (id : String) where
  unfoldable pub turn : Turn → List JobOutbox → List JobOutbox
  turn t jobs =
      let after = (claim_pending_batch options t.locked t.limit t.now t.db_now jobs).0 in
      t.others
        (dispatch_claimed_job saves options to_iso_string t.answers t.now t.written id after).jobs

  abbrev pub turns : List Turn → List JobOutbox → List JobOutbox
  turns [] jobs = jobs
  turns (t ∷ ts) jobs = turns ts (turn t jobs)

  -- The batch has room, the job is due and not locked, its last write succeeds, and the rest leaves its row.
  pub record Runs (t : Turn) (jobs : List JobOutbox) : Type 0 where
    pub room : length jobs < t.limit
    pub due : (job : JobOutbox) → find_by_id id jobs ≡ some job → job.next_attempt_at ≤ t.now
    pub unlocked : (job : JobOutbox) → find_by_id id jobs ≡ some job → t.locked job ≡ false
    pub recovers : t.answers.recover ≡ ok tt
    pub apart : (rows : List JobOutbox) → find_by_id id (t.others rows) ≡ find_by_id id rows
    pub keeps_keys :
        (rows : List JobOutbox) → HasUniqueKeys job_id rows → HasUniqueKeys job_id (t.others rows)

  abbrev pub AllRun : List Turn → List JobOutbox → Type 0
  AllRun [] jobs = Unit
  AllRun (t ∷ ts) jobs = Runs t jobs × AllRun ts (turn t jobs)

  -- The relay is done with the job.
  abbrev pub IsSettled : JobOutbox → Type 0
  IsSettled row = (row.status ≡ published) ⊎ (row.status ≡ dead)

  length-claimable-le :
      (locked : JobOutbox → Bool) (limit now : ℕ) (jobs : List JobOutbox)
      → length (claimable options locked limit now jobs) ≤ length jobs
  unfolding claimable
  length-claimable-le locked limit now jobs =
      let test = λ (j : JobOutbox). is_claimable options now j && not (locked j) in
      omega (
        arith,
        length-take limit (sort_by (λ j. j.created_at) (filter test jobs)),
        length-sort_by (λ (j : JobOutbox). j.created_at) (filter test jobs),
        length-filter-le test jobs,
      )

  pending_is_claimable :
      (now : ℕ) (job : JobOutbox)
      → job.status ≡ pending
      → job.next_attempt_at ≤ now
      → is_claimable options now job ≡ true
  unfolding is_claimable
  pending_is_claimable now job waits due = ground arith

  claims :
      (t : Turn) (jobs : List JobOutbox) (job : JobOutbox)
      → HasUniqueKeys job_id jobs
      → Runs t jobs
      → find_by_id id jobs ≡ some job
      → job.status ≡ pending
      → find_by_id id (claim_pending_batch options t.locked t.limit t.now t.db_now jobs).0
        ≡ some (set_claimed t.db_now job)
  claims t jobs job u runs found waits =
      elim (claim_oldest_first options t.locked t.limit t.now jobs job
        (find_by_mem job_id id jobs found)
        (pending_is_claimable t.now job waits (runs.due job found)) (runs.unlocked job found)) [
          | inl taken ↦
              claim_pending_batch-picked options t.locked t.limit t.now t.db_now jobs u id job found
                (selected_of_mem (claimable options t.locked t.limit t.now jobs) job taken)
          | inr (full, older) ↦
              let room = runs.room in
              absurd (omega (arith, full, room, length-claimable-le t.locked t.limit t.now jobs))
        ]

  -- A row that the `try` block or the `catch` block writes is done with, or waits for one attempt more.
  abbrev IsNext : JobOutbox → JobOutbox → Type 0
  IsNext job row =
      IsSettled row
      ⊎ ((row.status ≡ pending)
          × (row.attempt_count ≡ suc job.attempt_count)
          × (row.attempt_count < options.outbox_max_attempts))

  recovered-IsNext :
      (now db_now written : ℕ) (error : Thrown) (job : JobOutbox)
      → IsNext job
          (recovered saves options to_iso_string now written error (set_claimed db_now job))
  unfolding recovered set_claimed mark_dead schedule_retry should_mark_dead
  recovered-IsNext now db_now written error job =
      elim (Bool-cases (leb options.outbox_max_attempts (job.attempt_count + 1))) [
        | inl last ↦ inl (inr (ground arith))
        | inr more ↦ inr (ground arith, ground arith, ground arith)
      ]

  mark_published-status :
      (written : ℕ) (job : JobOutbox) → (mark_published written job).status ≡ published
  unfolding mark_published
  mark_published-status written job = refl

  written_row :
      (now db_now written : ℕ) (publish update : Result Thrown (Unit {0})) (job : JobOutbox)
      (jobs : List JobOutbox)
      → let answers : Answers = record { publish = publish; update = update; recover = ok tt } in
        (row : JobOutbox) × IsNext job row
        × (row.id ≡ job.id)
        × ((publish_claimed saves options to_iso_string answers now written
              (set_claimed db_now job)
              jobs).jobs
            ≡ saves.save row jobs)
  unfolding publish_claimed mark_published recovered mark_dead schedule_retry set_claimed
  written_row now db_now written (ok _) (ok _) job jobs =
      (mark_published written (set_claimed db_now job), inl (inl refl), refl, refl)
  written_row now db_now written (err e) update job jobs = (
    recovered saves options to_iso_string now written e (set_claimed db_now job),
    recovered-IsNext now db_now written e job,
    ground arith,
    refl,
  )
  written_row now db_now written (ok _) (err e) job jobs = (
    recovered saves options to_iso_string now written e (set_claimed db_now job),
    recovered-IsNext now db_now written e job,
    ground arith,
    refl,
  )

  set_claimed-lem : (db_now : ℕ) (job : JobOutbox) → ((set_claimed db_now job).status ≡ claimed)
  unfolding set_claimed
  set_claimed-lem db_now job = refl

  stored_row :
      (row : JobOutbox) (jobs : List JobOutbox)
      → row.id ≡ id
      → find_by_id id (saves.save row jobs) ≡ some row
  stored_row row jobs own = ground (arith, saves.find_by-save id row jobs, eq_iff row.id id)

  turn_pending :
      (t : Turn) (jobs : List JobOutbox) (job : JobOutbox)
      → HasUniqueKeys job_id jobs
      → Runs t jobs
      → find_by_id id jobs ≡ some job
      → job.status ≡ pending
      → (row : JobOutbox) × (find_by_id id (turn t jobs) ≡ some row) × IsNext job row
  unfolding turn
  turn_pending t jobs job u runs found waits =
      let after = (claim_pending_batch options t.locked t.limit t.now t.db_now jobs).0 in
      let taken = claims t jobs job u runs found waits in
      let (row, next, same_id, stored) =
        written_row t.now t.db_now t.written t.answers.publish t.answers.update job after in
      let run =
        dispatch-publish_claimed saves options to_iso_string t.now t.written t.answers id after
          (set_claimed t.db_now job) taken (set_claimed-lem t.db_now job) in
      let own : row.id ≡ id = same_id ∙ find_by-key job_id id jobs found in
      let saved = saves.find_by-save id row after in
      let dispatched : (dispatch_claimed_job saves options to_iso_string t.answers t.now t.written
            id after).jobs
          ≡ saves.save row after =
        ap (λ d. d.jobs) run
        ∙ ap
            (λ r.
              (publish_claimed saves options to_iso_string (record t.answers { recover = r }) t.now
                t.written (set_claimed t.db_now job) after).jobs)
            runs.recovers
        ∙ stored in
      let kept : find_by_id id (saves.save row after) ≡ some row = stored_row row after own in
      (row, runs.apart _ ∙ ap (find_by_id id) dispatched ∙ kept, next)

  not_claimable : (now : ℕ) (job : JobOutbox) → IsSettled job → is_claimable options now job ≢ true
  unfolding is_claimable
  not_claimable now job (inl p) h = absurd (ground arith)
  not_claimable now job (inr d) h = absurd (ground arith)

  turn_settled :
      (t : Turn) (jobs : List JobOutbox) (job : JobOutbox)
      → HasUniqueKeys job_id jobs
      → Runs t jobs
      → find_by_id id jobs ≡ some job
      → IsSettled job
      → find_by_id id (turn t jobs) ≡ some job
  unfolding turn
  turn_settled t jobs job u runs found settled =
      elim (claim_pending_batch-row options t.locked t.limit t.now t.db_now jobs u id job found) [
        | inr (taken, claimable_row, free_row) ↦
            absurd (not_claimable t.now job settled claimable_row)
        | inl left ↦
            let after = (claim_pending_batch options t.locked t.limit t.now t.db_now jobs).0 in
            let (same, unsent) =
              dispatch_unclaimed saves options to_iso_string t.now t.written t.answers id after job
                left
                (λ taken. elim settled [
                  | inl p ↦ absurd (ground arith)
                  | inr d ↦ absurd (ground arith)
                ]) in
            runs.apart _ ∙ ap (find_by_id id) same ∙ left
      ]

  turn-HasUniqueKeys :
      (t : Turn) (jobs : List JobOutbox)
      → HasUniqueKeys job_id jobs
      → Runs t jobs
      → HasUniqueKeys job_id (turn t jobs)
  unfolding turn
  turn-HasUniqueKeys t jobs u runs = runs.keeps_keys _ (
      dispatch-HasUniqueKeys saves options to_iso_string t.now t.written t.answers id _
        (claim-HasUniqueKeys options t.locked t.limit t.now t.db_now jobs u))

  stays_settled :
      (ts : List Turn) (jobs : List JobOutbox) (job : JobOutbox)
      → HasUniqueKeys job_id jobs
      → find_by_id id jobs ≡ some job
      → IsSettled job
      → AllRun ts jobs
      → find_by_id id (turns ts jobs) ≡ some job
  stays_settled [] jobs job u found settled runs = found
  stays_settled (t ∷ ts) jobs job u found settled (run, runs) =
      stays_settled ts (turn t jobs) job (turn-HasUniqueKeys t jobs u run)
        (turn_settled t jobs job u run found settled) settled runs

  -- A pending job of a table with unique ids is published or dead after the turns of a relay, whatever the
  -- transport and the update after it answer, if the turns are at least one and as many as are left of
  -- the job's attempts, the job is due in each, not locked, and the batch has room for all jobs, the update
  -- after a failure succeeds, and what else goes on leaves the job's row and the ids unique.
  pub relay_settles :
      (ts : List Turn) (jobs : List JobOutbox) (job : JobOutbox)
      → HasUniqueKeys job_id jobs
      → find_by_id id jobs ≡ some job
      → job.status ≡ pending
      → AllRun ts jobs
      → 1 ≤ length ts
      → options.outbox_max_attempts ≤ job.attempt_count + length ts
      → (row : JobOutbox) × (find_by_id id (turns ts jobs) ≡ some row) × IsSettled row
  relay_settles [] jobs job u found waits runs some_turn enough = absurd (omega arith)
  relay_settles (t ∷ ts) jobs job u found waits (run, runs) some_turn enough =
      let (row, after, next) = turn_pending t jobs job u run found waits in
      let u_after = turn-HasUniqueKeys t jobs u run in
      elim next [
        | inl settled ↦
            (row, stays_settled ts (turn t jobs) row u_after after settled runs, settled)
        | inr (again, one_more, under) ↦
            relay_settles ts (turn t jobs) row u_after after again runs
              (omega (arith, one_more, under, enough)) (omega (arith, one_more, enough))
      ]

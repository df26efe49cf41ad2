-- ===== src/Jobs/Relay/Outcomes.antt =====
-- How a dispatch ends.
use hexagonal.Base.{
  ℕ, ◌≡◌, ◌≢◌, refl, ◌⊎◌, inl, inr, String, none, some, List, arith, eq_iff, Result, ok, err,
  Option-cases, Bool-cases, true, false, sym,
}
use hexagonal.Table.{HasUniqueKeys, Saves, find_by-key}
use hexagonal.Jobs.Errors.{Thrown}
use hexagonal.Jobs.Entity.{
  JobOutbox, JobOutboxStatus, pending, claimed, published, completed, dead, same_status,
  mark_published, mark_dead, schedule_retry,
}
use hexagonal.Jobs.Policy.{JobsRuntimeOptions}
use hexagonal.Jobs.Repository.{job_id, find_by_id}
use hexagonal.Jobs.Relay.{Answers, Dispatched, recovered, publish_claimed, dispatch_claimed_job}

claimed_of_same : (status : JobOutboxStatus) → same_status status claimed ≡ true → status ≡ claimed
claimed_of_same pending e = absurd (cc)
claimed_of_same claimed e = refl
claimed_of_same published e = absurd (cc)
claimed_of_same completed e = absurd (cc)
claimed_of_same dead e = absurd (cc)

module _ (saves : Saves JobOutbox job_id) (options : JobsRuntimeOptions)
    (to_iso_string : ℕ → String) (now written : ℕ) where
  -- The rows that a dispatch of a claimed job may leave: as the `try` block or as the `catch` block
  -- writes it, or unchanged where the last update fails.
  abbrev pub MayLeave : JobOutbox → JobOutbox → Type 0
  MayLeave job row =
      (row ≡ mark_published written job)
      ⊎ ((error : Thrown) × (row ≡ recovered saves options to_iso_string now written error job))

  -- The table after the `try` block and its `catch`.
  pub publish_claimed_lem :
      (publish update recover : Result Thrown (Unit {0})) (job : JobOutbox) (jobs : List JobOutbox)
      → let answers : Answers = record { publish = publish; update = update; recover = recover } in
        let after =
          (publish_claimed saves options to_iso_string answers now written job jobs).jobs in
        (after ≡ jobs) ⊎ ((row : JobOutbox) × MayLeave job row × (after ≡ saves.save row jobs))
  unfolding publish_claimed
  publish_claimed_lem (ok _) (ok _) recover job jobs = inr (_, inl refl, refl)
  publish_claimed_lem (err e) update (ok _) job jobs = inr (_, inr (e, refl), refl)
  publish_claimed_lem (err e) update (err _) job jobs = inl refl
  publish_claimed_lem (ok _) (err e) (ok _) job jobs = inr (_, inr (e, refl), refl)
  publish_claimed_lem (ok _) (err e) (err _) job jobs = inl refl

  MayLeave-id : (job row : JobOutbox) → MayLeave job row → row.id ≡ job.id
  unfolding recovered mark_published mark_dead schedule_retry
  MayLeave-id job row m = ground arith

  module _ (answers : Answers) (id : String) (jobs : List JobOutbox) where
    abbrev dispatched : Dispatched
    dispatched = dispatch_claimed_job saves options to_iso_string answers now written id jobs

    pub dispatch-publish_claimed :
        (job : JobOutbox)
        → find_by_id id jobs ≡ some job
        → job.status ≡ claimed
        → dispatched ≡ publish_claimed saves options to_iso_string answers now written job jobs
    unfolding dispatch_claimed_job
    dispatch-publish_claimed job found c = ground arith

    unsent_none : find_by_id id jobs ≡ none → jobs ≡ dispatched.jobs
    unfolding dispatch_claimed_job
    unsent_none missing = ground arith

    unsent_idle :
        (job : JobOutbox)
        → find_by_id id jobs ≡ some job
        → same_status job.status claimed ≡ false
        → jobs ≡ dispatched.jobs
    unfolding dispatch_claimed_job
    unsent_idle job found idle = ground arith

    -- A job that is not claimed is neither published nor written.
    pub dispatch_unclaimed :
        (job : JobOutbox)
        → find_by_id id jobs ≡ some job
        → job.status ≢ claimed
        → (dispatched.jobs ≡ jobs) × (dispatched.sent ≡ none)
    unfolding dispatch_claimed_job
    dispatch_unclaimed job found idle = ground arith

    pub dispatch-HasUniqueKeys : HasUniqueKeys job_id jobs → HasUniqueKeys job_id dispatched.jobs
    unfolding dispatch_claimed_job
    dispatch-HasUniqueKeys u = elim (Option-cases (find_by_id id jobs)) [
      | inl missing ↦ rw (sym (unsent_none missing)) u
      | inr (job, found) ↦ elim (Bool-cases (same_status job.status claimed)) [
        | inr idle ↦ rw (sym (unsent_idle job found idle)) u
        | inl taken ↦
            let run = dispatch-publish_claimed job found (claimed_of_same job.status taken) in
            elim (publish_claimed_lem answers.publish answers.update answers.recover job jobs) [
              | inl same ↦ rw (run, same) u
              | inr (row, left, e) ↦ rw (run, e) (saves.save-HasUniqueKeys row jobs u)
            ]
      ]
    ]

    -- A dispatch writes no other row.
    pub dispatch_others : (k : String) → id ≢ k → find_by_id k dispatched.jobs ≡ find_by_id k jobs
    unfolding dispatch_claimed_job
    dispatch_others k other = elim (Option-cases (find_by_id id jobs)) [
      | inl missing ↦ ground arith
      | inr (job, found) ↦
          elim (publish_claimed_lem answers.publish answers.update answers.recover job jobs) [
            | inl same ↦ ground arith
            | inr (row, left, e) ↦ ground (
              arith,
              saves.find_by-save k row jobs,
              MayLeave-id job row left,
              find_by-key job_id id jobs found,
              eq_iff row.id k,
            )
          ]
    ]

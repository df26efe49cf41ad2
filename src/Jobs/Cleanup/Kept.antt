-- ===== src/Jobs/Cleanup/Kept.antt =====
-- What a cleanup keeps.
use hexagonal.Base.{
  ℕ, ◌≡◌, refl, ◌⊎◌, inl, inr, ◌<◌, ◌∙◌, not, true, none, some, List, String, Memᴰ, arith, ◌&&◌,
  Bool-cases, of_mem-take, of_mem-filter, ltb, ltb→lt,
}
use hexagonal.Base.Sort.{of_mem-sort_by}
use hexagonal.Table.{
  HasUniqueKeys, find_by_mem, find_by-filter, find_by-filter-none, filter-HasUniqueKeys,
}
use hexagonal.Jobs.Entity.{JobOutboxStatus, published, completed, dead, same_status, JobOutbox}
use hexagonal.Jobs.Policy.{JobsRuntimeOptions}
use hexagonal.Jobs.Repository.{
  job_id, find_by_id, is_selected, deletable, delete_by_status_older_than,
}
use hexagonal.Jobs.Repository.Selection.{mem_of_selected}
use hexagonal.Jobs.Cleanup.{resolve_cutoff, delete_by_status, cleanup_once}

pub same_status-eq : (a b : JobOutboxStatus) → same_status a b ≡ true → a ≡ b
same_status-eq published published h = refl
same_status-eq a b h = ground arith

module _ (status : JobOutboxStatus) (older_than limit : ℕ) (jobs : List JobOutbox) where
  pub of_mem-deletable :
      (job : JobOutbox)
      → Memᴰ job (deletable status older_than limit jobs)
      → Memᴰ job jobs × (job.status ≡ status) × (job.updated_at < older_than)
  unfolding deletable
  of_mem-deletable job m =
      let (old, test) =
        of_mem-filter (λ j. same_status j.status status && ltb j.updated_at older_than) jobs
          (of_mem-sort_by (λ j. j.updated_at) _ (of_mem-take limit _ m)) in
      (old, same_status-eq job.status status (ground arith), ltb→lt _ _ (ground arith))

  pub delete-HasUniqueKeys :
      HasUniqueKeys job_id jobs
      → HasUniqueKeys job_id (delete_by_status_older_than status older_than limit jobs).0
  unfolding delete_by_status_older_than
  delete-HasUniqueKeys unique = filter-HasUniqueKeys job_id _ jobs unique

  -- A deletion keeps a row, or the row had the status and was last updated before the limit.
  pub delete-row :
      HasUniqueKeys job_id jobs
      → (id : String) (job : JobOutbox) → find_by_id id jobs ≡ some job
      → let after = (delete_by_status_older_than status older_than limit jobs).0 in
        (find_by_id id after ≡ some job)
        ⊎ ((find_by_id id after ≡ none) × (job.status ≡ status) × (job.updated_at < older_than))
  unfolding delete_by_status_older_than
  delete-row unique id job found =
      let chosen = deletable status older_than limit jobs in
      let look = find_by-filter job_id (λ j. not (is_selected chosen j)) id jobs unique in
      elim (Bool-cases (is_selected chosen job)) [
        | inl picked ↦
            let taken =
              mem_of_selected jobs chosen unique (λ c m. (of_mem-deletable c m).0) job
                (find_by_mem job_id id jobs found) picked in
            let (_, s, old) = of_mem-deletable job taken in inr (look ∙ rw (found, picked), s, old)
        | inr passed ↦ inl (look ∙ rw (found, passed))
      ]

module _ (options : JobsRuntimeOptions) (now : ℕ) where
  -- What a cleanup may remove: a published, completed or dead job past its retention.
  abbrev pub IsExpired : JobOutbox → Type 0
  IsExpired job =
      ((job.status ≡ published) ⊎ (job.status ≡ completed) ⊎ (job.status ≡ dead))
      × (job.updated_at < resolve_cutoff options job.status now)

  delete_by_status-row :
      (status : JobOutboxStatus) (jobs : List JobOutbox)
      → HasUniqueKeys job_id jobs
      → (id : String) (job : JobOutbox) → find_by_id id jobs ≡ some job
      → let after = (delete_by_status options status now jobs).0 in
        (find_by_id id after ≡ some job)
        ⊎ ((find_by_id id after ≡ none)
            × (job.status ≡ status)
            × (job.updated_at < resolve_cutoff options job.status now))
  unfolding delete_by_status
  delete_by_status-row status jobs unique id job found =
      elim (delete-row status (resolve_cutoff options status now) options.outbox_cleanup_batch_size
        jobs unique id job found) [
          | inl kept ↦ inl kept
          | inr (gone, s, old) ↦ inr (gone, s, rw s old)
        ]

  pub delete_by_status-HasUniqueKeys :
      (status : JobOutboxStatus) (jobs : List JobOutbox)
      → HasUniqueKeys job_id jobs
      → HasUniqueKeys job_id (delete_by_status options status now jobs).0
  unfolding delete_by_status
  delete_by_status-HasUniqueKeys status jobs unique =
      delete-HasUniqueKeys status (resolve_cutoff options status now)
        options.outbox_cleanup_batch_size jobs unique

  -- Nothing comes back.
  delete_by_status-none :
      (status : JobOutboxStatus) (jobs : List JobOutbox) (id : String)
      → find_by_id id jobs ≡ none
      → find_by_id id (delete_by_status options status now jobs).0 ≡ none
  unfolding delete_by_status delete_by_status_older_than
  delete_by_status-none status jobs id gone = find_by-filter-none job_id _ id jobs gone

  cleanup_once-HasUniqueKeys :
      (jobs : List JobOutbox)
      → HasUniqueKeys job_id jobs
      → HasUniqueKeys job_id (cleanup_once options now jobs).0
  unfolding cleanup_once
  cleanup_once-HasUniqueKeys jobs unique = delete_by_status-HasUniqueKeys dead _ (
      delete_by_status-HasUniqueKeys completed _
        (delete_by_status-HasUniqueKeys published jobs unique))

  -- If the primary keys are unique, a cleanup leaves a row as it was, or removes it; and a row that
  -- it removes is published, completed or dead and was last updated before its status's cutoff.
  pub cleanup_once-row :
      (jobs : List JobOutbox)
      → HasUniqueKeys job_id jobs
      → (id : String) (job : JobOutbox) → find_by_id id jobs ≡ some job
      → let after = (cleanup_once options now jobs).0 in
        (find_by_id id after ≡ some job) ⊎ ((find_by_id id after ≡ none) × IsExpired job)
  unfolding cleanup_once
  cleanup_once-row jobs unique id job found =
      let jobs₁ = (delete_by_status options published now jobs).0 in
      let jobs₂ = (delete_by_status options completed now jobs₁).0 in
      let unique₁ = delete_by_status-HasUniqueKeys published jobs unique in
      let unique₂ = delete_by_status-HasUniqueKeys completed jobs₁ unique₁ in
      elim (delete_by_status-row published jobs unique id job found) [
        | inr (gone, s, old) ↦ inr (
          delete_by_status-none dead jobs₂ id (delete_by_status-none completed jobs₁ id gone),
          (inl s, old),
        )
        | inl kept₁ ↦ elim (delete_by_status-row completed jobs₁ unique₁ id job kept₁) [
          | inr (gone, s, old) ↦ inr (delete_by_status-none dead jobs₂ id gone, (inr (inl s), old))
          | inl kept₂ ↦ elim (delete_by_status-row dead jobs₂ unique₂ id job kept₂) [
            | inr (gone, s, old) ↦ inr (gone, (inr (inr s), old))
            | inl kept₃ ↦ inl kept₃
          ]
        ]
      ]

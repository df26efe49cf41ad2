-- ===== src/Jobs/Cleanup/Preview.antt =====
-- The preview of a cleanup counts what the cleanup deletes.
use hexagonal.Base.{
  ℕ, ◌≡◌, ◌≢◌, refl, ap, ◌∙◌, sym, min, Bool, true, false, not, ◌&&◌, List, [], ◌∷◌, arith, filter,
  length, take, length-map, length-take, ltb, not-eq-true, Memᴰ,
}
use hexagonal.Base.Sort.{sort_by, length-sort_by, insert_by}
use hexagonal.Table.{HasUniqueKeys}
use hexagonal.Jobs.Entity.{JobOutboxStatus, published, completed, dead, same_status, JobOutbox}
use hexagonal.Jobs.Policy.{JobsRuntimeOptions}
use hexagonal.Jobs.Repository.{
  job_id, find_by_status, is_selected, deletable, delete_by_status_older_than,
}
use hexagonal.Jobs.Repository.Selection.{mem_of_selected, length-selection}
use hexagonal.Jobs.Cleanup.Kept.{of_mem-deletable, same_status-eq, delete_by_status-HasUniqueKeys}
use hexagonal.Jobs.Cleanup.{
  resolve_cutoff, delete_by_status, cleanup_once, preview_by_status, preview_cleanup,
}

module _ {A : Type 0} (p : A → Bool) where
  pub length-filter-insert_by :
      (f : A → ℕ) (x : A) (t : List A)
      → length (filter p (insert_by f x t)) ≡ length (filter p (x ∷ t))
  length-filter-insert_by f x [] = refl
  length-filter-insert_by f x (y ∷ t) = ground (arith, length-filter-insert_by f x t)

  pub length-filter-sort_by :
      (f : A → ℕ) (t : List A) → length (filter p (sort_by f t)) ≡ length (filter p t)
  length-filter-sort_by f [] = refl
  length-filter-sort_by f (x ∷ t) =
      ground (arith, length-filter-insert_by f x (sort_by f t), length-filter-sort_by f t)

  pub length-filter-filter :
      (q : A → Bool) (t : List A)
      → length (filter p (filter q t)) ≡ length (filter (λ x. q x && p x) t)
  length-filter-filter q [] = refl
  length-filter-filter q (x ∷ t) = ground (arith, length-filter-filter q t)

  -- What fails a test is not missed by another that excludes it.
  filter-delete :
      (q : A → Bool) (t : List A)
      → ((x : A) → Memᴰ x t → p x ≡ true → q x ≡ false)
      → filter p (filter (λ x. not (q x)) t) ≡ filter p t
  filter-delete q [] apart = refl
  filter-delete q (x ∷ t) apart =
      ground (arith, apart x (Memᴰ.head refl), filter-delete q t (λ y m. apart y (Memᴰ.tail m)))

-- How many rows of a status are past a cutoff.
abbrev expired : JobOutboxStatus → ℕ → JobOutbox → Bool
expired status cutoff job = same_status job.status status && ltb job.updated_at cutoff

length-delete :
    (status : JobOutboxStatus) (cutoff limit : ℕ) (jobs : List JobOutbox)
    → HasUniqueKeys job_id jobs
    → (delete_by_status_older_than status cutoff limit jobs).1
      ≡ min limit (length (filter (expired status cutoff) jobs))
unfolding delete_by_status_older_than deletable
length-delete status cutoff limit jobs unique =
    length-selection (expired status cutoff) (λ job. job.updated_at) limit jobs unique

-- A row of another status is not selected for deletion.
not_selected :
    (status other : JobOutboxStatus) (cutoff limit cutoff' : ℕ) (jobs : List JobOutbox)
    → HasUniqueKeys job_id jobs
    → status ≢ other
    → (job : JobOutbox) → Memᴰ job jobs
    → expired other cutoff' job ≡ true
    → is_selected (deletable status cutoff limit jobs) job ≢ true
not_selected status other cutoff limit cutoff' jobs unique apart job m h picked =
    let chosen = deletable status cutoff limit jobs in
    let taken =
      mem_of_selected jobs chosen unique (λ c n. (of_mem-deletable status cutoff limit jobs c n).0)
        job m picked in
    let (_, s, _) = of_mem-deletable status cutoff limit jobs job taken in
    apart (sym s ∙ same_status-eq job.status other (ground arith))

-- A deletion by one status leaves the rows of another.
filter-delete_other :
    (status other : JobOutboxStatus) (cutoff limit cutoff' : ℕ) (jobs : List JobOutbox)
    → HasUniqueKeys job_id jobs
    → status ≢ other
    → filter (expired other cutoff') (delete_by_status_older_than status cutoff limit jobs).0
      ≡ filter (expired other cutoff') jobs
unfolding delete_by_status_older_than
filter-delete_other status other cutoff limit cutoff' jobs unique apart =
    filter-delete (expired other cutoff') (is_selected (deletable status cutoff limit jobs)) jobs
      (λ job m h.
        not-eq-true (not_selected status other cutoff limit cutoff' jobs unique apart job m h))

module _ (options : JobsRuntimeOptions) (now : ℕ) where
  abbrev due : JobOutboxStatus → JobOutbox → Bool
  due status = expired status (resolve_cutoff options status now)

  length-preview :
      (status : JobOutboxStatus) (jobs : List JobOutbox)
      → length (preview_by_status options status now jobs)
        ≡ min options.outbox_cleanup_batch_size (length (filter (due status) jobs))
  unfolding preview_by_status find_by_status
  length-preview status jobs =
      let old = λ (job : JobOutbox). ltb job.updated_at (resolve_cutoff options status now) in
      let listed = filter (λ (job : JobOutbox). same_status job.status status) jobs in
      let found = sort_by (λ (job : JobOutbox). job.created_at) listed in
      let queue = sort_by (λ (job : JobOutbox). job.updated_at) (filter old found) in
      omega (
        arith,
        length-map job_id (take options.outbox_cleanup_batch_size queue),
        length-take options.outbox_cleanup_batch_size queue,
        length-sort_by (λ (job : JobOutbox). job.updated_at) (filter old found),
        length-filter-sort_by old (λ (job : JobOutbox). job.created_at) listed,
        length-filter-filter old (λ (job : JobOutbox). same_status job.status status) jobs,
      )

  length-delete_by_status :
      (status : JobOutboxStatus) (jobs : List JobOutbox)
      → HasUniqueKeys job_id jobs
      → (delete_by_status options status now jobs).1
        ≡ min options.outbox_cleanup_batch_size (length (filter (due status) jobs))
  unfolding delete_by_status
  length-delete_by_status status jobs unique =
      length-delete status (resolve_cutoff options status now) options.outbox_cleanup_batch_size
        jobs unique

  due-delete_by_status :
      (status other : JobOutboxStatus) (jobs : List JobOutbox)
      → HasUniqueKeys job_id jobs
      → status ≢ other
      → filter (due other) (delete_by_status options status now jobs).0 ≡ filter (due other) jobs
  unfolding delete_by_status
  due-delete_by_status status other jobs unique apart =
      filter-delete_other status other (resolve_cutoff options status now)
        options.outbox_cleanup_batch_size (resolve_cutoff options other now) jobs unique apart

  -- If the primary keys are unique, the numbers of rows that a cleanup deletes, for each status and
  -- in total, are the numbers of candidates that a preview at the same time lists.
  pub preview_cleanup-cleanup_once :
      (jobs : List JobOutbox)
      → HasUniqueKeys job_id jobs
      → let preview = preview_cleanup options now jobs in
        let result = (cleanup_once options now jobs).1 in
        (result.published_deleted ≡ length preview.published_candidate_ids)
        × (result.completed_deleted ≡ length preview.completed_candidate_ids)
        × (result.dead_deleted ≡ length preview.dead_candidate_ids)
        × (result.total_deleted ≡ preview.total_candidates)
  unfolding preview_cleanup cleanup_once
  preview_cleanup-cleanup_once jobs unique =
      let jobs₁ = (delete_by_status options published now jobs).0 in
      let jobs₂ = (delete_by_status options completed now jobs₁).0 in
      let unique₁ = delete_by_status-HasUniqueKeys options now published jobs unique in
      let unique₂ = delete_by_status-HasUniqueKeys options now completed jobs₁ unique₁ in
      let same_completed =
        ap length (due-delete_by_status published completed jobs unique (λ e. cc)) in
      let same_dead =
        ap length (due-delete_by_status completed dead jobs₁ unique₁ (λ e. cc))
        ∙ ap length (due-delete_by_status published dead jobs unique (λ e. cc)) in
      omega (
        arith,
        length-preview published jobs,
        length-preview completed jobs,
        length-preview dead jobs,
        length-delete_by_status published jobs unique,
        length-delete_by_status completed jobs₁ unique₁,
        length-delete_by_status dead jobs₂ unique₂,
        same_completed,
        same_dead,
      )

-- ===== src/Jobs/Repository/Claim.antt =====
-- What `claimPendingBatch` promises the relays that share the outbox.
use hexagonal.Base.{
  ℕ, ◌≤◌, ◌≡◌, ap, ◌⊎◌, inl, inr, Bool, true, false, not, ◌&&◌, some, List, String, map, Memᴰ,
  arith, if◌then◌else◌, length, filter, All, Bool-cases, of_mem-take, of_mem-filter, length-take,
  mem-filter, take_or_drop, take_full, ◌∙◌,
}
use mathlib.Core.List.Memᴰ
use hexagonal.Base.Sort.{sort_by, of_mem-sort_by, mem-sort_by, take-le-drop, sort_by-IsSorted}
use hexagonal.Table.{HasUniqueKeys, find_by-map, find_by_mem, map-HasUniqueKeys}
use hexagonal.Jobs.Entity.{JobOutbox, claimed}
use hexagonal.Jobs.Policy.{JobsRuntimeOptions}
use hexagonal.Jobs.Repository.{
  job_id, find_by_id, is_claimable, claimable, is_selected, set_claimed, claim_pending_batch,
}
use hexagonal.Jobs.Repository.Selection.{mem_of_selected, length-selected}

module _ (options : JobsRuntimeOptions) (locked : JobOutbox → Bool) (limit now : ℕ) where
  pub of_mem-claimable :
      (jobs : List JobOutbox) (job : JobOutbox)
      → Memᴰ job (claimable options locked limit now jobs)
      → Memᴰ job jobs × (is_claimable options now job ≡ true) × (locked job ≡ false)
  unfolding claimable
  of_mem-claimable jobs job m =
      let (old, test) =
        of_mem-filter (λ j. is_claimable options now j && not (locked j)) jobs
          (of_mem-sort_by (λ j. j.created_at) _ (of_mem-take limit _ m)) in
      (old, ground arith, ground arith)

  length-claimable :
      (jobs : List JobOutbox) → length (claimable options locked limit now jobs) ≤ limit
  unfolding claimable
  length-claimable jobs =
      let test = λ (j : JobOutbox). is_claimable options now j && not (locked j) in
      omega (arith, length-take limit (sort_by (λ j. j.created_at) (filter test jobs)))

  -- A job that is claimable and not locked, and that a claim passes over, is no older than any job of
  -- the batch, and the batch is full.
  pub claim_oldest_first :
      (jobs : List JobOutbox) (job : JobOutbox)
      → Memᴰ job jobs
      → is_claimable options now job ≡ true
      → locked job ≡ false
      → let batch = claimable options locked limit now jobs in
        Memᴰ job batch
        ⊎ ((length batch ≡ limit) × All (λ taken. taken.created_at ≤ job.created_at) batch)
  unfolding claimable
  claim_oldest_first jobs job m c l =
      let test = λ (j : JobOutbox). is_claimable options now j && not (locked j) in
      let queue = sort_by (λ j. j.created_at) (filter test jobs) in
      let waits : Memᴰ job queue =
        mem-sort_by (λ j. j.created_at) (filter test jobs)
          (mem-filter test jobs m (ground arith)) in
      elim (take_or_drop limit queue waits) [
        | inl taken ↦ inl taken
        | inr left ↦ inr (
          take_full limit queue left,
          take-le-drop (λ j. j.created_at) limit queue
              (sort_by-IsSorted (λ j. j.created_at) (filter test jobs)) left,
        )
      ]

module _ (options : JobsRuntimeOptions) (locked : JobOutbox → Bool) (limit now db_now : ℕ)
    (jobs : List JobOutbox) (unique : HasUniqueKeys job_id jobs) where
  abbrev chosen : List JobOutbox
  chosen = claimable options locked limit now jobs

  abbrev write : JobOutbox → JobOutbox
  write job = if is_selected chosen job then set_claimed db_now job else job

  write_keeps : (job : JobOutbox) → job_id (write job) ≡ job_id job
  unfolding set_claimed
  write_keeps job = ground arith

  chosen_within : (c : JobOutbox) → Memᴰ c chosen → Memᴰ c jobs
  chosen_within c m = (of_mem-claimable options locked limit now jobs c m).0

  -- A claim keeps the primary keys unique.
  pub claim-HasUniqueKeys :
      HasUniqueKeys job_id (claim_pending_batch options locked limit now db_now jobs).0
  unfolding claim_pending_batch
  claim-HasUniqueKeys = map-HasUniqueKeys job_id write jobs write_keeps unique

  -- A claim returns no more jobs than asked for.
  pub length-claim_pending_batch :
      length (claim_pending_batch options locked limit now db_now jobs).1 ≤ limit
  unfolding claim_pending_batch
  length-claim_pending_batch = omega (
    arith,
    length-selected (map write jobs) chosen claim-HasUniqueKeys,
    length-claimable options locked limit now jobs,
  )

  pub claim_pending_batch-picked :
      (id : String) (job : JobOutbox)
      → find_by_id id jobs ≡ some job
      → is_selected chosen job ≡ true
      → find_by_id id (claim_pending_batch options locked limit now db_now jobs).0
        ≡ some (set_claimed db_now job)
  unfolding claim_pending_batch set_claimed
  claim_pending_batch-picked id job found picked =
      ground (arith, find_by-map job_id write id jobs write_keeps)

  -- A row stays as it was, or it was claimable and not locked, and only its status and its time of
  -- update change.
  pub claim_pending_batch-row :
      (id : String) (job : JobOutbox)
      → find_by_id id jobs ≡ some job
      → let after = (claim_pending_batch options locked limit now db_now jobs).0 in
        (find_by_id id after ≡ some job)
        ⊎ ((find_by_id id after ≡ some (record job { status = claimed; updated_at = db_now }))
            × (is_claimable options now job ≡ true)
            × (locked job ≡ false))
  unfolding claim_pending_batch set_claimed
  claim_pending_batch-row id job found = elim (Bool-cases (is_selected chosen job)) [
    | inl picked ↦
        let taken =
          mem_of_selected jobs chosen unique chosen_within job (find_by_mem job_id id jobs found)
            picked in
        let (_, test, free) = of_mem-claimable options locked limit now jobs job taken in
        inr (find_by-map job_id write id jobs write_keeps ∙ rw (found, picked), test, free)
    | inr passed ↦ inl (find_by-map job_id write id jobs write_keeps ∙ rw (found, passed))
  ]

  -- Every job of the batch is in the table, claimed at the database's time.
  pub batch_claimed :
      (job : JobOutbox)
      → Memᴰ job (claim_pending_batch options locked limit now db_now jobs).1
      → Memᴰ job (claim_pending_batch options locked limit now db_now jobs).0
        × (job.status ≡ claimed)
        × (job.updated_at ≡ db_now)
  unfolding claim_pending_batch set_claimed
  batch_claimed job m =
      let (here, picked) = of_mem-filter (is_selected chosen) (map write jobs) m in
      let (old, was, same) = Memᴰ.of_map write jobs here in
      (here, ground (arith, ap (λ j. j.id) same), ground (arith, ap (λ j. j.id) same))

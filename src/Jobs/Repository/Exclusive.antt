-- ===== src/Jobs/Repository/Exclusive.antt =====
-- Two relays do not work on the same job until the first claim has timed out.
use mathlib.Core.List.Memᴰ
use hexagonal.Base.{
  ℕ, ◌+◌, ◌≤◌, ◌≡◌, sym, Bool, true, false, List, map, Memᴰ, arith, Bool-cases, inl, inr, includes,
  mem_of_includes, of_mem-filter, ◌∙◌, ap,
}
use mathlib.Core.Bool.{false≢true}
use hexagonal.Table.{HasUniqueKeys, eq_of_key, find_by_mem, find_by_of_mem}
use hexagonal.Jobs.Entity.{JobOutbox, claimed}
use hexagonal.Jobs.Policy.{JobsRuntimeOptions}
use hexagonal.Jobs.Repository.{
  job_id, find_by_id, is_claimable, claimable, is_selected, claim_pending_batch,
}
use hexagonal.Jobs.Repository.Claim.{of_mem-claimable, claim-HasUniqueKeys, batch_claimed}

fresh_claim_holds :
    (options : JobsRuntimeOptions) (db_now now : ℕ) (job : JobOutbox)
    → now ≤ db_now + options.outbox_claim_timeout_ms
    → job.status ≡ claimed
    → job.updated_at ≡ db_now
    → is_claimable options now job ≡ false
unfolding is_claimable
fresh_claim_holds options db_now now job soon s u = rw s (ground arith)

-- What is in a batch comes from a row that could be claimed.
batch_source :
    (options : JobsRuntimeOptions) (locked : JobOutbox → Bool) (limit now db_now : ℕ)
    (jobs : List JobOutbox) (job : JobOutbox)
    → Memᴰ job (claim_pending_batch options locked limit now db_now jobs).1
    → (source : JobOutbox) × Memᴰ source jobs
      × (source.id ≡ job.id)
      × (is_claimable options now source ≡ true)
unfolding claim_pending_batch
batch_source options locked limit now db_now jobs job m =
    let chosen = claimable options locked limit now jobs in
    let (_, picked) = of_mem-filter (is_selected chosen) _ m in
    let (source, taken, same) =
      Memᴰ.of_map job_id chosen (mem_of_includes job.id (map job_id chosen) picked) in
    let (old, test, _) = of_mem-claimable options locked limit now jobs source taken in
    (source, old, same, test)

module _ (options : JobsRuntimeOptions) (locked locked' : JobOutbox → Bool)
    (limit now db_now limit' now' db_now' : ℕ) (jobs later : List JobOutbox) where
  -- A first claim holds its jobs. If a second claim is made on any table in which the row of a job of
  -- the first is still as the first left it, so that the job was neither dispatched nor claimed in
  -- between, and reads its clock no later than the claim timeout after the first was written, then the
  -- job is not in its batch. The primary keys of both tables are unique.
  pub claim_exclusive :
      HasUniqueKeys job_id jobs
      → HasUniqueKeys job_id later
      → now' ≤ db_now + options.outbox_claim_timeout_ms
      → let (after, mine) = claim_pending_batch options locked limit now db_now jobs in
        let theirs = (claim_pending_batch options locked' limit' now' db_now' later).1 in
        (job : JobOutbox)
        → Memᴰ job mine
        → find_by_id job.id later ≡ find_by_id job.id after
        → includes job.id (map job_id theirs) ≡ false
  claim_exclusive unique unique' soon job held untouched =
      let (after, mine) = claim_pending_batch options locked limit now db_now jobs in
      let theirs = (claim_pending_batch options locked' limit' now' db_now' later).1 in
      let (here, s, u) = batch_claimed options locked limit now db_now jobs unique job held in
      let kept = claim-HasUniqueKeys options locked limit now db_now jobs unique in
      let first_row = find_by_of_mem job_id after kept here in
      let refused = fresh_claim_holds options db_now now' job soon s u in
      elim (Bool-cases (includes job.id (map job_id theirs))) [
        | inr apart ↦ apart
        | inl shared ↦
            let (own, listed, match) =
              Memᴰ.of_map job_id theirs (mem_of_includes job.id (map job_id theirs) shared) in
            let (source, old, same, test) =
              batch_source options locked' limit' now' db_now' later own listed in
            let still = find_by_mem job_id job.id later (untouched ∙ first_row) in
            let one : source ≡ job = eq_of_key job_id later unique' old still (same ∙ match) in
            absurd (false≢true (sym refused ∙ ap (is_claimable options now') (sym one) ∙ test))
      ]

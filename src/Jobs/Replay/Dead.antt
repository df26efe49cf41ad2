-- ===== src/Jobs/Replay/Dead.antt =====
-- A replay touches dead jobs only, and returns what it touched.
use hexagonal.Base.{
  ℕ, String, ◌≡◌, refl, ap, sym, ◌∙◌, ◌⊎◌, inl, inr, Bool, true, Option, none, some, get_or, List,
  [], ◌∷◌, map, length, take, filter, includes, Memᴰ, arith, if◌then◌else◌, Bool-cases, Result, ok,
  err, Result-cases, length-map, length-take, of_mem-take, of_mem-filter,
}
use hexagonal.Base.Sort.{sort_by, of_mem-sort_by, length-sort_by}
use hexagonal.Table.{HasUniqueKeys, find_by-map, find_by_mem}
use hexagonal.Jobs.Errors.{Thrown}
use hexagonal.Jobs.Entity.{JobOutbox, dead, same_status, replay}
use hexagonal.Jobs.Repository.{
  job_id, find_by_id, find_by_status, is_selected, is_dead_among, cast_uuids, set_replayed,
  replayable, replay_dead_batch, replay_dead_by_ids,
}
use hexagonal.Jobs.Repository.Selection.{mem_of_selected, length-selection}
use hexagonal.Jobs.Cleanup.Kept.{same_status-eq}
use hexagonal.Jobs.Cleanup.Preview.{length-filter-sort_by, length-filter-filter}
use hexagonal.Jobs.Replay.{ReplayDeadJobsCommand, replay_dead_jobs, preview_dead_jobs}

-- The `SET` clause writes what the entity's `replay` gives, but for the time of the update.
set_replayed-replay :
    (now db_now : ℕ) (job : JobOutbox)
    → set_replayed now db_now job ≡ record (replay now job) { updated_at = db_now }
unfolding set_replayed replay
set_replayed-replay now db_now job = refl

-- A row stays as it was, or it was dead and is replayed.
abbrev pub IsReplayed : (now db_now : ℕ) → JobOutbox → Option JobOutbox → Type 0
IsReplayed now db_now job row =
    (row ≡ some job)
    ⊎ ((job.status ≡ dead) × (row ≡ some (record (replay now job) { updated_at = db_now })))

of_mem-replayable :
    (limit : ℕ) (jobs : List JobOutbox) (job : JobOutbox)
    → Memᴰ job (replayable limit jobs)
    → Memᴰ job jobs × (job.status ≡ dead)
unfolding replayable
of_mem-replayable limit jobs job m =
    let (old, test) =
      of_mem-filter (λ j. same_status j.status dead) jobs
        (of_mem-sort_by (λ j. j.updated_at) _ (of_mem-take limit _ m)) in
    (old, same_status-eq job.status dead test)

module _ (cast : String → Result Thrown String) (now db_now : ℕ) (jobs : List JobOutbox) where
  written_where : (JobOutbox → Bool) → JobOutbox → JobOutbox
  written_where p job = if p job then set_replayed now db_now job else job

  written_where_keeps :
      (p : JobOutbox → Bool) (job : JobOutbox) → job_id (written_where p job) ≡ job_id job
  unfolding written_where set_replayed
  written_where_keeps p job = ground arith

  written_where-row :
      (p : JobOutbox → Bool) (id : String) (job : JobOutbox)
      → find_by_id id jobs ≡ some job
      → (p job ≡ true → job.status ≡ dead)
      → IsReplayed now db_now job (find_by_id id (map (written_where p) jobs))
  unfolding written_where
  written_where-row p id job found only_dead =
      let look = find_by-map job_id (written_where p) id jobs (written_where_keeps p) in
      elim (Bool-cases (p job)) [
        | inl hit ↦ inr (only_dead hit, look ∙ rw (found, hit, set_replayed-replay now db_now job))
        | inr miss ↦ inl (look ∙ rw (found, miss))
      ]

  batch_rows :
      HasUniqueKeys job_id jobs
      → (limit : ℕ) (id : String) (job : JobOutbox) → find_by_id id jobs ≡ some job
      → IsReplayed now db_now job (find_by_id id (replay_dead_batch limit now db_now jobs).0)
  unfolding replay_dead_batch written_where
  batch_rows unique limit id job found =
      let chosen = replayable limit jobs in
      let within = of_mem-replayable limit jobs in
      written_where-row (is_selected chosen) id job found (λ h.
        (within job (
          mem_of_selected jobs chosen unique (λ c m. (within c m).0) job
            (find_by_mem job_id id jobs found) h)).1)

  replay_malformed :
      (x : String) (xs : List String) (error : Thrown)
      → cast_uuids cast (x ∷ xs) ≡ err error
      → replay_dead_by_ids cast (x ∷ xs) now db_now jobs ≡ (jobs, err error)
  unfolding replay_dead_by_ids
  replay_malformed x xs error malformed = ground arith

  replay_canonical :
      (x : String) (xs uuids : List String)
      → cast_uuids cast (x ∷ xs) ≡ ok uuids
      → replay_dead_by_ids cast (x ∷ xs) now db_now jobs ≡ (
        map (written_where (is_dead_among uuids)) jobs,
        ok (map job_id (filter (is_dead_among uuids) jobs)),
      )
  unfolding replay_dead_by_ids written_where
  replay_canonical x xs uuids canonical = ground arith

  replay_rows :
      HasUniqueKeys job_id jobs
      → (ids : Option (List String)) (limit : Option ℕ) (id : String) (job : JobOutbox)
      → find_by_id id jobs ≡ some job
      → IsReplayed now db_now job (
          find_by_id id
            (replay_dead_jobs cast (record { ids = ids; limit = limit }) now db_now jobs).0)
  unfolding replay_dead_jobs
  replay_rows unique (some (x ∷ xs)) limit id job found =
      elim (Result-cases (cast_uuids cast (x ∷ xs))) [
        | inr (error, malformed) ↦
            rw (ap (λ r. r.0) (replay_malformed x xs error malformed)) (inl found)
        | inl (uuids, canonical) ↦ rw (ap (λ r. r.0) (replay_canonical x xs uuids canonical)) (
            written_where-row (is_dead_among uuids) id job found
              (λ h. same_status-eq job.status dead (ground arith)))
      ]
  replay_rows unique (some []) limit id job found =
      batch_rows unique (get_or limit 100) id job found
  replay_rows unique none limit id job found = batch_rows unique (get_or limit 100) id job found

  -- If the primary keys are unique, then a replay, whatever the command, leaves a row as it was, or
  -- the row was dead and is reset as the entity's `replay` resets it.
  pub replay_dead_jobs-row :
      HasUniqueKeys job_id jobs
      → (command : ReplayDeadJobsCommand) (id : String) (job : JobOutbox)
      → find_by_id id jobs ≡ some job
      → IsReplayed now db_now job (find_by_id id (replay_dead_jobs cast command now db_now jobs).0)
  replay_dead_jobs-row unique command = replay_rows unique command.ids command.limit

  replay_ids_count :
      (ids : List String)
      → length (filter (is_dead_among ids) jobs)
        ≡ length (filter (λ job. includes job.id ids) (find_by_status dead jobs))
  unfolding find_by_status
  replay_ids_count ids =
      let listed = filter (λ (job : JobOutbox). same_status job.status dead) jobs in
      omega (
        arith,
        length-filter-sort_by (λ (job : JobOutbox). includes job.id ids)
            (λ (job : JobOutbox). job.created_at) listed,
        length-filter-filter (λ (job : JobOutbox). includes job.id ids)
            (λ (job : JobOutbox). same_status job.status dead) jobs,
      )

  batch_count :
      HasUniqueKeys job_id jobs
      → (limit : ℕ)
      → length (replay_dead_batch limit now db_now jobs).1
        ≡ length
            (map job_id (take limit (sort_by (λ job. job.updated_at) (find_by_status dead jobs))))
  unfolding replay_dead_batch replayable find_by_status
  batch_count unique limit =
      let is_dead = λ (job : JobOutbox). same_status job.status dead in
      let listed = find_by_status dead jobs in
      let queue = sort_by (λ (job : JobOutbox). job.updated_at) listed in
      let chosen = replayable limit jobs in
      omega (
        arith,
        length-map job_id (filter (is_selected chosen) jobs),
        length-selection is_dead (λ job. job.updated_at) limit jobs unique,
        length-map job_id (take limit queue),
        length-take limit queue,
        length-sort_by (λ (job : JobOutbox). job.updated_at) listed,
        length-sort_by (λ (job : JobOutbox). job.created_at) (filter is_dead jobs),
      )

  cast_uuids-canonical :
      (ids : List String)
      → ((id : String) → Memᴰ id ids → cast id ≡ ok id)
      → cast_uuids cast ids ≡ ok ids
  cast_uuids-canonical [] canonical = refl
  cast_uuids-canonical (id ∷ ids) canonical =
      let here = canonical id (Memᴰ.head refl) in
      let rest = cast_uuids-canonical ids (λ i m. canonical i (Memᴰ.tail m)) in rw (here, rest) refl

  replay_count :
      HasUniqueKeys job_id jobs
      → (ids : Option (List String)) (limit : Option ℕ)
      → ((id : String) → Memᴰ id (get_or ids []) → cast id ≡ ok id)
      → let command : ReplayDeadJobsCommand = record { ids = ids; limit = limit } in
        (replayed : List String) × ((replay_dead_jobs cast command now db_now jobs).1 ≡ ok replayed)
        × (length replayed ≡ length (preview_dead_jobs command jobs))
  unfolding replay_dead_jobs preview_dead_jobs
  replay_count unique (some (x ∷ xs)) limit canonical = (
    map job_id (filter (is_dead_among (x ∷ xs)) jobs),
    ap (λ r. r.1) (replay_canonical x xs (x ∷ xs) (cast_uuids-canonical (x ∷ xs) canonical)),
    length-map job_id (filter (is_dead_among (x ∷ xs)) jobs)
        ∙ replay_ids_count (x ∷ xs)
        ∙ sym (
            length-map job_id
              (filter (λ (job : JobOutbox). includes job.id (x ∷ xs)) (find_by_status dead jobs))),
  )
  replay_count unique (some []) limit canonical = (
    (replay_dead_batch (get_or limit 100) now db_now jobs).1,
    refl,
    batch_count unique (get_or limit 100),
  )
  replay_count unique none limit canonical = (
    (replay_dead_batch (get_or limit 100) now db_now jobs).1,
    refl,
    batch_count unique (get_or limit 100),
  )

  -- If the primary keys are unique, and the ids of the command, if it has any, are UUIDs in the form
  -- that the database gives them, then a replay succeeds and returns as many jobs as the preview of the
  -- same command lists.
  pub replay_dead_jobs-preview :
      HasUniqueKeys job_id jobs
      → (command : ReplayDeadJobsCommand)
      → ((id : String) → Memᴰ id (get_or command.ids []) → cast id ≡ ok id)
      → (replayed : List String) × ((replay_dead_jobs cast command now db_now jobs).1 ≡ ok replayed)
        × (length replayed ≡ length (preview_dead_jobs command jobs))
  replay_dead_jobs-preview unique command = replay_count unique command.ids command.limit

none_left :
    (ids : List String) (now db_now : ℕ) (jobs : List JobOutbox)
    → filter
        (is_dead_among ids)
        (map (λ job. if is_dead_among ids job then set_replayed now db_now job else job) jobs)
      ≡ []
unfolding set_replayed
none_left ids now db_now [] = refl
none_left ids now db_now (job ∷ jobs) = ground (arith, none_left ids now db_now jobs)

-- A second replay of the same ids, if they are UUIDs, finds no dead job among them.
pub replay_dead_by_ids_twice :
    (cast : String → Result Thrown String) (x : String) (xs uuids : List String)
    (now db_now now' db_now' : ℕ) (jobs : List JobOutbox)
    → cast_uuids cast (x ∷ xs) ≡ ok uuids
    → (replay_dead_by_ids cast
        (x ∷ xs)
        now'
        db_now'
        (replay_dead_by_ids cast (x ∷ xs) now db_now jobs).0).1
      ≡ ok []
unfolding written_where
replay_dead_by_ids_twice cast x xs uuids now db_now now' db_now' jobs canonical =
    let first = ap (λ r. r.0) (replay_canonical cast now db_now jobs x xs uuids canonical) in
    rw first (
      ap (λ r. r.1) (replay_canonical cast now' db_now' _ x xs uuids canonical)
      ∙ ap (λ ids. ok (map job_id ids)) (none_left uuids now db_now jobs))

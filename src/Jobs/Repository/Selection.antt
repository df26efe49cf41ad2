-- ===== src/Jobs/Repository/Selection.antt =====
-- A statement that joins the outbox with a selection of its own rows.
use hexagonal.Base.{
  ◌≡◌, ◌≢◌, sym, Bool, true, List, map, Memᴰ, filter, length, ◌≤◌, mem_of_includes, includes_of_mem,
  length-map, arith, ℕ, min, take, none, of_mem-filter, of_mem-take, length-take,
}
use mathlib.Core.List.Memᴰ
use hexagonal.Base.Sort.{sort_by, length-sort_by, of_mem-sort_by}
use hexagonal.Table.Counting.{sort_by-HasUniqueKeys, take-HasUniqueKeys, length-le-selected}
use hexagonal.Table.{
  find_by_of_mem, filter-HasUniqueKeys, find_by, HasUniqueKeys, eq_of_key, length-filter-includes,
}
use hexagonal.Jobs.Entity.{JobOutbox}
use hexagonal.Jobs.Repository.{job_id, is_selected}

module _ (jobs chosen : List JobOutbox) (unique : HasUniqueKeys job_id jobs) where
  -- Rows are selected by their keys, and yet no other row is.
  pub mem_of_selected :
      ((c : JobOutbox) → Memᴰ c chosen → Memᴰ c jobs)
      → (job : JobOutbox) → Memᴰ job jobs
      → is_selected chosen job ≡ true
      → Memᴰ job chosen
  mem_of_selected within job m s =
      let (c, picked, same) =
        Memᴰ.of_map job_id chosen (mem_of_includes job.id (map job_id chosen) s) in
      Memᴰ.cast (sym (eq_of_key job_id jobs unique (within c picked) m same)) picked

  pub length-selected : length (filter (is_selected chosen) jobs) ≤ length chosen
  length-selected = omega (
    arith,
    length-filter-includes job_id (map job_id chosen) jobs unique,
    length-map job_id chosen,
  )

pub selected_of_mem :
    (chosen : List JobOutbox) (job : JobOutbox) → Memᴰ job chosen → is_selected chosen job ≡ true
selected_of_mem chosen job m = includes_of_mem job.id (map job_id chosen) (Memᴰ.map job_id m)

-- A selection by a test, in some order and up to a limit, selects as many rows as pass the test, or
-- the limit.
pub length-selection :
    (p : JobOutbox → Bool) (f : JobOutbox → ℕ) (limit : ℕ) (jobs : List JobOutbox)
    → HasUniqueKeys job_id jobs
    → length (filter (is_selected (take limit (sort_by f (filter p jobs)))) jobs)
      ≡ min limit (length (filter p jobs))
length-selection p f limit jobs unique =
    let queue = sort_by f (filter p jobs) in
    let chosen = take limit queue in
    let distinct = take-HasUniqueKeys job_id limit queue (
      sort_by-HasUniqueKeys job_id f (filter p jobs) (filter-HasUniqueKeys job_id p jobs unique)) in
    omega (
      arith,
      length-selected jobs chosen unique,
      length-le-selected job_id chosen jobs distinct (λ c m.
          present (of_mem-filter p jobs (of_mem-sort_by f _ (of_mem-take limit queue m))).0),
      length-take limit queue,
      length-sort_by f (filter p jobs),
    )
  where
    present : {c : JobOutbox} → Memᴰ c jobs → find_by job_id (job_id c) jobs ≢ none
    present m e = ground (arith, find_by_of_mem job_id jobs unique m)

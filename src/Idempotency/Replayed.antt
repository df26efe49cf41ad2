-- ===== src/Idempotency/Replayed.antt =====
-- A completed request answers every later `begin` with its key.
use hexagonal.Base.{
  ℕ, ◌≡◌, refl, ap, sym, ◌∙◌, inl, inr, String, true, not, ◌&&◌, ◌==◌, Option, some, get_or, List,
  [], ◌∷◌, arith, eq_iff, eq_refl, any, Bool-cases, any_of_mem, find_of_mem, if◌then◌else◌, ok, err,
}
use hexagonal.Json.{Json, null}
use hexagonal.Table.{find_by, Saves, find_by_mem, find_by-filter, eq_of_key}
use hexagonal.Idempotency.Request.{
  RequestKey, IdempotentRequest, pending, completed, is_pending, create, completed_with,
}
use hexagonal.Idempotency.Repository.{
  request_id, same_key, has_key, find_by_id, find_by_unique, create_pending, update, delete_pending,
}
use hexagonal.Idempotency.Service.{
  BeginIdempotentRequestCommand, replay, key_reuse_conflict, answer_existing, begin, complete,
  release,
}
use hexagonal.Idempotency.Steps.{
  Step, insert, finish, free, pending_request, IsIndexed, step, steps, IsNew, AreNew, insert-cases,
  same_key-sym, same_key_trans, finish-cases, step-IsIndexed,
}

pub same_key_refl : (k : RequestKey) → same_key k k ≡ true
same_key_refl k =
    ground
      (arith, eq_refl k.scope_key, eq_refl k.idempotency_key, eq_refl k.method, eq_refl k.route_key)

module _ (saves : Saves IdempotentRequest request_id) where
  -- No step touches a completed request: not a second completion, and not a release.
  completed_stays :
      (s : Step) (row : IdempotentRequest) (table : List IdempotentRequest)
      → IsIndexed table
      → IsNew saves s table
      → find_by_id row.id table ≡ some row
      → row.status ≡ completed
      → find_by_id row.id (step saves s table) ≡ some row
  unfolding find_by_id create completed_with step release delete_pending
  completed_stays (insert now id command) row table wf new found done =
      elim (insert-cases saves now id command table) [
        | inl (full, same) ↦ rw same found
        | inr (vacant, written) ↦ rw written (
            let r = pending_request now id command in
            let saved = saves.find_by-save row.id r table in
            elim (Bool-cases (id == row.id)) [
              | inl clash ↦ absurd (
                  ground (arith, ap (λ k. find_by request_id k table) ((eq_iff id row.id).0 clash)))
              | inr apart ↦ ground arith
            ])
      ]
  completed_stays (finish now id status_code body) row table wf new found done =
      elim (finish-cases saves now id status_code body table) [
        | inl same ↦ rw same found
        | inr (old, there, waiting, written) ↦ rw written (
            let saved = saves.find_by-save row.id (completed_with now status_code body old) table in
            elim (Bool-cases (old.id == row.id)) [
              | inl clash ↦
                  let same_row : some old ≡ some row =
                    sym there
                    ∙ ap (λ k. find_by request_id k table) ((eq_iff old.id row.id).0 clash)
                    ∙ found in
                  absurd (cc)
              | inr apart ↦ ground arith
            ])
      ]
  completed_stays (free id) row table (u, indexed) new found done = ground (
    arith,
    find_by-filter request_id (λ r. not ((r.id == id) && is_pending r.status)) row.id table u,
  )

  steps_keep_completed :
      (ss : List Step) (row : IdempotentRequest) (table : List IdempotentRequest)
      → IsIndexed table
      → AreNew saves ss table
      → find_by_id row.id table ≡ some row
      → row.status ≡ completed
      → (find_by_id row.id (steps saves ss table) ≡ some row) × IsIndexed (steps saves ss table)
  steps_keep_completed [] row table wf new found done = (found, wf)
  steps_keep_completed (s ∷ ss) row table wf (new, news) found done =
      steps_keep_completed ss row (step saves s table) (step-IsIndexed saves s table wf) news
        (completed_stays s row table wf new found done) done

  -- A row is what its key finds.
  find_by_unique_of_id :
      (row : IdempotentRequest) (key : RequestKey) (table : List IdempotentRequest)
      → IsIndexed table
      → find_by_id row.id table ≡ some row
      → same_key row.key key ≡ true
      → (find_by_unique key table ≡ some row) × (any (has_key key) table ≡ true)
  unfolding find_by_unique find_by_id
  find_by_unique_of_id row key table (u, indexed) found e =
      let here = find_by_mem request_id row.id table found in
      let (b, first, m, f) = find_of_mem (has_key key) table here e in
      let same : b ≡ row =
        eq_of_key request_id table u m here (
          indexed b row m here (same_key_trans b.key key row.key f (same_key-sym row.key key e))) in
      (first ∙ ap some same, any_of_mem (has_key key) table here e)

  -- In a table with unique ids and keys a pending request is completed. Whatever steps follow, with
  -- insertions of new ids only, `begin` with its key replays the response, or refuses another payload.
  pub begin-complete :
      (row : IdempotentRequest) (table : List IdempotentRequest)
      → IsIndexed table
      → find_by_id row.id table ≡ some row
      → row.status ≡ pending
      → (done_at status_code : ℕ) (body : Option Json) → (ss : List Step)
      → AreNew saves ss (complete saves done_at row.id status_code body table)
      → (meanwhile : List Step)
      → AreNew saves meanwhile
          (steps saves ss (complete saves done_at row.id status_code body table))
      → (now : ℕ) (id : String) (command : BeginIdempotentRequestCommand)
      → same_key row.key command.key ≡ true
      → (begin saves
          (steps saves meanwhile)
          now
          id
          command
          (steps saves ss (complete saves done_at row.id status_code body table))).0
        ≡ (if row.request_hash == command.request_hash
            then ok (replay status_code (get_or body null))
            else err (key_reuse_conflict command.key.idempotency_key))
  unfolding step complete update completed_with find_by_id begin create_pending answer_existing
      create
  begin-complete row table wf found waiting done_at status_code body ss new meanwhile news now id
        command e =
      let row_done = completed_with done_at status_code body row in
      let s = finish done_at row.id status_code body in
      let stored : find_by_id row.id (step saves s table) ≡ some row_done =
        ground (arith, saves.find_by-save row.id row_done table, eq_refl row.id) in
      let (kept, wf) =
        steps_keep_completed ss row_done (step saves s table) (step-IsIndexed saves s table wf) new
          stored refl in
      let (kept_on, wf_on) = steps_keep_completed meanwhile row_done _ wf news kept refl in
      let full = (find_by_unique_of_id row_done command.key _ wf kept e).1 in
      let seen = (find_by_unique_of_id row_done command.key _ wf_on kept_on e).0 in ground arith

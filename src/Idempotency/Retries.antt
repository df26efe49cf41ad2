-- ===== src/Idempotency/Retries.antt =====
-- Retries of a request whose handler has run.
use mathlib.Core.Path.{subst}
use hexagonal.Base.{
  ℕ, ◌≡◌, refl, ap, String, true, false, not, ◌&&◌, ◌==◌, none, some, get_or, List, arith, eqb,
  eq_refl, any, mem_of_any, of_mem-filter, not-eq-true, if◌then◌else◌, Result, ok, err,
}
use hexagonal.Json.{Json, null}
use hexagonal.Table.{Saves, find_by_mem, eq_of_key}
use hexagonal.Idempotency.Request.{IdempotentRequest, pending, is_pending, create}
use hexagonal.Idempotency.Repository.{
  request_id, has_key, find_by_id, create_pending, delete_pending,
}
use hexagonal.Idempotency.Service.{
  BeginIdempotentRequestCommand, BeginIdempotentRequestResult, replay, IdempotencyException, begin,
  complete, release,
}
use hexagonal.Idempotency.Steps.{Step, pending_request, IsIndexed, steps, AreNew}
use hexagonal.Idempotency.Replayed.{begin-complete, same_key_refl}
use hexagonal.Idempotency.Interceptor.{
  HttpRequest, Failure, failure, as_error, Response, Answers, extract_idempotency_key, command_of,
  released, run_handler, resolved, intercept,
}

-- The release of a pending request frees its key.
release_frees :
    (row : IdempotentRequest) (table : List IdempotentRequest)
    → IsIndexed table
    → find_by_id row.id table ≡ some row
    → row.status ≡ pending
    → any (has_key row.key) (release row.id table) ≡ false
unfolding release delete_pending find_by_id
release_frees row table (u, indexed) found waiting =
    let here = find_by_mem request_id row.id table found in
    not-eq-true (λ full.
      let (b, m, e) = mem_of_any (has_key row.key) (release row.id table) full in
      let (there, kept) = of_mem-filter _ table m in
      let same : b ≡ row = eq_of_key request_id table u there here (indexed b row there here e) in
      let gone = subst (λ r. not ((r.id == row.id) && is_pending r.status) ≡ true) same kept in
      ground (arith, eq_refl row.id))

module _ (trim to_upper_case : String → String) (saves : Saves IdempotentRequest request_id)
    (request : HttpRequest) (key : String)
    (keyed : extract_idempotency_key trim to_upper_case request ≡ some key) where
  abbrev pub command : BeginIdempotentRequestCommand
  command = command_of trim to_upper_case key request

  resolved-replay :
      (answers : Answers) (during : List IdempotentRequest → List IdempotentRequest) (done_at : ℕ)
      → (status_code : ℕ) (body : Json)
      → (begun : Result IdempotencyException BeginIdempotentRequestResult × List IdempotentRequest)
      → begun.0 ≡ ok (replay status_code body)
      → let replayed = resolved saves answers during done_at begun in
        (replayed.handled ≡ false)
        × (replayed.result
            ≡ ok (record {
              status_code = status_code;
              body = if eqb status_code 204 then none else some body;
            }))
  unfolding resolved
  resolved-replay answers during done_at status_code body (outcome, table) h = rw h (refl, refl)

  -- The first request runs the handler and completes.
  intercept_first :
      (answers : Answers) (response : Response)
      → answers.begin_done ≡ ok tt
      → answers.handler ≡ ok response
      → answers.complete_done ≡ ok tt
      → (meanwhile during : List IdempotentRequest → List IdempotentRequest)
      → (now done_at : ℕ) (id : String) (table : List IdempotentRequest)
      → any (has_key command.key) table ≡ false
      → intercept trim to_upper_case saves answers meanwhile during now done_at id request table
        ≡ (record {
          result = ok response;
          handled = true;
          table =
              complete saves done_at id response.status_code
                (some (get_or response.body null))
                (during (saves.save (pending_request now id command) table));
        })
  unfolding intercept resolved run_handler begin create_pending create
  intercept_first answers response begun handled finished meanwhile during now done_at id table
        vacant =
      ground arith

  -- A replay does not run the handler.
  intercept-replay :
      (answers : Answers) (status_code : ℕ) (body : Json)
      → answers.begin_done ≡ ok tt
      → (meanwhile during : List IdempotentRequest → List IdempotentRequest)
      → (now done_at : ℕ) (id : String) (table : List IdempotentRequest)
      → (begin saves meanwhile now id command table).0 ≡ ok (replay status_code body)
      → let replayed =
          intercept trim to_upper_case saves answers meanwhile during now done_at id request
            table in
        (replayed.handled ≡ false)
        × (replayed.result
            ≡ ok (record {
              status_code = status_code;
              body = if eqb status_code 204 then none else some body;
            }))
  unfolding intercept
  intercept-replay answers status_code body begun meanwhile during now done_at id table h =
      let same : intercept trim to_upper_case saves answers meanwhile during now done_at id request
            table
          ≡ resolved saves answers during done_at (begin saves meanwhile now id command table) =
        ground arith in
      rw same (resolved-replay answers during done_at status_code body _ h)

  -- `begin` after a completion replays it.
  begin_again :
      (now done_at : ℕ) (id : String) (status_code : ℕ) (body : Json)
      (table : List IdempotentRequest)
      → IsIndexed table
      → find_by_id id table ≡ some (pending_request now id command)
      → (after : List IdempotentRequest)
      → after ≡ complete saves done_at id status_code (some body) table
      → (ss later : List Step) → AreNew saves ss after
      → AreNew saves later (steps saves ss after)
      → (again_at : ℕ) (again_id : String)
      → (begin saves (steps saves later) again_at again_id command (steps saves ss after)).0
        ≡ ok (replay status_code body)
  unfolding create
  begin_again now done_at id status_code body table wf found after e ss later new news again_at
        again_id =
      let same_hash = eq_refl command.request_hash in
      let row = pending_request now id command in
      let replayed =
        begin-complete saves row table wf found refl done_at status_code (some body) ss
          (subst (λ t. AreNew saves ss t) e new) later
          (subst (λ t. AreNew saves later (steps saves ss t)) e news) again_at again_id command
          (same_key_refl command.key) in
      rw e (ground arith)

  -- A request whose key was free runs its handler and completes, in a table that has unique ids and
  -- keys and still holds it as pending. Whatever steps follow, with insertions of new ids only, the
  -- same request is answered without the handler, with the first response but for a body of a 204.
  pub intercept_again :
      (answers again : Answers) (response : Response)
      → answers.begin_done ≡ ok tt
      → answers.handler ≡ ok response
      → answers.complete_done ≡ ok tt
      → again.begin_done ≡ ok tt
      → (meanwhile during : List IdempotentRequest → List IdempotentRequest)
      → (now done_at : ℕ) (id : String) (table : List IdempotentRequest)
      → any (has_key command.key) table ≡ false
      → let table_during = during (saves.save (pending_request now id command) table) in
        IsIndexed table_during
        → find_by_id id table_during ≡ some (pending_request now id command)
        → let first =
            intercept trim to_upper_case saves answers meanwhile during now done_at id request
              table in
          (ss later : List Step)
          → AreNew saves ss first.table
          → AreNew saves later (steps saves ss first.table)
          → (again_during : List IdempotentRequest → List IdempotentRequest)
          → (again_at again_done_at : ℕ) (again_id : String)
          → let second =
              intercept trim to_upper_case saves again
                (steps saves later)
                again_during
                again_at
                again_done_at
                again_id
                request
                (steps saves ss first.table) in
            (first.result ≡ ok response)
            × (second.handled ≡ false)
            × (second.result
                ≡ ok (record {
                  status_code = response.status_code;
                  body =
                      if eqb response.status_code 204
                      then none
                      else some (get_or response.body null);
                }))
  unfolding create
  intercept_again answers again response begun handled finished begun_again meanwhile during now
        done_at id table vacant wf waiting ss later new news again_during again_at again_done_at
        again_id =
      let first =
        intercept_first answers response begun handled finished meanwhile during now done_at id
          table vacant in
      let replayed =
        begin_again now done_at id response.status_code (get_or response.body null) _ wf waiting _
          (ap (λ r. r.table) first) ss later new news again_at again_id in
      let (silent, same) =
        intercept-replay again response.status_code (get_or response.body null) begun_again
          (steps saves later) again_during again_at again_done_at again_id _ replayed in
      (ap (λ r. r.result) first, silent, same)

  -- A request whose key was free, and that the table, with unique ids and keys, still holds as pending
  -- when its handler throws, is answered with the error, and its release leaves the key free.
  pub intercept_failed :
      (answers : Answers) (thrown : Failure)
      → answers.begin_done ≡ ok tt
      → answers.handler ≡ err thrown
      → answers.release_done ≡ ok tt
      → (meanwhile during : List IdempotentRequest → List IdempotentRequest)
      → (now done_at : ℕ) (id : String) (table : List IdempotentRequest)
      → any (has_key command.key) table ≡ false
      → let table_during = during (saves.save (pending_request now id command) table) in
        IsIndexed table_during
        → find_by_id id table_during ≡ some (pending_request now id command)
        → let failed =
            intercept trim to_upper_case saves answers meanwhile during now done_at id request
              table in
          (failed.result ≡ err (failure (as_error thrown)))
          × (any (has_key command.key) failed.table ≡ false)
  unfolding intercept resolved run_handler released begin create_pending create
  intercept_failed answers thrown begun failed freed meanwhile during now done_at id table vacant wf
        waiting =
      let free = release_frees (pending_request now id command) _ wf waiting refl in
      (ground arith, ground arith)

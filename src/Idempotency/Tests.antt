-- ===== src/Idempotency/Tests.antt =====
-- The theorems on the idempotent requests at concrete tables.
use hexagonal.Base.{◌≡◌, ◌≤◌, refl, String, false, none, some, List, [], ◌∷◌, ok, err, any, suc}
use hexagonal.Json.{null, str}
use hexagonal.Table.{Saves}
use hexagonal.Table.Upsert.{upserting}
use hexagonal.Idempotency.Request.{IdempotentRequest, create, completed_with}
use hexagonal.Idempotency.Repository.{
  request_id, has_key, find_by_id, create_pending, update, delete_pending,
}
use hexagonal.Idempotency.Service.{BeginIdempotentRequestCommand, replay, begin, complete, release}
use hexagonal.Idempotency.Steps.{
  Step, insert, finish, free, pending_request, IsIndexed, step, steps, step-IsIndexed,
}
use hexagonal.Idempotency.Started.{starts, removals, started_at_most}
use hexagonal.Idempotency.Replayed.{begin-complete}
use hexagonal.Idempotency.Interceptor.{
  HttpRequest, error, failure, Answers, build_idempotent_request_scope_key,
  build_idempotent_request_route_key, extract_idempotency_key, command_of, intercept,
}
use hexagonal.Idempotency.Cells.{vacant, cell_step, cell_steps, cell_answer, cell}
use hexagonal.Idempotency.Refinement.{begin-cell_steps}
use hexagonal.Idempotency.Retries.{intercept_again, intercept_failed}

abbrev saves : Saves IdempotentRequest request_id
saves = upserting request_id

abbrev request : HttpRequest
request = record {
  idempotency_key = some "k1";
  method = "POST";
  user = none;
  effective_organization_id = some "o";
  ip = some "10.0.0.1";
  base_url = some "/v1";
  route_path = some "/orders";
  path = none;
  original_url = none;
  request_hash = "h";
}

abbrev same_text : String → String
same_text s = s

abbrev order : BeginIdempotentRequestCommand
order = command_of same_text same_text "k1" request

abbrev answers : Answers
answers = record {
  begin_done = ok tt;
  handler = ok (record { status_code = 201; body = some (str "made") });
  complete_done = ok tt;
  release_done = ok tt;
}

abbrev unchanged : List IdempotentRequest → List IdempotentRequest
unchanged table = table

abbrev empty_IsIndexed : IsIndexed []
empty_IsIndexed = (tt, λ a b m n e. elim m [ ])

abbrev started_row : IdempotentRequest
started_row = pending_request 5 "r1" order

one_row_IsIndexed : IsIndexed (started_row ∷ [])
unfolding step create_pending
one_row_IsIndexed = step-IsIndexed saves (insert 5 "r1" order) [] empty_IsIndexed

started_at_most_example :
    starts saves order.key
      (insert 5 "r1" order ∷ finish 6 "r1" 201 none ∷ free "r1" ∷ insert 7 "r2" order ∷ [])
      []
    ≤ suc (
        removals saves order.key
          (insert 5 "r1" order ∷ finish 6 "r1" 201 none ∷ free "r1" ∷ insert 7 "r2" order ∷ [])
          [])
unfolding find_by_id step create_pending complete update create release delete_pending
    completed_with
started_at_most_example =
    started_at_most saves order.key
      (insert 5 "r1" order ∷ finish 6 "r1" 201 none ∷ free "r1" ∷ insert 7 "r2" order ∷ []) []
      empty_IsIndexed (refl, (tt, (tt, (refl, tt))))

begin-complete_example :
    (begin saves
      (steps saves (free "r1" ∷ []))
      9
      "r2"
      order
      (steps saves (free "r1" ∷ []) (complete saves 6 "r1" 201 none (started_row ∷ [])))).0
    ≡ ok (replay 201 null)
unfolding create find_by_id command_of build_idempotent_request_scope_key
    build_idempotent_request_route_key
begin-complete_example =
    begin-complete saves started_row (started_row ∷ []) one_row_IsIndexed refl refl 6 201 none
      (free "r1" ∷ []) (tt, tt) (free "r1" ∷ []) (tt, tt) 9 "r2" order refl

intercept_again_example :
    let first =
      intercept same_text same_text saves answers unchanged unchanged 5 6 "r1" request [] in
    let second =
      intercept same_text same_text saves answers
        (steps saves [])
        unchanged
        7
        8
        "r2"
        request
        first.table in
    (first.result ≡ ok (record { status_code = 201; body = some (str "made") }))
    × (second.handled ≡ false)
    × (second.result ≡ ok (record { status_code = 201; body = some (str "made") }))
unfolding extract_idempotency_key create find_by_id
intercept_again_example =
    intercept_again same_text same_text saves request "k1" refl answers answers
      (record { status_code = 201; body = some (str "made") }) refl refl refl refl unchanged
      unchanged 5 6 "r1" [] refl one_row_IsIndexed refl [] [] tt tt unchanged 7 8 "r2"

abbrev failing : Answers
failing = record answers { handler = err (error "down") }

intercept_failed_example :
    let failed =
      intercept same_text same_text saves failing unchanged unchanged 5 6 "r1" request [] in
    (failed.result ≡ err (failure (error "down"))) × (any (has_key order.key) failed.table ≡ false)
unfolding extract_idempotency_key create find_by_id
intercept_failed_example =
    intercept_failed same_text same_text saves request "k1" refl failing (error "down") refl refl
      refl unchanged unchanged 5 6 "r1" [] refl one_row_IsIndexed refl

abbrev history : List Step
history = insert 5 "r1" order ∷ insert 6 "r2" order ∷ finish 7 "r1" 201 none ∷ []

begin-cell_steps_example :
    (begin saves unchanged 8 "r3" order (steps saves history [])).0
    ≡ cell_answer "r3" order (cell_steps order.key history (cell order.key []))
unfolding step create_pending complete update create completed_with find_by_id
begin-cell_steps_example =
    begin-cell_steps saves history [] empty_IsIndexed (refl, (refl, (tt, tt))) 8 "r3" order

-- The first request is kept, and the second one does not start.
kept_response : cell_answer "r3" order (cell_steps order.key history vacant) ≡ ok (replay 201 null)
unfolding cell_answer cell_steps cell_step command_of build_idempotent_request_scope_key
    build_idempotent_request_route_key
kept_response = refl

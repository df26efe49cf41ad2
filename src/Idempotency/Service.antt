-- ===== src/Idempotency/Service.antt =====
-- src/modules/idempotency/application/request-idempotency.service.ts.
use hexagonal.Base.{ℕ, String, Option, none, some, List, ◌==◌, if◌then◌else◌, not, Result, ok, err}
use hexagonal.Json.{Json}
use hexagonal.Table.{Saves}
use hexagonal.Idempotency.Request.{
  RequestKey, IdempotentRequest, IdempotentRequestStatus, pending, completed, create,
  completed_with, CreateIdempotentRequestProps,
}
use hexagonal.Idempotency.Repository.{
  request_id, find_by_id, find_by_unique, delete_pending, create_pending, update,
}

pub record BeginIdempotentRequestCommand : Type 0 where
  pub key : RequestKey
  pub request_hash : String

pub data BeginIdempotentRequestResult : Type 0 where
  started : (request_id : String) → BeginIdempotentRequestResult
  replay : (status_code : ℕ) → (body : Json) → BeginIdempotentRequestResult

pub data IdempotencyException : Type 0 where
  key_reuse_conflict : String → IdempotencyException
  request_in_progress : String → IdempotencyException

-- The answer for a request that is completed or not, by its status and status code.
abbrev pub answer_status :
    String
    → IdempotentRequestStatus
    → Option ℕ
    → Json
    → Result IdempotencyException BeginIdempotentRequestResult
answer_status key completed (some status_code) body = ok (replay status_code body)
answer_status key completed none body = err (request_in_progress key)
answer_status key pending status_code body = err (request_in_progress key)

-- The part of `begin` after the look-up of the existing request.
unfoldable pub answer_existing :
    BeginIdempotentRequestCommand
    → Option IdempotentRequest
    → Result IdempotencyException BeginIdempotentRequestResult
answer_existing command none = err (request_in_progress command.key.idempotency_key)
answer_existing command (some r) =
    if not (r.request_hash == command.request_hash)
    then err (key_reuse_conflict command.key.idempotency_key)
    else answer_status command.key.idempotency_key r.status r.response_status_code r.response_body

module _ (saves : Saves IdempotentRequest request_id) where
  -- `id` is the new random UUID; `meanwhile` is what others write between the two statements.
  unfoldable pub begin :
      (meanwhile : List IdempotentRequest → List IdempotentRequest)
      → (now : ℕ) (id : String) → BeginIdempotentRequestCommand
      → List IdempotentRequest
      → Result IdempotencyException BeginIdempotentRequestResult × List IdempotentRequest
  begin meanwhile now id command table =
      let props : CreateIdempotentRequestProps = record {
        id = id;
        key = command.key;
        request_hash = command.request_hash;
      } in
      let (created, table) = create_pending saves (create now props) table in
      elim created [
        | some request ↦ (ok (started request.id), table)
        | none ↦ (
          answer_existing command (find_by_unique command.key (meanwhile table)),
          meanwhile table,
        )
      ]

  abbrev pub complete_found :
      (now status_code : ℕ) (body : Option Json)
      → IdempotentRequestStatus
      → IdempotentRequest
      → List IdempotentRequest
      → List IdempotentRequest
  complete_found now status_code body completed request table = table
  complete_found now status_code body pending request table =
      update saves (completed_with now status_code body request) table

  unfoldable pub complete :
      (now : ℕ) (id : String) (status_code : ℕ) (body : Option Json)
      → List IdempotentRequest
      → List IdempotentRequest
  complete now id status_code body table = elim (find_by_id id table) [
    | none ↦ table
    | some request ↦ complete_found now status_code body request.status request table
  ]

unfoldable pub release : String → List IdempotentRequest → List IdempotentRequest
release = delete_pending

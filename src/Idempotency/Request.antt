-- ===== src/Idempotency/Request.antt =====
-- src/modules/idempotency/domain/entities/idempotent-request.entity.ts.
use hexagonal.Base.{ℕ, String, Bool, true, false, Option, none, some, get_or}
use hexagonal.Json.{Json, null}

pub data IdempotentRequestStatus : Type 0 where
  pending : IdempotentRequestStatus
  completed : IdempotentRequestStatus

abbrev pub is_pending : IdempotentRequestStatus → Bool
is_pending pending = true
is_pending completed = false

-- The columns of the unique index of the table.
pub record RequestKey : Type 0 where
  pub scope_key : String
  pub idempotency_key : String
  pub method : String
  pub route_key : String

pub record CreateIdempotentRequestProps : Type 0 where
  pub id : String
  pub key : RequestKey
  pub request_hash : String

-- `null` as a status code is `none`, as a body it is the JSON value.
pub record IdempotentRequest : Type 0 where
  pub id : String
  pub key : RequestKey
  pub request_hash : String
  pub status : IdempotentRequestStatus
  pub response_status_code : Option ℕ
  pub response_body : Json
  pub created_at : ℕ
  pub updated_at : ℕ

unfoldable pub create : (now : ℕ) → CreateIdempotentRequestProps → IdempotentRequest
create now props = record {
  id = props.id;
  key = props.key;
  request_hash = props.request_hash;
  status = pending;
  response_status_code = none;
  response_body = null;
  created_at = now;
  updated_at = now;
}

-- `complete`; a body that is `undefined` is `none`.
unfoldable pub completed_with :
    (now status_code : ℕ) (body : Option Json) → IdempotentRequest → IdempotentRequest
completed_with now status_code body request = record request {
  status = completed;
  response_status_code = some status_code;
  response_body = get_or body null;
  updated_at = now;
}

-- ===== src/Idempotency/Repository.antt =====
-- src/modules/idempotency/infrastructure/persistence/typeorm/repositories/
-- idempotent-request.typeorm-repository.ts. The object mapper's `save` is a parameter.
use hexagonal.Base.{String, Bool, Option, none, some, List, ◌==◌, ◌&&◌, if◌then◌else◌, any, find}
use hexagonal.Table.{find_by, delete_where, Saves}
use hexagonal.Idempotency.Request.{RequestKey, IdempotentRequest, is_pending}

abbrev pub request_id : IdempotentRequest → String
request_id r = r.id

-- Equality on the columns of the unique index.
abbrev pub same_key : RequestKey → RequestKey → Bool
same_key j k =
    (j.scope_key == k.scope_key)
    && (j.idempotency_key == k.idempotency_key)
    && (j.method == k.method)
    && (j.route_key == k.route_key)

abbrev pub has_key : RequestKey → IdempotentRequest → Bool
has_key k r = same_key r.key k

unfoldable pub find_by_id : String → List IdempotentRequest → Option IdempotentRequest
find_by_id = find_by request_id

unfoldable pub find_by_unique : RequestKey → List IdempotentRequest → Option IdempotentRequest
find_by_unique k = find (has_key k)

-- Only requests that are still pending.
unfoldable pub delete_pending : String → List IdempotentRequest → List IdempotentRequest
delete_pending id = delete_where (λ r. (r.id == id) && is_pending r.status)

module _ (saves : Saves IdempotentRequest request_id) where
  -- A row with the same key in the unique index makes the database refuse the row (23505), which is
  -- answered with `null`. The id of the request is new, so the row with its key is another one.
  unfoldable pub create_pending :
      IdempotentRequest → List IdempotentRequest → Option IdempotentRequest × List IdempotentRequest
  create_pending request table =
      if any (has_key request.key) table
      then (none, table)
      else (some request, saves.save request table)

  unfoldable pub update : IdempotentRequest → List IdempotentRequest → List IdempotentRequest
  update = saves.save

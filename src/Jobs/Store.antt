-- ===== src/Jobs/Store.antt =====
-- The tables that a job handler works on, the ports that it calls, and
-- src/common/infrastructure/database/typeorm/transaction/typeorm-transaction-runner.adapter.ts.
-- Handlers of one job run one after the other, since each locks the job's row.
use hexagonal.Base.{String, ◌||◌, none, some, List, Result, ok, err, if◌then◌else◌}
use hexagonal.Table.{Saves}
use hexagonal.Jobs.Errors.{Thrown}
use hexagonal.Jobs.Entity.{JobOutbox, completed, dead, same_status, JobExecutionReceipt}
use hexagonal.Jobs.Repository.{job_id, find_by_id, find_receipt, ReceiptSaves}
use hexagonal.Webhooks.Endpoint.{WebhookEndpoint, endpoint_id}

pub record Store : Type 0 where
  pub jobs : List JobOutbox
  pub receipts : List JobExecutionReceipt
  pub endpoints : List WebhookEndpoint

-- The object mapper's `save` on each table; `trim` and `decrypt` (of the webhook secrets) are the
-- runtime's and the cipher's.
pub record Ports : Type 0 where
  pub job_saves : Saves JobOutbox job_id
  pub receipt_saves : ReceiptSaves
  pub endpoint_saves : Saves WebhookEndpoint endpoint_id
  pub trim : String → String
  pub decrypt : String → Result Thrown String

-- `runInTransaction` of the object mapper's data source: an exception rolls the tables back.
unfoldable pub run_in_transaction {ℓ} :
    {A : Type ℓ} → (Store → Result Thrown A × Store) → Store → Result Thrown A × Store
run_in_transaction body store =
    let (result, after) = body store in
    elim result [ ok a ↦ (ok a, after) | err error ↦ (err error, store) ]

-- What a handler does with a job, by its row and its receipt.
pub data Admission : Type 0 where
  skip : Admission
  finish proceed : JobOutbox → Admission

-- The first two reads of both handlers, with their early returns.
unfoldable pub admit : (handler id : String) → Store → Admission
admit handler id store = elim (find_by_id id store.jobs) [
  | none ↦ skip
  | some job ↦
      if same_status job.status completed || same_status job.status dead
      then skip
      else elim (find_receipt id handler store.receipts) [
        | none ↦ proceed job
        | some _ ↦ finish job
      ]
]

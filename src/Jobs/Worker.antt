-- ===== src/Jobs/Worker.antt =====
-- src/modules/jobs/infrastructure/sqs/sqs-async-job.worker.ts, and the sending side of the queue,
-- src/modules/jobs/infrastructure/adapters/sqs-async-job-dispatcher.adapter.ts.
pub mod Envelopes
pub mod Dead
pub mod Buried
mod Tests
use hexagonal.Jobs.Processor
use hexagonal.Jobs.Processor.{process}
use hexagonal.Base.{
  ℕ, zero, suc, String, Bool, true, false, not, ◌&&◌, ◌||◌, Option, none, some, List, [], ◌∷◌,
  Result, ok, err, ◌==◌, eqb, if◌then◌else◌, ◌>>=◌, ◌>>◌,
}
use hexagonal.Json.{Json, null, num, str, obj, Fields, field, end, get, JsonCodec}
use hexagonal.Jobs.Errors.{Thrown, non_retryable_job_error, other_error}
use hexagonal.Jobs.Entity.{AsyncJobEnvelope, JobOutbox, completed, dead, same_status, mark_dead}
use hexagonal.Jobs.Repository.{find_by_id}
use hexagonal.Jobs.Store.{Store, Ports}

-- A message of the queue: its body, if there is one, and whether it has a receipt handle.
pub record Message : Type 0 where
  pub body : Option String
  pub has_receipt_handle : Bool

-- `null` for a trace that is missing.
abbrev trace_json : Option String → Json
trace_json none = null
trace_json (some id) = str id

-- `JSON.stringify` leaves out a property that is `undefined`.
abbrev payload_json : Option Json → Fields → Fields
payload_json none fields = fields
payload_json (some payload) fields = field "payload" payload fields

-- The object that `JSON.stringify(command.envelope)` is given.
unfoldable pub envelope_json : AsyncJobEnvelope → Json
envelope_json envelope = obj (
    field "jobId" (str envelope.job_id) (
      field "version" (num envelope.version) (
        field "type" (str envelope.type) (
          payload_json envelope.payload (
            field "publishedAt" (str envelope.published_at)
              (field "traceId" (trace_json envelope.trace_id) end))))))

abbrev invalid_envelope : Thrown
invalid_envelope = non_retryable_job_error "Invalid async job envelope"

text : Option Json → Result Thrown String
text (some (str s)) = ok s
text _ = err invalid_envelope

version_one : Option Json → Result Thrown (Unit {0})
version_one (some (num n)) = if eqb n 1 then ok tt else err invalid_envelope
version_one _ = err invalid_envelope

-- `undefined`, `null` or a text.
trace : Option Json → Result Thrown (Option String)
trace none = ok none
trace (some null) = ok none
trace (some (str id)) = ok (some id)
trace (some _) = err invalid_envelope

-- The checks on the parsed value. Reading a property of `null` is a `TypeError`.
read_envelope : Json → Result Thrown AsyncJobEnvelope
unfolding text version_one trace
read_envelope null = err (other_error "Cannot read properties of null (reading 'version')")
read_envelope parsed = do
  version_one (get "version" parsed)
  job_id ← text (get "jobId" parsed)
  type ← text (get "type" parsed)
  published_at ← text (get "publishedAt" parsed)
  trace_id ← trace (get "traceId" parsed)
  ok (record {
    job_id = job_id;
    version = 1;
    type = type;
    payload = get "payload" parsed;
    published_at = published_at;
    trace_id = trace_id;
  })

module _ (codec : JsonCodec) where
  unfoldable pub parse_envelope : String → Result Thrown AsyncJobEnvelope
  unfolding read_envelope
  parse_envelope body = elim (codec.parse body) [
    | none ↦ err invalid_envelope
    | some parsed ↦ read_envelope parsed
  ]

-- What the world answers while a message is processed: the queue to the deletion after success, the
-- database to the write of a dead job, and the queue to the deletion after an error.
pub record Answers : Type 0 where
  pub processing : Processor.Answers
  pub delete_done : Result Thrown (Unit {0})
  pub mark_dead : Result Thrown (Unit {0})
  pub delete_failed : Result Thrown (Unit {0})

-- How it ends: what escapes to the polling loop, the tables, and whether the message is deleted.
pub record Processed : Type 0 where
  pub result : Result Thrown (Unit {0})
  pub store : Store
  pub deleted : Bool

-- `jobOutbox && jobOutbox.status !== 'completed' && jobOutbox.status !== 'dead'`
abbrev pub is_open : Option JobOutbox → Bool
is_open none = false
is_open (some job) = not (same_status job.status completed) && not (same_status job.status dead)

-- The row that the outbox has for an envelope, if the envelope could be read.
abbrev row_of : Option AsyncJobEnvelope → Store → Option JobOutbox
row_of none store = none
row_of (some envelope) store = find_by_id envelope.job_id store.jobs

module _ (ports : Ports) (codec : JsonCodec) where
  abbrev delete_message : Result Thrown (Unit {0}) → Store → Processed
  delete_message (ok _) store = record { result = ok tt; store = store; deleted = true }
  delete_message (err error) store = record { result = err error; store = store; deleted = false }

  -- The write of the dead job, and then the deletion of the message.
  bury : Answers → (now : ℕ) (message : String) → Option JobOutbox → Store → Processed
  bury answers now message none store = delete_message answers.delete_failed store
  bury answers now message (some job) store =
      if is_open (some job)
      then elim answers.mark_dead [
        | err error ↦ record { result = err error; store = store; deleted = false }
        | ok _ ↦
            delete_message answers.delete_failed
              (record store { jobs = ports.job_saves.save (mark_dead now message job) store.jobs })
      ]
      else delete_message answers.delete_failed store

  -- The `catch` block: only errors that cannot be retried do more than log.
  catch_error : Answers → (now : ℕ) → Option AsyncJobEnvelope → Thrown → Store → Processed
  unfolding bury
  catch_error answers now envelope (non_retryable_job_error message) store =
      bury answers now message (row_of envelope store) store
  catch_error answers now envelope error store = record {
    result = ok tt;
    store = store;
    deleted = false;
  }

  -- After the envelope has been read.
  unfoldable pub process_envelope : Answers → (now : ℕ) → AsyncJobEnvelope → Store → Processed
  unfolding catch_error
  process_envelope answers now envelope store =
      let (result, after) = process ports answers.processing now envelope store in
      elim result [
        | err error ↦ catch_error answers now (some envelope) error after
        | ok _ ↦ elim answers.delete_done [
          | ok _ ↦ record { result = ok tt; store = after; deleted = true }
          | err error ↦ catch_error answers now (some envelope) error after
        ]
      ]

  unfoldable pub process_body : Answers → (now : ℕ) → String → Store → Processed
  unfolding process_envelope parse_envelope
  process_body answers now body store = elim (parse_envelope codec body) [
    | err error ↦ catch_error answers now none error store
    | ok envelope ↦ process_envelope answers now envelope store
  ]

  unfoldable pub process_message : Answers → (now : ℕ) → Message → Store → Processed
  unfolding process_body
  process_message answers now message store = elim message.body [
    | none ↦ record { result = ok tt; store = store; deleted = false }
    | some body ↦
        if body == "" || not message.has_receipt_handle
        then record { result = ok tt; store = store; deleted = false }
        else process_body answers now body store
  ]

  -- The `for` loop over a batch: `fuel` messages are processed before the worker is told to stop; an
  -- exception leaves the loop for the `catch` of the poll, which goes on from there.
  unfoldable pub process_batch :
      (answers : Message → Answers) (now fuel : ℕ) → List Message → Store → Store
  process_batch answers now fuel [] store = store
  process_batch answers now zero (message ∷ messages) store = store
  process_batch answers now (suc fuel) (message ∷ messages) store =
      let done = process_message (answers message) now message store in
      let rest = process_batch answers now fuel messages done.store in
      elim done.result [ ok _ ↦ rest | err error ↦ done.store ]

-- ===== src/Jobs/Email.antt =====
-- src/modules/jobs/application/transactional-email-job.handler.ts.
pub mod Once
use Prim.Native.String
use hexagonal.Base.{
  ℕ, String, Bool, true, false, not, ◌&&◌, ◌||◌, Option, none, some, is_some, List, Result, ok, err,
  ◌==◌, if◌then◌else◌, ◌>>=◌,
}
use hexagonal.Json.{Json, str, get, is_string, is_number, is_object}
use hexagonal.Table.{Saves}
use hexagonal.Jobs.Errors.{Thrown, non_retryable_job_error}
use hexagonal.Jobs.Entity.{JobOutbox, mark_completed, create_receipt}
use hexagonal.Jobs.Repository.{ReceiptSaves}
use hexagonal.Jobs.Store.{Store, Ports, run_in_transaction, Admission, skip, finish, proceed, admit}

abbrev pub handler_type : String
handler_type = "transactional_email"

abbrev invalid : String → Result Thrown Json
invalid message = err (non_retryable_job_error message)

-- The `switch` on the type of the message.
validate_typed : String → Json → Result Thrown Json
validate_typed type payload =
    if type == "password_reset"
    then if not (is_string (get "recipientName" payload))
        || not (is_string (get "resetToken" payload))
        || not (is_number (get "expiresInMinutes" payload))
      then invalid "Invalid password reset payload"
      else ok payload
    else if type == "email_verification"
    then if not (is_string (get "recipientName" payload))
        || not (is_string (get "verificationToken" payload))
        || not (is_number (get "expiresInHours" payload))
      then invalid "Invalid email verification payload"
      else ok payload
    else if type == "organization_invitation"
    then if not (is_string (get "organizationName" payload))
        || not (is_string (get "roleCode" payload))
        || not (is_string (get "invitationToken" payload))
        || not (is_number (get "expiresInDays" payload))
      then invalid "Invalid organization invitation payload"
      else ok payload
    else if type == "welcome"
    then if not (is_string (get "recipientName" payload))
      then invalid "Invalid welcome email payload"
      else ok payload
    else invalid (String.◌++◌ "Unsupported transactional email type: " type)

-- The payload must be an object with the texts `type` and `to`.
validate_object : Option Json → Json → Result Thrown Json
unfolding validate_typed
validate_object (some (str type)) payload =
    if is_string (get "to" payload)
    then validate_typed type payload
    else invalid "Invalid transactional email payload"
validate_object _ payload = invalid "Invalid transactional email payload"

-- `none` is `undefined`.
unfoldable pub validate : Option Json → Result Thrown Json
unfolding validate_object
validate none = invalid "Invalid transactional email payload"
validate (some payload) =
    if is_object (some payload)
    then validate_object (get "type" payload) payload
    else invalid "Invalid transactional email payload"

-- What the world answers to one handling: the database to the reads, the mail port, and the
-- database to the writes and the commit.
pub record Answers : Type 0 where
  pub reads : Result Thrown (Unit {0})
  pub send : Result Thrown (Unit {0})
  pub writes : Result Thrown (Unit {0})

-- How a handling ends: its result, the tables, and the message that the mail port was handed.
pub record Handled : Type 0 where
  pub result : Result Thrown (Unit {0})
  pub store : Store
  pub sent : Option Json

module _ (ports : Ports) where
  -- `update(job.markCompleted())`.
  unfoldable pub complete : (now : ℕ) → JobOutbox → Store → Store
  complete now job store = record store {
    jobs = ports.job_saves.save (mark_completed now job) store.jobs;
  }

  -- The receipt is created, and then the job completed.
  unfoldable pub acknowledge : (handler id : String) (now : ℕ) → JobOutbox → Store → Store
  unfolding complete
  acknowledge handler id now job store = complete now job (record store {
    receipts = ports.receipt_saves.save (create_receipt now id handler) store.receipts;
  })

  -- The body of the transaction after the reads.
  handle_admitted : Answers → (now : ℕ) (id : String) (payload : Json) → Admission → Store → Handled
  handle_admitted answers now id payload skip store = record {
    result = ok tt;
    store = store;
    sent = none;
  }
  handle_admitted answers now id payload (finish job) store = record {
    result = answers.writes;
    store = complete now job store;
    sent = none;
  }
  handle_admitted answers now id payload (proceed job) store = record {
    result = answers.send >>= λ _. answers.writes;
    store = acknowledge handler_type id now job store;
    sent = some payload;
  }

  unfoldable pub handle : Answers → (now : ℕ) (id : String) (payload : Json) → Store → Handled
  unfolding handle_admitted run_in_transaction
  handle answers now id payload store =
      let handled = handle_admitted answers now id payload (admit handler_type id store) store in
      let body : Result Thrown (Unit {0}) × Store =
        (answers.reads >>= λ _. handled.result, handled.store) in
      let (result, after) = run_in_transaction (λ _. body) store in
      let sent : Option Json = elim answers.reads [ ok _ ↦ handled.sent | err _ ↦ none ] in
      record { result = result; store = after; sent = sent }

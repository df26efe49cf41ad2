-- ===== src/Jobs/Email/Once.antt =====
-- A message is sent once: the receipt, written in the transaction that completes the job, keeps
-- every later handling from sending again.
use hexagonal.Base.{
  ℕ, suc, ◌≤◌, ◌≡◌, ◌≢◌, refl, inl, inr, String, Bool, true, none, some, is_some, List, [], ◌∷◌,
  arith, ok, err, eq_refl, if◌then◌else◌, Option-cases, Bool-cases, eq_iff,
}
use hexagonal.Json.{Json}
use hexagonal.Table.{find_by-key}
use hexagonal.Jobs.Errors.{Thrown}
use hexagonal.Jobs.Entity.{JobOutbox, completed, dead, same_status, mark_completed, create_receipt}
use hexagonal.Jobs.Repository.{job_id, find_by_id, find_receipt}
use hexagonal.Jobs.Store.{Store, Ports, run_in_transaction, admit}
use hexagonal.Jobs.Email.{handler_type, Answers, complete, acknowledge, handle_admitted, handle}

-- The job has been handled by the handler before.
abbrev pub HasReceipt : (handler id : String) → Store → Type 0
HasReceipt handler id store = is_some (find_receipt handler id store.receipts) ≡ true

module _ (ports : Ports) (id : String) where
  abbrev pub has_receipt : Store → Bool
  has_receipt store = is_some (find_receipt id handler_type store.receipts)

  -- With a receipt nothing is sent.
  receipt_keeps_silent :
      (answers : Answers) (now : ℕ) (payload : Json) (store : Store)
      → has_receipt store ≡ true
      → (handle ports answers now id payload store).sent ≡ none
  unfolding handle handle_admitted admit
  receipt_keeps_silent answers now payload store h = ground arith

  -- A receipt stays.
  receipt_stays :
      (answers : Answers) (now : ℕ) (payload : Json) (store : Store)
      → has_receipt store ≡ true
      → has_receipt (handle ports answers now id payload store).store ≡ true
  unfolding handle handle_admitted admit run_in_transaction acknowledge complete
  receipt_stays answers now payload store h = ground arith

  -- A handling that sends and ends well leaves a receipt.
  send_leaves_receipt :
      (answers : Answers) (now : ℕ) (payload : Json) (store : Store)
      → (handle ports answers now id payload store).result ≡ ok tt
      → (handle ports answers now id payload store).sent ≢ none
      → has_receipt (handle ports answers now id payload store).store ≡ true
  unfolding handle handle_admitted admit run_in_transaction acknowledge complete create_receipt
  send_leaves_receipt answers now payload store h sent = ground (
    arith,
    ports.receipt_saves.find_receipt-save id handler_type (create_receipt now id handler_type)
        store.receipts,
    eq_refl id,
    eq_refl handler_type,
  )

  -- A handling that throws leaves the tables as they were.
  pub handle_atomic :
      (answers : Answers) (now : ℕ) (payload : Json) (store : Store) (error : Thrown)
      → (handle ports answers now id payload store).result ≡ err error
      → (handle ports answers now id payload store).store ≡ store
  unfolding handle run_in_transaction
  handle_atomic answers now payload store error h = ground arith

  -- A handling of a job that is in the outbox and not dead, if it ends well, leaves it completed,
  -- with its number of attempts as it was.
  pub handle_completes :
      (answers : Answers) (now : ℕ) (payload : Json) (store : Store) (job : JobOutbox)
      → find_by_id id store.jobs ≡ some job
      → job.status ≢ dead
      → (handle ports answers now id payload store).result ≡ ok tt
      → (after : JobOutbox) × (find_by_id id (handle ports answers now id payload store).store.jobs
          ≡ some after)
        × (after.status ≡ completed)
        × (after.attempt_count ≡ job.attempt_count)
  unfolding handle handle_admitted admit run_in_transaction acknowledge complete create_receipt
      mark_completed
  handle_completes answers now payload store job found alive h =
      let done = mark_completed now job in
      let saved = ports.job_saves.find_by-save id done store.jobs in
      let named = find_by-key job_id id store.jobs found in
      elim (Bool-cases (same_status job.status completed)) [
        | inl already ↦ (job, ground arith, ground arith, refl)
        | inr open_job ↦ (done, ground (arith, saved, named, eq_iff job.id id), refl, refl)
      ]

  -- One handling after another, each with its own answers, time and payload. Counted are those that
  -- hand the message to the mail port and end well.
  abbrev pub Run : Type 0
  Run = Answers × ℕ × Json

  unfoldable pub deliveries : List Run → Store → ℕ
  deliveries [] store = 0
  deliveries ((answers, now, payload) ∷ runs) store =
      let handled = handle ports answers now id payload store in
      let rest = deliveries runs handled.store in
      elim handled.result [ ok _ ↦ if is_some handled.sent then suc rest else rest | err _ ↦ rest ]

  no_more_deliveries :
      (runs : List Run) (store : Store) → has_receipt store ≡ true → deliveries runs store ≡ 0
  unfolding deliveries
  no_more_deliveries [] store h = refl
  no_more_deliveries ((answers, now, payload) ∷ runs) store h = ground (
    arith,
    receipt_keeps_silent answers now payload store h,
    no_more_deliveries runs (handle ports answers now id payload store).store
        (receipt_stays answers now payload store h),
  )

  -- However often a job is handled, and whatever fails meanwhile, at most one handling sends the
  -- message and ends well.
  pub deliveries_at_most_once : (runs : List Run) (store : Store) → deliveries runs store ≤ 1
  unfolding deliveries
  deliveries_at_most_once [] store = omega arith
  deliveries_at_most_once ((answers, now, payload) ∷ runs) store =
      let after = (handle ports answers now id payload store).store in
      elim (Option-cases (handle ports answers now id payload store).sent) [
        | inl silent ↦ ground (arith, deliveries_at_most_once runs after)
        | inr (message, spoken) ↦ ground (
          arith,
          deliveries_at_most_once runs after,
          λ (h : (handle ports answers now id payload store).result ≡ ok tt).
              no_more_deliveries runs after
                (send_leaves_receipt answers now payload store h (λ e. cc)),
        )
      ]

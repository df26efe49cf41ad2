-- ===== src/Jobs/WebhookDelivery/Once.antt =====
-- A webhook is delivered once; a failed delivery is noted at the endpoint and leaves the job.
use hexagonal.Base.{
  ℕ, suc, ◌≤◌, ◌≡◌, ◌≢◌, refl, String, Bool, true, none, is_some, List, [], ◌∷◌, arith, ok, err,
  eq_refl,
}
use hexagonal.Jobs.Errors.{Thrown}
use hexagonal.Jobs.Entity.{create_receipt}
use hexagonal.Jobs.Repository.{find_receipt}
use hexagonal.Jobs.Store.{Store, Ports, run_in_transaction, admit}
use hexagonal.Jobs.Email.{complete, acknowledge}
use hexagonal.Jobs.WebhookDelivery.{
  handler_type, Answers, Handled, completed, skipped, failed, WebhookDeliveryJobPayload, deliver,
  deliver_found, handle_admitted, handle,
}

module _ (ports : Ports) (id : String) where
  abbrev pub has_receipt : Store → Bool
  has_receipt store = is_some (find_receipt id handler_type store.receipts)

  module _ (answers : Answers) (now : ℕ) (payload : WebhookDeliveryJobPayload) (store : Store) where
    abbrev handled : Handled
    handled = handle ports answers now id payload store

    receipt_keeps_silent : has_receipt store ≡ true → handled.sent ≡ none
    unfolding handle handle_admitted admit
    receipt_keeps_silent h = ground arith

    receipt_stays : has_receipt store ≡ true → has_receipt handled.store ≡ true
    unfolding handle handle_admitted admit run_in_transaction complete
    receipt_stays h = ground arith

    -- A delivery that ends well leaves a receipt.
    delivery_leaves_receipt : handled.result ≡ ok completed → has_receipt handled.store ≡ true
    unfolding handle handle_admitted deliver_found deliver admit run_in_transaction acknowledge
        complete create_receipt
    delivery_leaves_receipt h = ground (
      arith,
      ports.receipt_saves.find_receipt-save id handler_type (create_receipt now id handler_type)
          store.receipts,
      eq_refl id,
      eq_refl handler_type,
    )

    -- If the transaction reports a failure, then the jobs and the receipts are as they were.
    pub failure_keeps_job :
        (error : Thrown)
        → handled.result ≡ ok (failed error)
        → (handled.store.jobs ≡ store.jobs) × (handled.store.receipts ≡ store.receipts)
    unfolding handle handle_admitted deliver_found deliver admit run_in_transaction acknowledge
        complete
    failure_keeps_job error h = ground arith

    -- If the transaction throws, no table is written.
    pub handle_atomic : (error : Thrown) → handled.result ≡ err error → handled.store ≡ store
    unfolding handle run_in_transaction
    handle_atomic error h = ground arith

    completed_was_sent : handled.result ≡ ok completed → handled.sent ≢ none
    unfolding handle handle_admitted deliver_found deliver admit run_in_transaction
    completed_was_sent h = ground arith

  abbrev pub Run : Type 0
  Run = Answers × ℕ × WebhookDeliveryJobPayload

  -- Counted are the handlings whose transaction reports a completed delivery.
  unfoldable pub deliveries : List Run → Store → ℕ
  deliveries [] store = 0
  deliveries ((answers, now, payload) ∷ runs) store =
      let now_handled = handle ports answers now id payload store in
      let rest = deliveries runs now_handled.store in
      elim now_handled.result [
        | ok completed ↦ suc rest
        | ok skipped ↦ rest
        | ok (failed error) ↦ rest
        | err error ↦ rest
      ]

  no_more_deliveries :
      (runs : List Run) (store : Store) → has_receipt store ≡ true → deliveries runs store ≡ 0
  unfolding deliveries
  no_more_deliveries [] store h = refl
  no_more_deliveries ((answers, now, payload) ∷ runs) store h = ground (
    arith,
    receipt_keeps_silent answers now payload store h,
    completed_was_sent answers now payload store,
    no_more_deliveries runs (handle ports answers now id payload store).store
        (receipt_stays answers now payload store h),
  )

  -- However often a job is handled, and whatever fails meanwhile, at most one handling completes a
  -- delivery.
  pub webhook_deliveries_at_most_once :
      (runs : List Run) (store : Store) → deliveries runs store ≤ 1
  unfolding deliveries
  webhook_deliveries_at_most_once [] store = omega arith
  webhook_deliveries_at_most_once ((answers, now, payload) ∷ runs) store =
      let after = (handle ports answers now id payload store).store in
      ground (
        arith,
        webhook_deliveries_at_most_once runs after,
        λ (h : (handle ports answers now id payload store).result ≡ ok completed).
            no_more_deliveries runs after (delivery_leaves_receipt answers now payload store h),
      )

-- ===== src/Idempotency/Refinement.antt =====
-- The table of src/modules/idempotency implements a cell for each key.
use hexagonal.Base.{
  ℕ, ◌≡◌, refl, ap, ◌∙◌, inl, inr, String, true, false, ◌==◌, ◌&&◌, Option, none, some, List, [],
  ◌∷◌, Memᴰ, any, arith, Bool-cases, any_of_mem, mem_of_any, find_of_mem, of_mem-filter, mem-filter,
  not,
}
use hexagonal.Table.{Saves, eq_of_key}
use hexagonal.Idempotency.Request.{
  RequestKey, IdempotentRequest, IdempotentRequestStatus, pending, completed, create, is_pending,
}
use hexagonal.Idempotency.Repository.{
  request_id, has_key, find_by_unique, create_pending, delete_pending,
}
use hexagonal.Idempotency.Service.{BeginIdempotentRequestCommand, begin, release, answer_existing}
use hexagonal.Idempotency.Steps.{
  Step, insert, finish, free, IsIndexed, IsNew, AreNew, step, steps, step-IsIndexed, same_key-sym,
  same_key_trans,
}
use hexagonal.Idempotency.Cells.{
  vacant, cell_step, cell_steps, cell_answer, cell_by, cell_of, cell, cell_of_mem, cell_vacant,
  cell-cases, not_any,
}
use hexagonal.Idempotency.Inserted.{square, insert-cell}
use hexagonal.Idempotency.Finished.{finish-cell}

module _ (saves : Saves IdempotentRequest request_id) (key : RequestKey) where
  free_other :
      (id : String) (status : IdempotentRequestStatus) (a : IdempotentRequest)
      → (a.id == id) && is_pending status ≡ false
      → cell_step key (free id) (cell_by status a) ≡ cell_by status a
  unfolding cell_step
  free_other id completed a other = refl
  free_other id pending a other = ground arith

  free_own :
      (id : String) (status : IdempotentRequestStatus) (a : IdempotentRequest)
      → (a.id == id) && is_pending status ≡ true
      → cell_step key (free id) (cell_by status a) ≡ vacant
  unfolding cell_step
  free_own id completed a own = absurd (ground arith)
  free_own id pending a own = ground arith

  of_free :
      (id : String) (table : List IdempotentRequest) {a : IdempotentRequest}
      → Memᴰ a (step saves (free id) table)
      → Memᴰ a table × ((a.id == id) && is_pending a.status ≡ false)
  unfolding step release delete_pending
  of_free id table {a} m = let (there, kept) = of_mem-filter _ table m in (there, ground arith)

  free_keeps :
      (id : String) (table : List IdempotentRequest) {a : IdempotentRequest}
      → Memᴰ a table
      → (a.id == id) && is_pending a.status ≡ false
      → Memᴰ a (step saves (free id) table)
  unfolding step release delete_pending
  free_keeps id table {a} m e = mem-filter _ table m (ap not e)

  free_vacant : (id : String) → cell_step key (free id) vacant ≡ vacant
  unfolding cell_step
  free_vacant id = refl

  free-cell :
      (id : String) (table : List IdempotentRequest)
      → IsIndexed table
      → cell key (step saves (free id) table) ≡ cell_step key (free id) (cell key table)
  free-cell id table wf =
      let after = step saves (free id) table in
      let wf_after = step-IsIndexed saves (free id) table wf in
      elim (cell-cases key table wf) [
        | inr (free_key, before) ↦
            square saves key (free id) table after vacant vacant
              (cell_vacant key after (
                not_any key after (λ a m e.
                  ground (arith, any_of_mem (has_key key) table (of_free id table m).0 e))))
              before (free_vacant id)
        | inl (a, m, e, before) ↦ elim (Bool-cases ((a.id == id) && is_pending a.status)) [
          | inl removed ↦
              square saves key (free id) table after (cell_of a) vacant
                (cell_vacant key after (
                  not_any key after (λ b n f.
                    let (there, kept) = of_free id table n in
                    let same : b ≡ a = eq_of_key request_id table wf.0 there m (
                      wf.1 b a there m
                        (same_key_trans b.key key a.key f (same_key-sym a.key key e))) in
                    ground (
                      arith,
                      ap (λ (r : IdempotentRequest). (r.id == id) && is_pending r.status) same,
                    ))))
                before (free_own id a.status a removed)
          | inr untouched ↦
              square saves key (free id) table after (cell_of a) (cell_of a)
                (cell_of_mem key a after wf_after (free_keeps id table m untouched) e) before
                (free_other id a.status a untouched)
        ]
      ]

  pub step-cell :
      (s : Step) (table : List IdempotentRequest)
      → IsIndexed table
      → IsNew saves s table
      → cell key (step saves s table) ≡ cell_step key s (cell key table)
  step-cell (insert now id command) table wf fresh =
      insert-cell saves key now id command table wf fresh
  step-cell (finish now id status_code body) table wf fresh =
      finish-cell saves key now id status_code body table wf
  step-cell (free id) table wf fresh = free-cell id table wf

  -- From a well-formed table and with new ids, the cell after any steps is that of the steps on the cell.
  pub steps-cell :
      (ss : List Step) (table : List IdempotentRequest)
      → IsIndexed table
      → AreNew saves ss table
      → cell key (steps saves ss table) ≡ cell_steps key ss (cell key table)
  unfolding cell_steps
  steps-cell [] table wf fresh = refl
  steps-cell (s ∷ ss) table wf (here, later) =
      steps-cell ss (step saves s table) (step-IsIndexed saves s table wf) later
      ∙ ap (cell_steps key ss) (step-cell s table wf here)

answer_by :
    (id : String) (command : BeginIdempotentRequestCommand) (status : IdempotentRequestStatus)
    (code : Option ℕ) (r : IdempotentRequest)
    → r.status ≡ status
    → r.response_status_code ≡ code
    → answer_existing command (some r) ≡ cell_answer id command (cell_of r)
unfolding answer_existing cell_answer
answer_by id command pending code r e f = ground arith
answer_by id command completed none r e f = ground arith
answer_by id command completed (some c) r e f = ground arith

begin_answer :
    (saves : Saves IdempotentRequest request_id) (now : ℕ) (id : String)
    (command : BeginIdempotentRequestCommand) (table : List IdempotentRequest)
    → (begin saves (λ t. t) now id command table).0
      ≡ cell_answer id command (cell command.key table)
unfolding begin create_pending create cell_answer cell find_by_unique
begin_answer saves now id command table = elim (Bool-cases (any (has_key command.key) table)) [
  | inl taken ↦
      let (a, m, e) = mem_of_any (has_key command.key) table taken in
      let (b, found, n, f) = find_of_mem (has_key command.key) table m e in
      ground (arith, answer_by id command b.status b.response_status_code b refl refl)
  | inr free_key ↦ ground (arith, cell_vacant command.key table free_key)
]

-- After any steps with new ids from a well-formed table, a request that reaches the table alone is told
-- what the cell of its key answers, where the steps are taken on the cell alone.
pub begin-cell_steps :
    (saves : Saves IdempotentRequest request_id) (ss : List Step) (table : List IdempotentRequest)
    → IsIndexed table
    → AreNew saves ss table
    → (now : ℕ) (id : String) (command : BeginIdempotentRequestCommand)
    → (begin saves (λ t. t) now id command (steps saves ss table)).0
      ≡ cell_answer id command (cell_steps command.key ss (cell command.key table))
begin-cell_steps saves ss table wf fresh now id command =
    begin_answer saves now id command (steps saves ss table)
    ∙ ap (cell_answer id command) (steps-cell saves command.key ss table wf fresh)

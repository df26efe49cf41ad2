-- ===== src/Idempotency/Inserted.antt =====
-- What an insertion into the table of src/modules/idempotency does to the cell of a key.
use hexagonal.Base.{
  ℕ, ◌≡◌, refl, sym, ap, ◌∙◌, inl, inr, String, true, false, none, List, Memᴰ, any, arith,
  Bool-cases, any_of_mem, mem_of_any,
}
use hexagonal.Table.{find_by, Saves, find_by_of_mem}
use hexagonal.Idempotency.Request.{
  RequestKey, IdempotentRequest, IdempotentRequestStatus, pending, completed, create,
}
use hexagonal.Idempotency.Repository.{request_id, same_key, has_key, find_by_id}
use hexagonal.Idempotency.Service.{BeginIdempotentRequestCommand}
use hexagonal.Idempotency.Steps.{
  Step, insert, pending_request, IsIndexed, step, insert-cases, same_key-sym, same_key_trans,
}
use hexagonal.Idempotency.Cells.{
  Cell, vacant, waiting, cell_step, cell_by, cell_of, cell, cell_vacant, cell-cases, cell-save,
  cell-save_other, not_any,
}

module _ (saves : Saves IdempotentRequest request_id) (key : RequestKey) where
  pub square :
      (s : Step) (table after : List IdempotentRequest) (c d : Cell)
      → cell key after ≡ d
      → cell key table ≡ c
      → cell_step key s c ≡ d
      → cell key after ≡ cell_step key s (cell key table)
  square s table after c d later before moved =
      later ∙ sym moved ∙ ap (cell_step key s) (sym before)

  insert_stays :
      (now : ℕ) (id : String) (command : BeginIdempotentRequestCommand)
      (status : IdempotentRequestStatus) (a : IdempotentRequest)
      → cell_step key (insert now id command) (cell_by status a) ≡ cell_by status a
  unfolding cell_step
  insert_stays now id command pending a = refl
  insert_stays now id command completed a = refl

  -- A key with the columns of a key that is taken is taken, and one of a key that is not is not.
  any_same :
      (other : RequestKey) (table : List IdempotentRequest)
      → same_key other key ≡ true
      → any (has_key other) table ≡ any (has_key key) table
  any_same other table same = elim (Bool-cases (any (has_key other) table)) [
    | inl taken ↦
        let (a, m, e) = mem_of_any (has_key other) table taken in
        taken ∙ sym (any_of_mem (has_key key) table m (same_key_trans a.key other key e same))
    | inr free_key ↦
        free_key
        ∙ sym (
            not_any key table (λ a m e. ground (
              arith,
              any_of_mem (has_key other) table m
                  (same_key_trans a.key key other e (same_key-sym other key same)),
            )))
  ]

  insert_vacant :
      (now : ℕ) (id : String) (command : BeginIdempotentRequestCommand)
      → same_key command.key key ≡ false
      → cell_step key (insert now id command) vacant ≡ vacant
  unfolding cell_step
  insert_vacant now id command e = ground arith

  -- The cell stays if its row does not bear on the step, and the step does nothing to a vacant one.
  pub stays :
      (s : Step) (table : List IdempotentRequest)
      → IsIndexed table
      → ((a : IdempotentRequest)
          → Memᴰ a table
          → has_key key a ≡ true
          → cell_step key s (cell_of a) ≡ cell_of a)
      → (any (has_key key) table ≡ false → cell_step key s vacant ≡ vacant)
      → cell_step key s (cell key table) ≡ cell key table
  stays s table wf row none_there = elim (cell-cases key table wf) [
    | inl (a, m, e, before) ↦ ap (cell_step key s) before ∙ row a m e ∙ sym before
    | inr (free_key, before) ↦ ap (cell_step key s) before ∙ none_there free_key ∙ sym before
  ]

  pub insert-cell :
      (now : ℕ) (id : String) (command : BeginIdempotentRequestCommand)
      (table : List IdempotentRequest)
      → IsIndexed table
      → find_by_id id table ≡ none
      → cell key (step saves (insert now id command) table)
        ≡ cell_step key (insert now id command) (cell key table)
  unfolding find_by_id create cell_step
  insert-cell now id command table wf fresh = elim (insert-cases saves now id command table) [
    | inl (taken, same) ↦
        ap (cell key) same
        ∙ sym (
            stays (insert now id command) table wf (λ a m e. insert_stays now id command a.status a)
              (λ free_key. elim (Bool-cases (same_key command.key key)) [
                | inl own ↦ absurd (ground (arith, any_same command.key table own))
                | inr other ↦ insert_vacant now id command other
              ]))
    | inr (free_key, written) ↦ elim (Bool-cases (same_key command.key key)) [
      | inl own ↦
          square (insert now id command) table (step saves (insert now id command) table) vacant
            (waiting id command.request_hash)
            (ap (cell key) written
              ∙ cell-save key saves (pending_request now id command) table wf (inl free_key) own)
            (cell_vacant key table (sym (any_same command.key table own) ∙ free_key)) (ground arith)
      | inr other ↦
          ap (cell key) written
          ∙ cell-save_other key saves (pending_request now id command) table wf (inl free_key) other
              (λ a m e same. ground (
                arith,
                find_by_of_mem request_id table wf.0 m,
                ap (λ k. find_by request_id k table) same,
              ))
          ∙ sym (
              stays (insert now id command) table wf
                (λ a m e. insert_stays now id command a.status a)
                (λ free_key. insert_vacant now id command other))
    ]
  ]

-- ===== src/Idempotency/Finished.antt =====
-- What a completion in the table of src/modules/idempotency does to the cell of a key.
use hexagonal.Base.{
  ℕ, ◌≡◌, ◌≢◌, ◌⊎◌, refl, sym, ap, ◌∙◌, inl, inr, String, true, ◌==◌, Option, none, some, List,
  Memᴰ, arith, eq_iff, Bool-cases, Option-cases,
}
use hexagonal.Json.{Json}
use hexagonal.Table.{find_by, Saves, find_by_mem, find_by_of_mem, find_by-key, eq_of_key}
use hexagonal.Idempotency.Request.{
  RequestKey, IdempotentRequest, IdempotentRequestStatus, pending, completed, completed_with,
}
use hexagonal.Idempotency.Repository.{request_id, has_key, find_by_id, update}
use hexagonal.Idempotency.Service.{complete}
use hexagonal.Idempotency.Steps.{finish, IsIndexed, IsWritable, step, status-cases}
use hexagonal.Idempotency.Cells.{
  vacant, cell_step, cell_by, cell_of, cell, cell_of_mem, cell-save, cell-save_other,
}
use hexagonal.Idempotency.Inserted.{square, stays}

module _ (saves : Saves IdempotentRequest request_id) (key : RequestKey) where
  finish_other :
      (now : ℕ) (id : String) (status_code : ℕ) (body : Option Json)
      (status : IdempotentRequestStatus) (a : IdempotentRequest)
      → ((status ≡ completed) ⊎ (a.id ≢ id))
      → cell_step key (finish now id status_code body) (cell_by status a) ≡ cell_by status a
  unfolding cell_step
  finish_other now id status_code body completed a other = refl
  finish_other now id status_code body pending a (inl e) = absurd (cc)
  finish_other now id status_code body pending a (inr other) = ground (arith, eq_iff a.id id)

  finish_writes :
      (now : ℕ) (id : String) (status_code : ℕ) (body : Option Json)
      (table : List IdempotentRequest) (old : IdempotentRequest)
      → find_by_id id table ≡ some old
      → old.status ≡ pending
      → step saves (finish now id status_code body) table
        ≡ saves.save (completed_with now status_code body old) table
  unfolding step complete update
  finish_writes now id status_code body table old found waits = ground arith

  finish_leaves :
      (now : ℕ) (id : String) (status_code : ℕ) (body : Option Json)
      (table : List IdempotentRequest)
      → ((find_by_id id table ≡ none)
          ⊎ ((old : IdempotentRequest) × (find_by_id id table ≡ some old)
              × (old.status ≡ completed)))
      → step saves (finish now id status_code body) table ≡ table
  unfolding step complete
  finish_leaves now id status_code body table (inl missing) = ground arith
  finish_leaves now id status_code body table (inr (old, found, ended)) = ground arith

  -- The row with the id is the one that is found under it.
  found_own :
      (id : String) (table : List IdempotentRequest) (old a : IdempotentRequest)
      → IsIndexed table
      → find_by_id id table ≡ some old
      → Memᴰ a table
      → a.id ≡ id
      → a ≡ old
  unfolding find_by_id
  found_own id table old a (u, indexed) found m same =
      eq_of_key request_id table u m (find_by_mem request_id id table found)
        (same ∙ sym (find_by-key request_id id table found))

  found_mem :
      (id : String) (table : List IdempotentRequest) (old : IdempotentRequest)
      → find_by_id id table ≡ some old
      → Memᴰ old table × (old.id ≡ id)
  unfolding find_by_id
  found_mem id table old found =
      (find_by_mem request_id id table found, find_by-key request_id id table found)

  finish_own :
      (now : ℕ) (id : String) (status_code : ℕ) (body : Option Json) (old : IdempotentRequest)
      → old.id ≡ id
      → old.status ≡ pending
      → cell_step key (finish now id status_code body) (cell_of old)
        ≡ cell_of (completed_with now status_code body old)
  unfolding cell_step completed_with
  finish_own now id status_code body old own waits = ground (arith, eq_iff old.id id)

  finish_vacant :
      (now : ℕ) (id : String) (status_code : ℕ) (body : Option Json)
      → cell_step key (finish now id status_code body) vacant ≡ vacant
  unfolding cell_step
  finish_vacant now id status_code body = refl

  finish_pending :
      (now : ℕ) (id : String) (status_code : ℕ) (body : Option Json)
      (table : List IdempotentRequest) (old : IdempotentRequest)
      → IsIndexed table
      → find_by_id id table ≡ some old
      → old.status ≡ pending
      → cell key (saves.save (completed_with now status_code body old) table)
        ≡ cell_step key (finish now id status_code body) (cell key table)
  unfolding completed_with
  finish_pending now id status_code body table old wf found waits =
      let r = completed_with now status_code body old in
      let (m, own) = found_mem id table old found in
      let writable : IsWritable saves r table =
        inr (old, ap (λ k. find_by_id k table) own ∙ found, refl, waits) in
      elim (Bool-cases (has_key key old)) [
        | inl mine ↦
            square saves key (finish now id status_code body) table (saves.save r table)
              (cell_of old) (cell_of r) (cell-save key saves r table wf writable mine)
              (cell_of_mem key old table wf m mine)
              (finish_own now id status_code body old own waits)
        | inr foreign ↦
            let apart : (a : IdempotentRequest)
                → Memᴰ a table
                → has_key key a ≡ true
                → a.id ≢ old.id =
              λ a n e same.
                let equal = found_own id table old a wf found n (same ∙ own) in
                ground (arith, ap (has_key key) equal) in
            cell-save_other key saves r table wf writable foreign apart
            ∙ sym (
                stays saves key (finish now id status_code body) table wf
                  (λ a n e.
                    finish_other now id status_code body a.status a
                      (inr (λ same. apart a n e (same ∙ sym own))))
                  (λ free_key. finish_vacant now id status_code body))
      ]

  pub finish-cell :
      (now : ℕ) (id : String) (status_code : ℕ) (body : Option Json)
      (table : List IdempotentRequest)
      → IsIndexed table
      → cell key (step saves (finish now id status_code body) table)
        ≡ cell_step key (finish now id status_code body) (cell key table)
  unfolding find_by_id
  finish-cell now id status_code body table wf = elim (Option-cases (find_by_id id table)) [
    | inl missing ↦
        ap (cell key) (finish_leaves now id status_code body table (inl missing))
        ∙ sym (
            stays saves key (finish now id status_code body) table wf
              (λ a m e. finish_other now id status_code body a.status a (
                inr (λ same. ground (
                  arith,
                  find_by_of_mem request_id table wf.0 m,
                  ap (λ k. find_by request_id k table) same,
                ))))
              (λ free_key. finish_vacant now id status_code body))
    | inr (old, found) ↦ elim (status-cases old.status) [
      | inl waits ↦
          ap (cell key) (finish_writes now id status_code body table old found waits)
          ∙ finish_pending now id status_code body table old wf found waits
      | inr ended ↦
          ap (cell key) (finish_leaves now id status_code body table (inr (old, found, ended)))
          ∙ sym (
              stays saves key (finish now id status_code body) table wf
                (λ a m e.
                  finish_other now id status_code body a.status a (elim (Bool-cases (a.id == id)) [
                    | inl same ↦ inl (
                        ap (λ (r : IdempotentRequest). r.status)
                          (found_own id table old a wf found m ((eq_iff a.id id).0 same))
                        ∙ ended)
                    | inr other ↦ inr (λ same. ground (arith, eq_iff a.id id))
                  ]))
                (λ free_key. finish_vacant now id status_code body))
    ]
  ]

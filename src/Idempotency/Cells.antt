-- ===== src/Idempotency/Cells.antt =====
-- What src/modules/idempotency promises of one key: a cell that is vacant, waits for the response of
-- the request that was started, or keeps it; and the cell that the table holds for a key.
use hexagonal.Base.{
  ℕ, ◌≡◌, ◌≢◌, ◌⊎◌, refl, sym, ap, ◌∙◌, inl, inr, String, true, false, ◌==◌, Option, none, some,
  get_or, List, [], ◌∷◌, Memᴰ, any, arith, eq_iff, Result, ok, err, Bool-cases, any_of_mem,
  mem_of_any, find_of_mem, if◌then◌else◌,
}
use hexagonal.Json.{Json, null}
use hexagonal.Table.{Saves, find_by_mem, find_by_of_mem, eq_of_key}
use hexagonal.Idempotency.Request.{
  RequestKey, IdempotentRequest, IdempotentRequestStatus, pending, completed,
}
use hexagonal.Idempotency.Repository.{request_id, same_key, has_key, find_by_unique}
use hexagonal.Idempotency.Service.{
  BeginIdempotentRequestCommand, BeginIdempotentRequestResult, started, replay,
  IdempotencyException, key_reuse_conflict, request_in_progress,
}
use hexagonal.Idempotency.Steps.{
  Step, insert, finish, free, IsIndexed, IsWritable, mem-save, save-IsIndexed, same_key-sym,
  same_key_trans,
}

pub data Cell : Type 0 where
  vacant : Cell
  waiting : (id request_hash : String) → Cell
  done : (request_hash : String) → (status_code : Option ℕ) → (body : Json) → Cell

-- What a step does to the cell of a key.
unfoldable pub cell_step : RequestKey → Step → Cell → Cell
cell_step key (insert now id command) vacant =
    if same_key command.key key then waiting id command.request_hash else vacant
cell_step key (finish now id status_code body) (waiting i request_hash) =
    if i == id
    then done request_hash (some status_code) (get_or body null)
    else waiting i request_hash
cell_step key (free id) (waiting i request_hash) =
    if i == id then vacant else waiting i request_hash
cell_step key s cell = cell

unfoldable pub cell_steps : RequestKey → List Step → Cell → Cell
cell_steps key [] c = c
cell_steps key (s ∷ ss) c = cell_steps key ss (cell_step key s c)

abbrev pub answer_done :
    (idempotency_key : String)
    → Option ℕ
    → Json
    → Result IdempotencyException BeginIdempotentRequestResult
answer_done idempotency_key (some status_code) body = ok (replay status_code body)
answer_done idempotency_key none body = err (request_in_progress idempotency_key)

-- What a request with a payload is told: to start, to take the kept response, or what is wrong.
unfoldable pub cell_answer :
    (id : String)
    → BeginIdempotentRequestCommand
    → Cell
    → Result IdempotencyException BeginIdempotentRequestResult
cell_answer id command vacant = ok (started id)
cell_answer id command (waiting i request_hash) =
    if request_hash == command.request_hash
    then err (request_in_progress command.key.idempotency_key)
    else err (key_reuse_conflict command.key.idempotency_key)
cell_answer id command (done request_hash status_code body) =
    if request_hash == command.request_hash
    then answer_done command.key.idempotency_key status_code body
    else err (key_reuse_conflict command.key.idempotency_key)

abbrev pub cell_by : IdempotentRequestStatus → IdempotentRequest → Cell
cell_by pending r = waiting r.id r.request_hash
cell_by completed r = done r.request_hash r.response_status_code r.response_body

abbrev pub cell_of : IdempotentRequest → Cell
cell_of r = cell_by r.status r

abbrev pub cell_found : Option IdempotentRequest → Cell
cell_found none = vacant
cell_found (some r) = cell_of r

unfoldable pub cell : RequestKey → List IdempotentRequest → Cell
cell key table = cell_found (find_by_unique key table)

module _ (key : RequestKey) where
  pub cell_of_mem :
      (a : IdempotentRequest) (table : List IdempotentRequest)
      → IsIndexed table
      → Memᴰ a table
      → has_key key a ≡ true
      → cell key table ≡ cell_of a
  unfolding cell find_by_unique
  cell_of_mem a table (u, indexed) m e =
      let (b, found, n, f) = find_of_mem (has_key key) table m e in
      let same : b ≡ a =
        eq_of_key request_id table u n m
          (indexed b a n m (same_key_trans b.key key a.key f (same_key-sym a.key key e))) in
      ap cell_found found ∙ ap cell_of same

  pub cell_vacant :
      (table : List IdempotentRequest) → any (has_key key) table ≡ false → cell key table ≡ vacant
  unfolding cell find_by_unique
  cell_vacant [] e = refl
  cell_vacant (r ∷ table) e = ground (arith, cell_vacant table)

  -- The row of the cell, or there is none.
  pub cell-cases :
      (table : List IdempotentRequest)
      → IsIndexed table
      → ((a : IdempotentRequest) × Memᴰ a table
          × (has_key key a ≡ true)
          × (cell key table ≡ cell_of a))
        ⊎ ((any (has_key key) table ≡ false) × (cell key table ≡ vacant))
  cell-cases table wf = elim (Bool-cases (any (has_key key) table)) [
    | inl taken ↦
        let (a, m, e) = mem_of_any (has_key key) table taken in
        inl (a, m, e, cell_of_mem a table wf m e)
    | inr free_key ↦ inr (free_key, cell_vacant table free_key)
  ]

  pub not_any :
      (table : List IdempotentRequest)
      → ((a : IdempotentRequest) → Memᴰ a table → has_key key a ≢ true)
      → any (has_key key) table ≡ false
  not_any table h = elim (Bool-cases (any (has_key key) table)) [
    | inl taken ↦ let (a, m, e) = mem_of_any (has_key key) table taken in absurd (h a m e)
    | inr free_key ↦ free_key
  ]

  module _ (saves : Saves IdempotentRequest request_id) where
    saved_mem :
        (r : IdempotentRequest) (table : List IdempotentRequest) → Memᴰ r (saves.save r table)
    saved_mem r table =
        let saved = saves.find_by-save r.id r table in
        find_by_mem request_id r.id (saves.save r table) (ground (arith, eq_iff r.id r.id))

    -- The cell of a row that is written.
    pub cell-save :
        (r : IdempotentRequest) (table : List IdempotentRequest)
        → IsIndexed table
        → IsWritable saves r table
        → has_key key r ≡ true
        → cell key (saves.save r table) ≡ cell_of r
    cell-save r table wf writable e =
        cell_of_mem r (saves.save r table) (save-IsIndexed saves r table writable wf)
          (saved_mem r table) e

    -- The other cells stay.
    pub cell-save_other :
        (r : IdempotentRequest) (table : List IdempotentRequest)
        → IsIndexed table
        → IsWritable saves r table
        → has_key key r ≡ false
        → ((a : IdempotentRequest) → Memᴰ a table → has_key key a ≡ true → a.id ≢ r.id)
        → cell key (saves.save r table) ≡ cell key table
    cell-save_other r table wf writable e other =
        let after = saves.save r table in
        let wf_after = save-IsIndexed saves r table writable wf in
        elim (cell-cases table wf) [
          | inl (a, m, f, before) ↦
              let saved = saves.find_by-save a.id r table in
              let found = find_by_of_mem request_id table wf.0 m in
              let apart = other a m f in
              let kept =
                find_by_mem request_id a.id after {r = a} (ground (arith, eq_iff r.id a.id)) in
              cell_of_mem a after wf_after kept f ∙ sym before
          | inr (free_key, before) ↦
              cell_vacant after (
                not_any after (λ a m f. elim (mem-save saves r a table wf.0 m) [
                  | inl saved ↦ ground (arith, ap (has_key key) saved)
                  | inr (old, apart) ↦ ground (arith, any_of_mem (has_key key) table old f)
                ]))
              ∙ sym before
        ]

-- ===== src/Idempotency/Steps.antt =====
-- What requests do to the table of src/modules/idempotency, one statement after another.
use hexagonal.Base.{
  ℕ, ◌≡◌, refl, sym, ap, ◌∙◌, ◌≢◌, ◌==◌, ◌⊎◌, inl, inr, String, true, false, Option, none, some,
  List, [], ◌∷◌, Memᴰ, arith, eq_iff, any, Bool-cases, Option-cases, any_of_mem, of_mem-filter,
}
use hexagonal.Json.{Json}
use hexagonal.Table.{
  find_by, HasUniqueKeys, Saves, find_by_mem, find_by_of_mem, find_by-key, filter-HasUniqueKeys,
}
use hexagonal.Idempotency.Request.{
  RequestKey, IdempotentRequest, IdempotentRequestStatus, pending, completed, create,
  completed_with,
}
use hexagonal.Idempotency.Repository.{
  request_id, same_key, has_key, find_by_id, delete_pending, create_pending, update,
}
use hexagonal.Idempotency.Service.{BeginIdempotentRequestCommand, complete, release}

-- A step of some request: the insertion of `begin`, with the new id, `complete`, or `release`.
pub data Step : Type 0 where
  insert : (now : ℕ) → (id : String) → BeginIdempotentRequestCommand → Step
  finish : (now : ℕ) → (id : String) → (status_code : ℕ) → (body : Option Json) → Step
  free : (id : String) → Step

abbrev pub pending_request :
    (now : ℕ) (id : String) → BeginIdempotentRequestCommand → IdempotentRequest
pending_request now id command =
    create now (record { id = id; key = command.key; request_hash = command.request_hash })

-- The table is well-formed: an id names one row, and so does a key of the unique index.
abbrev pub IsIndexed : List IdempotentRequest → Type 0
IsIndexed table =
    HasUniqueKeys request_id table
    × ((a b : IdempotentRequest)
        → Memᴰ a table
        → Memᴰ b table
        → same_key a.key b.key ≡ true
        → a.id ≡ b.id)

pub status-cases : (status : IdempotentRequestStatus) → (status ≡ pending) ⊎ (status ≡ completed)
status-cases pending = inl refl
status-cases completed = inr refl

pub same_key-sym : (j k : RequestKey) → same_key j k ≡ true → same_key k j ≡ true
same_key-sym j k e = ground (
  arith,
  eq_iff j.scope_key k.scope_key,
  eq_iff k.scope_key j.scope_key,
  eq_iff j.idempotency_key k.idempotency_key,
  eq_iff k.idempotency_key j.idempotency_key,
  eq_iff j.method k.method,
  eq_iff k.method j.method,
  eq_iff j.route_key k.route_key,
  eq_iff k.route_key j.route_key,
)

pub same_key_trans :
    (i j k : RequestKey) → same_key i j ≡ true → same_key j k ≡ true → same_key i k ≡ true
same_key_trans i j k d e = ground (
  arith,
  eq_iff i.scope_key j.scope_key,
  eq_iff i.idempotency_key j.idempotency_key,
  eq_iff i.method j.method,
  eq_iff i.route_key j.route_key,
)

module _ (saves : Saves IdempotentRequest request_id) where
  unfoldable pub step : Step → List IdempotentRequest → List IdempotentRequest
  step (insert now id command) table =
      (create_pending saves (pending_request now id command) table).1
  step (finish now id status_code body) table = complete saves now id status_code body table
  step (free id) table = release id table

  abbrev pub steps : List Step → List IdempotentRequest → List IdempotentRequest
  steps [] table = table
  steps (s ∷ ss) table = steps ss (step s table)

  -- An insertion brings an id that no row has, as a random UUID does.
  abbrev pub IsNew : Step → List IdempotentRequest → Type 0
  IsNew (insert now id command) table = find_by_id id table ≡ none
  IsNew _ table = Unit

  abbrev pub AreNew : List Step → List IdempotentRequest → Type 0
  AreNew [] table = Unit
  AreNew (s ∷ ss) table = IsNew s table × AreNew ss (step s table)

  -- A row that a step may write: its key is not taken, or it completes a pending row.
  abbrev pub IsWritable : IdempotentRequest → List IdempotentRequest → Type 0
  IsWritable r table =
      (any (has_key r.key) table ≡ false)
      ⊎ ((old : IdempotentRequest) × (find_by_id r.id table ≡ some old)
          × (old.key ≡ r.key)
          × (old.status ≡ pending))

  pub insert-cases :
      (now : ℕ) (id : String) (command : BeginIdempotentRequestCommand)
      (table : List IdempotentRequest)
      → ((any (has_key command.key) table ≡ true) × (step (insert now id command) table ≡ table))
        ⊎ ((any (has_key command.key) table ≡ false)
            × (step (insert now id command) table
                ≡ saves.save (pending_request now id command) table))
  unfolding step create_pending create
  insert-cases now id command table = elim (Bool-cases (any (has_key command.key) table)) [
    | inl taken ↦ inl (taken, ground arith)
    | inr vacant ↦ inr (vacant, ground arith)
  ]

  pub finish-cases :
      (now : ℕ) (id : String) (status_code : ℕ) (body : Option Json)
      (table : List IdempotentRequest)
      → (step (finish now id status_code body) table ≡ table)
        ⊎ ((old : IdempotentRequest) × (find_by_id old.id table ≡ some old)
            × (old.status ≡ pending)
            × (step (finish now id status_code body) table
                ≡ saves.save (completed_with now status_code body old) table))
  unfolding step complete update find_by_id
  finish-cases now id status_code body table = elim (Option-cases (find_by_id id table)) [
    | inl missing ↦ inl (ground arith)
    | inr (old, found) ↦
        let named = find_by-key request_id id table found in
        elim (status-cases old.status) [
          | inl waiting ↦
              inr (old, ap (λ k. find_by request_id k table) named ∙ found, waiting, ground arith)
          | inr done ↦ inl (ground arith)
        ]
  ]

  -- A step leaves the table, writes a row that it may, or frees an id.
  pub step-cases :
      (s : Step) (table : List IdempotentRequest)
      → (step s table ≡ table)
        ⊎ ((r : IdempotentRequest) × (step s table ≡ saves.save r table) × IsWritable r table)
        ⊎ ((id : String) × (s ≡ free id))
  unfolding completed_with create
  step-cases (insert now id command) table = elim (insert-cases now id command table) [
    | inl (taken, same) ↦ inl same
    | inr (vacant, written) ↦ inr (inl (pending_request now id command, written, inl vacant))
  ]
  step-cases (finish now id status_code body) table =
      elim (finish-cases now id status_code body table) [
        | inl same ↦ inl same
        | inr (old, found, waiting, written) ↦ inr (
            inl (completed_with now status_code body old, written, inr (old, found, refl, waiting)))
      ]
  step-cases (free id) table = inr (inr (id, refl))

  free-IsIndexed :
      (id : String) (table : List IdempotentRequest)
      → IsIndexed table
      → IsIndexed (step (free id) table)
  unfolding step release delete_pending
  free-IsIndexed id table (u, indexed) = (
    filter-HasUniqueKeys request_id _ table u,
    λ a b m n e. indexed a b (of_mem-filter _ table m).0 (of_mem-filter _ table n).0 e,
  )

  -- A row after a save is the saved one, or was there before.
  pub mem-save :
      (r a : IdempotentRequest) (table : List IdempotentRequest)
      → HasUniqueKeys request_id table
      → Memᴰ a (saves.save r table)
      → (a ≡ r) ⊎ (Memᴰ a table × (a.id ≢ r.id))
  mem-save r a table u m =
      let found =
        find_by_of_mem request_id (saves.save r table) (saves.save-HasUniqueKeys r table u) m in
      let saved = saves.find_by-save a.id r table in
      elim (Bool-cases (r.id == a.id)) [
        | inl same ↦ inl (ground (arith))
        | inr other ↦
            inr (find_by_mem request_id a.id table (ground arith), ground (arith, eq_iff r.id a.id))
      ]

  -- A row with the key of a row that a step writes has its id.
  one_id :
      (r b : IdempotentRequest) (table : List IdempotentRequest)
      → IsWritable r table
      → IsIndexed table
      → Memᴰ b table
      → same_key r.key b.key ≡ true
      → r.id ≡ b.id
  unfolding find_by_id
  one_id r b table (inl vacant) wf n e =
      absurd (ground (arith, any_of_mem (has_key r.key) table n (same_key-sym r.key b.key e)))
  one_id r b table (inr (old, found, same, waiting)) (u, indexed) n e = ground (
    arith,
    find_by-key request_id r.id table found,
    indexed old b (find_by_mem request_id r.id table found) n (rw same e),
  )

  pub save-IsIndexed :
      (r : IdempotentRequest) (table : List IdempotentRequest)
      → IsWritable r table
      → IsIndexed table
      → IsIndexed (saves.save r table)
  unfolding find_by_id
  save-IsIndexed r table writable (u, indexed) = (
    saves.save-HasUniqueKeys r table u,
    λ a b m n e. elim (mem-save r a table u m) [
      | inl a_saved ↦ elim (mem-save r b table u n) [
        | inl b_saved ↦ cc
        | inr (b_old, other) ↦
            rw a_saved (one_id r b table writable (u, indexed) b_old (rw (sym a_saved) e))
      ]
      | inr (a_old, other) ↦ elim (mem-save r b table u n) [
        | inl b_saved ↦ rw b_saved (
            sym (
              one_id r a table writable (u, indexed) a_old
                (same_key-sym a.key r.key (rw (sym b_saved) e))))
        | inr (b_old, another) ↦ indexed a b a_old b_old e
      ]
    ],
  )

  -- A step keeps the table well-formed.
  pub step-IsIndexed :
      (s : Step) (table : List IdempotentRequest) → IsIndexed table → IsIndexed (step s table)
  step-IsIndexed s table wf = elim (step-cases s table) [
    | inl same ↦ rw same wf
    | inr (inl (r, written, writable)) ↦ rw written (save-IsIndexed r table writable wf)
    | inr (inr (id, freed)) ↦ rw freed (free-IsIndexed id table wf)
  ]

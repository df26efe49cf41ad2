-- ===== src/Idempotency/Started.antt =====
-- How often requests with one idempotency key are started.
use hexagonal.Base.{
  ℕ, suc, ◌+◌, ◌≤◌, ◌≡◌, ap, ◌∙◌, inl, inr, Bool, true, false, not, ◌&&◌, ◌==◌, some, is_some, List,
  [], ◌∷◌, arith, eq_iff, eq_refl, any, Bool-cases, not-eq-true, any_of_mem, mem_of_any,
  if◌then◌else◌,
}
use hexagonal.Table.{find_by, HasUniqueKeys, Saves, find_by_mem, find_by_of_mem}
use hexagonal.Idempotency.Request.{RequestKey, IdempotentRequest, create, completed_with}
use hexagonal.Idempotency.Repository.{request_id, same_key, has_key, find_by_id, create_pending}
use hexagonal.Idempotency.Steps.{
  Step, insert, finish, free, pending_request, IsIndexed, step, IsNew, AreNew, insert-cases,
  finish-cases, same_key-sym, same_key_trans, step-IsIndexed,
}

module _ (saves : Saves IdempotentRequest request_id) (key : RequestKey) where
  -- The key is taken.
  abbrev pub taken : List IdempotentRequest → Bool
  taken = any (has_key key)

  abbrev pub count : Bool → ℕ
  count b = if b then 1 else 0

  -- The step is a `begin` with the key that is answered with `started`.
  abbrev pub is_start : Step → List IdempotentRequest → Bool
  is_start (insert now id command) table =
      same_key command.key key
      && is_some (create_pending saves (pending_request now id command) table).0
  is_start _ table = false

  -- The step is a release that removes the row with the key.
  abbrev pub is_removal : Step → List IdempotentRequest → Bool
  is_removal (free id) table = taken table && not (taken (step saves (free id) table))
  is_removal _ table = false

  unfoldable pub starts : List Step → List IdempotentRequest → ℕ
  starts [] table = 0
  starts (s ∷ ss) table = count (is_start s table) + starts ss (step saves s table)

  unfoldable pub removals : List Step → List IdempotentRequest → ℕ
  removals [] table = 0
  removals (s ∷ ss) table = count (is_removal s table) + removals ss (step saves s table)

  save_keeps_taken :
      (r : IdempotentRequest) (table : List IdempotentRequest)
      → HasUniqueKeys request_id table
      → ((b : IdempotentRequest) → find_by request_id r.id table ≡ some b → r.key ≡ b.key)
      → taken table ≡ true
      → taken (saves.save r table) ≡ true
  save_keeps_taken r table u keeps h =
      let (b, m, e) = mem_of_any (has_key key) table h in
      let found = find_by_of_mem request_id table u m in
      let saved = saves.find_by-save b.id r table in
      let after = saves.save r table in
      elim (Bool-cases (r.id == b.id)) [
        | inl same ↦
            let same_id : r.id ≡ b.id = (eq_iff r.id b.id).0 same in
            any_of_mem (has_key key) after
              (find_by_mem request_id b.id after {r = r} (ground arith))
              (rw (keeps b (ap (λ k. find_by request_id k table) same_id ∙ found)) e)
        | inr other ↦
            any_of_mem (has_key key) after
              (find_by_mem request_id b.id after {r = b} (ground arith)) e
      ]

  -- A step that is no release leaves the key taken.
  stays_taken :
      (s : Step) (table : List IdempotentRequest)
      → IsIndexed table
      → IsNew saves s table
      → taken table ≡ true
      → is_removal s table ≡ false
      → taken (step saves s table) ≡ true
  unfolding find_by_id completed_with create
  stays_taken (insert now id command) table (u, indexed) new h kept =
      elim (insert-cases saves now id command table) [
        | inl (full, same) ↦ rw same h
        | inr (vacant, written) ↦ rw written (
            save_keeps_taken (pending_request now id command) table u
              (λ b found. absurd (ground arith)) h)
      ]
  stays_taken (finish now id status_code body) table (u, indexed) new h kept =
      elim (finish-cases saves now id status_code body table) [
        | inl same ↦ rw same h
        | inr (old, found, waiting, written) ↦ rw written (
            save_keeps_taken (completed_with now status_code body old) table u
              (λ b there. let same : old ≡ b = cc in ap (λ r. r.key) same) h)
      ]
  stays_taken (free id) table wf new h kept = ground arith

  start_takes :
      (s : Step) (table : List IdempotentRequest)
      → IsIndexed table
      → is_start s table ≡ true
      → (taken table ≡ false) × (taken (step saves s table) ≡ true)
  unfolding create_pending create
  start_takes (insert now id command) table wf h = elim (insert-cases saves now id command table) [
    | inl (full, same) ↦ absurd (ground arith)
    | inr (vacant, written) ↦ (
      not-eq-true (λ full.
          let (b, m, e) = mem_of_any (has_key key) table full in
          let same = same_key-sym command.key key (ground arith) in
          absurd (
            ground (
              arith,
              any_of_mem (has_key command.key) table m
                  (same_key_trans b.key key command.key e same),
            ))),
      rw written (
          any_of_mem (has_key key) _ {a = pending_request now id command}
            (find_by_mem request_id id _ (
              ground
                (arith, saves.find_by-save id (pending_request now id command) table, eq_refl id)))
            (ground arith)),
    )
  ]
  start_takes (finish now id status_code body) table wf h = absurd (cc)
  start_takes (free id) table wf h = absurd (cc)

  starts_bounded :
      (ss : List Step) (table : List IdempotentRequest)
      → IsIndexed table
      → AreNew saves ss table
      → starts ss table + count (taken table) ≤ suc (removals ss table)
  unfolding starts removals
  starts_bounded [] table wf new = ground arith
  starts_bounded (s ∷ ss) table wf (new, news) = ground (
    arith,
    starts_bounded ss (step saves s table) (step-IsIndexed saves s table wf) news,
    stays_taken s table wf new,
    start_takes s table wf,
  )

  -- From a table with unique ids and keys, and with insertions of new ids only, a key is started at
  -- most once more than a release removes its row.
  pub started_at_most :
      (ss : List Step) (table : List IdempotentRequest)
      → IsIndexed table
      → AreNew saves ss table
      → starts ss table ≤ suc (removals ss table)
  started_at_most ss table wf new = omega (arith, starts_bounded ss table wf new)

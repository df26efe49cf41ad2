-- ===== src/Table/Laws.antt =====
-- What a lookup by primary key sees after a statement.
use hexagonal.Base.{
  ◌≡◌, refl, Bool, false, none, some, List, [], ◌∷◌, String, map, ◌==◌, arith, if◌then◌else◌,
  filter, Bool-cases, eq_iff, eq_refl, Memᴰ, inl, inr, ap, ◌≢◌, length, ◌≤◌, ◌+◌, ◌||◌, includes,
  is_some,
}
use hexagonal.Table.Defs.{find_by, HasUniqueKeys}

module _ {ℓ} {R : Type ℓ} (key : R → String) where
  pub find_by-key : (k : String) (t : List R) {r : R} → find_by key k t ≡ some r → key r ≡ k
  find_by-key k [] e = cc
  find_by-key k (x ∷ t) {r} e = ground (arith, eq_iff (key x) k, find_by-key k t {r = r})

  pub find_by-map :
      (g : R → R) (k : String) (t : List R)
      → ((r : R) → key (g r) ≡ key r)
      → find_by key k (map g t) ≡ (elim (find_by key k t) [ none ↦ none | some r ↦ some (g r) ])
  find_by-map g k [] keeps = refl
  find_by-map g k (r ∷ t) keeps = ground (arith, keeps r, find_by-map g k t keeps)

  pub find_by_mem : (k : String) (t : List R) {r : R} → find_by key k t ≡ some r → Memᴰ r t
  find_by_mem k [] e = absurd (cc)
  find_by_mem k (x ∷ t) e = elim (Bool-cases (key x == k)) [
    | inl here ↦ Memᴰ.head (ground arith)
    | inr later ↦ Memᴰ.tail (find_by_mem k t (ground arith))
  ]

  pub find_by-filter-none :
      (p : R → Bool) (k : String) (t : List R)
      → find_by key k t ≡ none
      → find_by key k (filter p t) ≡ none
  find_by-filter-none p k [] e = refl
  find_by-filter-none p k (r ∷ t) e = ground (arith, find_by-filter-none p k t)

  pub find_by-filter :
      (p : R → Bool) (k : String) (t : List R)
      → HasUniqueKeys key t
      → find_by key k (filter p t)
        ≡ (elim (find_by key k t) [ none ↦ none | some r ↦ if p r then some r else none ])
  find_by-filter p k [] u = refl
  find_by-filter p k (r ∷ t) (fresh, u) =
      ground
        (arith, eq_iff (key r) k, find_by-filter p k t u, find_by-filter-none p (key r) t fresh)

  pub map-HasUniqueKeys :
      (g : R → R) (t : List R)
      → ((r : R) → key (g r) ≡ key r)
      → HasUniqueKeys key t
      → HasUniqueKeys key (map g t)
  map-HasUniqueKeys g [] keeps u = tt
  map-HasUniqueKeys g (r ∷ t) keeps (fresh, u) =
      (rw (keeps r, find_by-map g (key r) t keeps, fresh) refl, map-HasUniqueKeys g t keeps u)

  pub filter-HasUniqueKeys :
      (p : R → Bool) (t : List R) → HasUniqueKeys key t → HasUniqueKeys key (filter p t)
  filter-HasUniqueKeys p [] u = tt
  filter-HasUniqueKeys p (r ∷ t) (fresh, u) = elim (Bool-cases (p r)) [
    | inl kept ↦ rw kept (find_by-filter-none p (key r) t fresh, filter-HasUniqueKeys p t u)
    | inr dropped ↦ rw dropped (filter-HasUniqueKeys p t u)
  ]

  find_by_ne_of_mem : (t : List R) {r : R} → Memᴰ r t → find_by key (key r) t ≢ none
  find_by_ne_of_mem [] m e = elim m [ ]
  find_by_ne_of_mem (x ∷ t) {r} (Memᴰ.head e) gone =
      ground (arith, ap key e, eq_iff (key x) (key r))
  find_by_ne_of_mem (x ∷ t) {r} (Memᴰ.tail m) gone =
      ground (arith, eq_iff (key x) (key r), find_by_ne_of_mem t m)

  -- A row is found under its key.
  pub find_by_of_mem :
      (t : List R) {r : R} → HasUniqueKeys key t → Memᴰ r t → find_by key (key r) t ≡ some r
  find_by_of_mem [] u m = elim m [ ]
  find_by_of_mem (x ∷ t) {r} u (Memᴰ.head e) = rw e (rw (eq_refl (key x)) refl)
  find_by_of_mem (x ∷ t) {r} (fresh, u) (Memᴰ.tail m) = elim (Bool-cases (key x == key r)) [
    | inl same ↦
        let absent : find_by key (key r) t ≡ none = rw (← (eq_iff _ _).0 same) fresh in
        absurd (find_by_ne_of_mem t m absent)
    | inr other ↦ rw other (find_by_of_mem t u m)
  ]

  pub eq_of_key :
      (t : List R) {r s : R} → HasUniqueKeys key t → Memᴰ r t → Memᴰ s t → key r ≡ key s → r ≡ s
  eq_of_key t {r} {s} u m n e =
      let here = find_by_of_mem t u m in
      let there = find_by_of_mem t u n in
      let same : find_by key (key r) t ≡ find_by key (key s) t = ap (λ k. find_by key k t) e in cc

  -- At most one row has a given key.
  length-filter_key :
      (k : String) (t : List R)
      → HasUniqueKeys key t
      → length (filter (λ r. k == key r) t) ≤ (if is_some (find_by key k t) then 1 else 0)
  length-filter_key k [] u = omega arith
  length-filter_key k (r ∷ t) (fresh, u) =
      ground (arith, eq_iff k (key r), eq_iff (key r) k, length-filter_key k t u)

  length-filter_or :
      (p q : R → Bool) (t : List R)
      → length (filter (λ r. p r || q r) t) ≤ length (filter p t) + length (filter q t)
  length-filter_or p q [] = omega arith
  length-filter_or p q (r ∷ t) = ground (arith, length-filter_or p q t)

  -- A list of keys selects at most as many rows.
  pub length-filter-includes :
      (ks : List String) (t : List R)
      → HasUniqueKeys key t
      → length (filter (λ r. includes (key r) ks) t) ≤ length ks
  length-filter-includes [] t u = omega (arith, length-filter_none t)
    where
      length-filter_none : (t : List R) → length (filter (λ r. false) t) ≡ 0
      length-filter_none [] = refl
      length-filter_none (r ∷ t) = length-filter_none t
  length-filter-includes (k ∷ ks) t u = ground (
    arith,
    length-filter_or (λ r. k == key r) (λ r. includes (key r) ks) t,
    length-filter_key k t u,
    length-filter-includes ks t u,
  )

-- ===== src/Table/Counting.antt =====
-- How many rows a list of rows selects by its keys.
use hexagonal.Base.{
  ℕ, zero, suc, ◌+◌, ◌≤◌, ◌≡◌, ◌≢◌, refl, Bool, true, false, ◌||◌, none, List, [], ◌∷◌, String, map,
  ◌==◌, arith, filter, includes, length, take, Bool-cases, eq_iff, Memᴰ, leb, inl, inr,
}
use hexagonal.Base.Sort.{insert_by, sort_by}
use hexagonal.Table.Defs.{find_by, HasUniqueKeys}

module _ {ℓ} {R : Type ℓ} (key : R → String) where
  find_by-insert_by :
      (f : R → ℕ) (k : String) (x : R) (t : List R)
      → key x ≢ k
      → find_by key k t ≡ none
      → find_by key k (insert_by f x t) ≡ none
  find_by-insert_by f k x [] apart e = ground (arith, eq_iff (key x) k)
  find_by-insert_by f k x (y ∷ t) apart e =
      ground (arith, eq_iff (key x) k, eq_iff (key y) k, find_by-insert_by f k x t apart)

  insert_by-HasUniqueKeys :
      (f : R → ℕ) (x : R) (t : List R)
      → find_by key (key x) t ≡ none
      → HasUniqueKeys key t
      → HasUniqueKeys key (insert_by f x t)
  insert_by-HasUniqueKeys f x [] fresh u = (refl, tt)
  insert_by-HasUniqueKeys f x (y ∷ t) fresh (g, u) = elim (Bool-cases (leb (f x) (f y))) [
    | inl low ↦ rw low (fresh, (g, u))
    | inr high ↦
        let apart : key x ≢ key y = λ e. ground (arith, eq_iff (key y) (key x), e) in
        let later : find_by key (key x) t ≡ none = ground arith in
        rw high (find_by-insert_by f (key y) x t apart g, insert_by-HasUniqueKeys f x t later u)
  ]

  find_by-sort_by :
      (f : R → ℕ) (k : String) (t : List R)
      → find_by key k t ≡ none
      → find_by key k (sort_by f t) ≡ none
  find_by-sort_by f k [] e = refl
  find_by-sort_by f k (x ∷ t) e = elim (Bool-cases (key x == k)) [
    | inl same ↦ ground arith
    | inr other ↦
        find_by-insert_by f k x (sort_by f t) (λ e. ground (arith, eq_iff (key x) k))
          (find_by-sort_by f k t (ground arith))
  ]

  pub sort_by-HasUniqueKeys :
      (f : R → ℕ) (t : List R) → HasUniqueKeys key t → HasUniqueKeys key (sort_by f t)
  sort_by-HasUniqueKeys f [] u = tt
  sort_by-HasUniqueKeys f (x ∷ t) (fresh, u) =
      insert_by-HasUniqueKeys f x (sort_by f t) (find_by-sort_by f (key x) t fresh)
        (sort_by-HasUniqueKeys f t u)

  find_by-take :
      (n : ℕ) (k : String) (t : List R) → find_by key k t ≡ none → find_by key k (take n t) ≡ none
  find_by-take zero k t e = refl
  find_by-take (suc n) k [] e = refl
  find_by-take (suc n) k (x ∷ t) e = ground (arith, find_by-take n k t)

  pub take-HasUniqueKeys : (n : ℕ) (t : List R) → HasUniqueKeys key t → HasUniqueKeys key (take n t)
  take-HasUniqueKeys zero t u = tt
  take-HasUniqueKeys (suc n) [] u = tt
  take-HasUniqueKeys (suc n) (x ∷ t) (fresh, u) =
      (find_by-take n (key x) t fresh, take-HasUniqueKeys n t u)

  absent-includes :
      (k : String) (t : List R) → find_by key k t ≡ none → includes k (map key t) ≡ false
  absent-includes k [] e = refl
  absent-includes k (x ∷ t) e = ground (arith, absent-includes k t)

  length-filter_or_eq :
      (p q : R → Bool) (t : List R)
      → ((r : R) → p r ≡ true → q r ≡ false)
      → length (filter (λ r. p r || q r) t) ≡ length (filter p t) + length (filter q t)
  length-filter_or_eq p q [] apart = omega arith
  length-filter_or_eq p q (r ∷ t) apart = ground (arith, apart r, length-filter_or_eq p q t apart)

  length-filter_key_pos :
      (k : String) (t : List R) → find_by key k t ≢ none → 1 ≤ length (filter (λ r. k == key r) t)
  length-filter_key_pos k [] e = absurd (e refl)
  length-filter_key_pos k (r ∷ t) e =
      ground (arith, eq_iff k (key r), eq_iff (key r) k, length-filter_key_pos k t)

  -- Rows of a table, without repetition, select as many rows as they are.
  pub length-le-selected :
      (chosen t : List R)
      → HasUniqueKeys key chosen
      → ((c : R) → Memᴰ c chosen → find_by key (key c) t ≢ none)
      → length chosen ≤ length (filter (λ r. includes (key r) (map key chosen)) t)
  length-le-selected [] t u within = omega arith
  length-le-selected (c ∷ cs) t (fresh, u) within =
      let absent = absent-includes (key c) cs fresh in
      omega (
        arith,
        length-filter_or_eq (λ r. key c == key r) (λ r. includes (key r) (map key cs)) t
            (λ r same. rw (← (eq_iff (key c) (key r)).0 same) absent),
        length-filter_key_pos (key c) t (within c (Memᴰ.head refl)),
        length-le-selected cs t u (λ d m. within d (Memᴰ.tail m)),
      )
